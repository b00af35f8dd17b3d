-- ===== src/Nif/Limits/Fits.antt =====
-- What the checks of limits.rs on a command mean for its transcript: its sizes fit their 32-bit fields.
use einsof.Prelude.{
  ℕ, ◌+◌, ◌≤◌, String, List, [], ◌∷◌, Option, none, some, ok, >>=-ok, ◌≡◌, arith, length,
}
use einsof.State.{KernelState}
use einsof.Nif.Chain.Cancel.Commands.{FitsCommand}
use einsof.Nif.Chain.Cancel.Plain.{IsShort, IsU32, FitsOption}
use einsof.Nif.Chain.Cancel.Structs.{FitsResolution, FitsConformance, FitsCrossInput}
use einsof.Nif.Command.{CommandN}
use einsof.Nif.Limits.Bounds.{max_opaque_utf8_bytes, max_capabilities, max_egress_kinds}
use einsof.Nif.Limits.Budget.{
  checked_add, checked_capacity, check_capacity, check_len, check_texts, check_next,
}
use einsof.Nif.Limits.Command.{
  check_policy, check_evidence, check_optional_evidence, check_cross_input, check_source,
  check_resolution, check_command,
}
use einsof.Nif.Limits.Preflight.{preflight}
use einsof.Nif.Limits.State.{checked_state_text}
use einsof.Nif.Text.{len}
use einsof.Nif.Wire.Structs.{
  ActionPolicySnapshotN, ConformanceAttestationN, CrossInputN, ResolutionAttestationN,
}

pub check_len-le : (n m : ℕ) → check_len n m ≡ ok tt → n ≤ m
unfolding check_len check_capacity checked_capacity checked_add
check_len-le n m h = ground arith

abbrev pub AllShort : List String → Type 0
AllShort [] = Unit {0}
AllShort (x ∷ xs) = IsShort x × AllShort xs

check_texts-AllShort : (xs : List String) → check_texts xs ≡ ok tt → AllShort xs
unfolding check_texts
check_texts-AllShort [] h = tt
check_texts-AllShort (x ∷ xs) h =
    let first = >>=-ok (check_len (len x) max_opaque_utf8_bytes) _ h in
    let le = check_len-le (len x) max_opaque_utf8_bytes first.1 in
    (omega (arith, le), check_texts-AllShort xs first.2)

check_policy-IsU32 :
    (v : ActionPolicySnapshotN)
    → check_policy v ≡ ok tt
    → IsU32 (length v.required_caps) × IsU32 (length v.declared_egress)
unfolding check_policy
check_policy-IsU32 v h =
    let caps = >>=-ok (check_len (length v.required_caps) max_capabilities) _ h in
    let le = check_len-le (length v.required_caps) max_capabilities caps.1 in
    let le' = check_len-le (length v.declared_egress) max_egress_kinds caps.2 in
    (omega (arith, le), omega (arith, le'))

check_source-Fits : (src : Option String) → check_source src ≡ ok tt → FitsOption IsShort src
unfolding check_source
check_source-Fits none h = tt
check_source-Fits (some s) h = (check_texts-AllShort (s ∷ []) h).0

check_resolution-Fits :
    (r : Option ResolutionAttestationN) → check_resolution r ≡ ok tt → FitsOption FitsResolution r
unfolding check_resolution
check_resolution-Fits none h = tt
check_resolution-Fits (some r) h =
    let (id, (inv, _)) = check_texts-AllShort (r.id ∷ r.inv ∷ []) h in record { id = id; inv = inv }

check_optional_evidence-Fits :
    (v : Option ConformanceAttestationN)
    → check_optional_evidence v ≡ ok tt
    → FitsOption FitsConformance v
unfolding check_optional_evidence check_evidence
check_optional_evidence-Fits none h = tt
check_optional_evidence-Fits (some v) h =
    let (id, (output, (src, (rcv, (descriptor, (assignment, _)))))) =
      check_texts-AllShort (v.id ∷ v.output ∷ v.src ∷ v.rcv ∷ v.descriptor ∷ v.assignment ∷ []) h in
    record {
      id = id;
      output = output;
      src = src;
      rcv = rcv;
      descriptor = descriptor;
      assignment = assignment;
    }

check_cross_input-Fits : (v : CrossInputN) → check_cross_input v ≡ ok tt → FitsCrossInput v
unfolding check_cross_input
check_cross_input-Fits v h =
    let texts = v.src ∷ v.rcv ∷ v.crossing ∷ v.output_hash ∷ v.descriptor ∷ v.assignment ∷ [] in
    let first = >>=-ok (check_texts texts) _ h in
    let (src, (rcv, (crossing, (output_hash, (descriptor, (assignment, _)))))) =
      check_texts-AllShort texts first.1 in
    record {
      src = src;
      rcv = rcv;
      crossing = crossing;
      output_hash = output_hash;
      descriptor = descriptor;
      assignment = assignment;
      evidence = check_optional_evidence-Fits v.evidence first.2;
    }

-- The one count of a command is a `u32`.
abbrev pub HasU32Count : CommandN → Type 0
HasU32Count (CommandN.grant_crossing c) = IsU32 c.n
HasU32Count _ = Unit {0}

check_command-Fits :
    (command : CommandN) → HasU32Count command → check_command command ≡ ok tt → FitsCommand command
unfolding check_command
check_command-Fits (CommandN.register_tool c) u h = record {
  tool = (check_texts-AllShort (c.tool ∷ []) h).0;
}
check_command-Fits (CommandN.unregister_tool c) u h = record {
  tool = (check_texts-AllShort (c.tool ∷ []) h).0;
}
check_command-Fits (CommandN.delegate c) u h =
    let (grantor, (grantee, _)) = check_texts-AllShort (c.grantor ∷ c.grantee ∷ []) h in
    record { grantor = grantor; grantee = grantee }
check_command-Fits (CommandN.grant_capability c) u h =
    let (parent, (child, _)) = check_texts-AllShort (c.parent ∷ c.child ∷ []) h in
    record { parent = parent; child = child }
check_command-Fits (CommandN.grant_crossing c) u h =
    let (grantor, (agent, (assignment, _))) =
      check_texts-AllShort (c.grantor ∷ c.agent ∷ c.assignment ∷ []) h in
    record { grantor = grantor; agent = agent; assignment = assignment; n = u }
check_command-Fits (CommandN.revoke c) u h =
    let (parent, (target, _)) = check_texts-AllShort (c.parent ∷ c.target ∷ []) h in
    record { parent = parent; target = target }
check_command-Fits (CommandN.cascade_revoke c) u h =
    let (child, (parent, _)) = check_texts-AllShort (c.child ∷ c.parent ∷ []) h in
    record { child = child; parent = parent }
check_command-Fits (CommandN.ingest c) u h =
    let first = >>=-ok (check_texts (c.agent ∷ [])) _ h in
    record {
      agent = (check_texts-AllShort (c.agent ∷ []) first.1).0;
      src = check_source-Fits c.src first.2;
    }
check_command-Fits (CommandN.begin_invocation c) u h =
    let texts =
      c.agent ∷ c.inv ∷ c.challenge ∷ c.policy.tool ∷ c.policy.policy_digest ∷ c.args_hash ∷ [] in
    let first = >>=-ok (check_texts texts) _ h in
    let second = >>=-ok (check_policy c.policy) _ first.2 in
    let le = check_len-le (length c.egress) max_egress_kinds second.2 in
    let (agent, (inv, (challenge, (tool, (policy_digest, (args_hash, _)))))) =
      check_texts-AllShort texts first.1 in
    let (caps, egress) = check_policy-IsU32 c.policy second.1 in
    record {
      agent = agent;
      inv = inv;
      challenge = challenge;
      args_hash = args_hash;
      policy = record {
        tool = tool;
        required_caps = caps;
        declared_egress = egress;
        policy_digest = policy_digest;
      };
      egress = omega (arith, le);
    }
check_command-Fits (CommandN.authorize_inspected c) u h =
    let a = c.attestation in
    let texts = c.inv ∷ a.id ∷ a.inv ∷ a.challenge ∷ a.args_hash ∷ a.policy_digest ∷ [] in
    let (inv, (id, (attested, (challenge, (args_hash, (policy_digest, _)))))) =
      check_texts-AllShort texts h in
    record {
      inv = inv;
      attestation = record {
        id = id;
        inv = attested;
        challenge = challenge;
        args_hash = args_hash;
        policy_digest = policy_digest;
      };
    }
check_command-Fits (CommandN.settle_invocation c) u h =
    let first = >>=-ok (check_texts (c.inv ∷ [])) _ h in
    record {
      inv = (check_texts-AllShort (c.inv ∷ []) first.1).0;
      resolution = check_resolution-Fits c.resolution first.2;
    }
check_command-Fits (CommandN.cross_output c) u h = record {
  input = check_cross_input-Fits c.input h;
}

check_next-le : (sequence : ℕ) → check_next sequence ≡ ok tt → sequence + 1 ≤ 100000
unfolding check_next checked_add
check_next-le sequence h = ground arith

pub preflight-next :
    (s : KernelState) (sequence : ℕ) (command : CommandN)
    → preflight s sequence command ≡ ok tt
    → sequence + 1 ≤ 100000
unfolding preflight
preflight-next s sequence command h = check_next-le sequence (>>=-ok (check_next sequence) _ h).1

-- Preflight lets through commands whose sizes fit, below the bound on sequence numbers.
pub preflight-Fits :
    (s : KernelState) (sequence : ℕ) (command : CommandN)
    → HasU32Count command
    → preflight s sequence command ≡ ok tt
    → (sequence + 1 ≤ 100000) × FitsCommand command
unfolding preflight
preflight-Fits s sequence command u h =
    let next = >>=-ok (check_next sequence) _ h in
    let text = >>=-ok (checked_state_text s) _ next.2 in
    let fits = >>=-ok (check_command command) _ text.2 in
    (preflight-next s sequence command h, check_command-Fits command u fits.1)
