-- ===== src/Nif/Chain/Links.antt =====
-- What a transcript of a link or of a genesis shows.
use einsof.Prelude.{
  ℕ, List, [], ◌∷◌, Option, ◌≡◌, ◌↔◌, refl, ap, sym, ◌∙◌, subst, arith, true, inl, inr, eq-cases,
}
use einsof.Nif.Chain.Cancel.Action.{write_action-cancel}
use einsof.Nif.Chain.Cancel.Actions.{FitsAction}
use einsof.Nif.Chain.Cancel.Command.{write_command-cancel}
use einsof.Nif.Chain.Cancel.Commands.{FitsCommand}
use einsof.Nif.Chain.Cancel.Plain.{
  IsU64, append-cancel, u32-cancel, u64-cancel, string-cancel, IsShort, tagged-cancel,
  option-cancel,
}
use einsof.Nif.Chain.Cancel.Structs.{any_conf}
use einsof.Collections.VecSet.Laws.{elem}
use einsof.Nif.Chain.Cancel.Tags.{mode_tag_injective, conf_level_tag_injective}
use einsof.Nif.Chain.Actions.{write_action}
use einsof.Nif.Chain.Commands.{
  write_command, write_command_fields, write_begin_invocation, command_normal, begin_normal,
}
use einsof.Nif.Chain.Link.{
  write_ceilings, write_background, write_genesis, write_link, genesis_domain, envelope_domain,
  genesis_transcript, link_transcript,
}
use einsof.Nif.Chain.Structs.{write_policy, policy_normal}
use einsof.Nif.Chain.Tags.{cap_kind_tag, egress_kind_tag, conf_level_tag, integ_level_tag, mode_tag}
use einsof.Nif.Chain.Transcript.{u8, string, bool, tagged, list, canonical_set}
use einsof.Nif.Command.{CommandN, command_tag}
use einsof.Nif.Enums.{
  EgressKindN, ConfLevelN, EgressKindN-discrete, egress_kind_n_eq, all_egress_kinds,
}
use einsof.Nif.Event.{ActionN}
use einsof.Nif.Wire.Background.{BackgroundN, ceiling}
use einsof.Nif.Wire.Commands.{BeginInvocationCommandN}
use einsof.Nif.Wire.Envelope.{DigestN, digest_path, length-as_bytes}
use einsof.Nif.Text.{len, bytes}
use einsof.Nif.Wire.Structs.{ActionPolicySnapshotN}

-- The writers over the normal form, whose lists are written as they stand.
shown_policy : ActionPolicySnapshotN → List ℕ → List ℕ
shown_policy v rest = string v.tool (
    list (tagged cap_kind_tag) v.required_caps (
      tagged conf_level_tag v.conf_clearance (
        tagged integ_level_tag v.integ_floor (
          tagged integ_level_tag v.integ_inspect (
            tagged conf_level_tag v.output_conf (
              tagged integ_level_tag v.output_integ (
                list (tagged egress_kind_tag) v.declared_egress (string v.policy_digest rest))))))))

shown_begin : BeginInvocationCommandN → List ℕ → List ℕ
shown_begin v rest = string v.agent (
    string v.inv (
      string v.challenge (
        shown_policy v.policy
          (list (tagged egress_kind_tag) v.egress (string v.args_hash (bool v.authorized rest))))))

shown : CommandN → List ℕ → List ℕ
shown (CommandN.register_tool v) rest = write_command (CommandN.register_tool v) rest
shown (CommandN.begin_invocation v) rest =
    u8 (command_tag (CommandN.begin_invocation v)) (shown_begin v rest)
shown c rest = write_command c rest

write_command-shown :
    (c : CommandN) (rest : List ℕ) → write_command c rest ≡ shown (command_normal c) rest
unfolding shown command_normal command_tag
write_command-shown (CommandN.begin_invocation v) rest =
    unfold write_command write_command_fields write_begin_invocation write_policy canonical_set
      shown_begin shown_policy begin_normal policy_normal in
    refl
write_command-shown _ rest = refl

write_command-eq :
    (c d : CommandN) (rest : List ℕ)
    → command_normal c ≡ command_normal d
    → write_command c rest ≡ write_command d rest
write_command-eq c d rest e =
    write_command-shown c rest ∙ ap (λ n. shown n rest) e ∙ sym (write_command-shown d rest)

-- For 64-bit sequence numbers, and commands and actions whose texts and lists have 32-bit sizes, two
-- links have one transcript exactly when the predecessor, the sequence number and the action are the
-- same and the commands are the same up to the order and the repetitions of their sets.
pub link_transcript_iff :
    (p q : DigestN) (n m : ℕ) (c d : CommandN) (a b : ActionN)
    → IsU64 n
    → IsU64 m
    → FitsCommand c
    → FitsCommand d
    → FitsAction a
    → FitsAction b
    → (link_transcript p n c a ≡ link_transcript q m d b)
      ↔ ((p ≡ q) × (n ≡ m) × (command_normal c ≡ command_normal d) × (a ≡ b))
unfolding link_transcript write_link
link_transcript_iff p q n m c d a b fn fm fc fd fa fb = (
  λ e.
      let ver =
        u32-cancel 5 5 (omega arith) (omega arith) _ _
          (append-cancel envelope_domain envelope_domain _ _ refl e).1 in
      let prev =
        append-cancel p.as_bytes q.as_bytes _ _ (length-as_bytes p ∙ sym (length-as_bytes q))
          ver.1 in
      let number = u64-cancel n m fn fm _ _ prev.1 in
      let command = write_command-cancel c d fc fd _ _ number.1 in
      let action = write_action-cancel a b fa fb [] [] command.1 in
      (digest_path p q prev.0, number.0, command.0, action.0),
  λ same. cc (same.0, same.1, same.3, write_command-eq c d (write_action b []) same.2),
)

root_IsShort : IsShort "root"
unfolding len bytes
root_IsShort = omega arith

write_ceilings-cancel :
    (f g : EgressKindN → Option (Option ConfLevelN)) (kinds : List EgressKindN) (r s : List ℕ)
    → write_ceilings f kinds r ≡ write_ceilings g kinds s
    → ((k : EgressKindN) → elem k kinds ≡ true → ceiling f k ≡ ceiling g k) × (r ≡ s)
unfolding write_ceilings elem
write_ceilings-cancel f g [] r s e = (λ k h. cc h, e)
write_ceilings-cancel f g (x ∷ xs) r s e =
    let head =
      option-cancel (tagged conf_level_tag) (λ _. Unit {0})
        (tagged-cancel conf_level_tag conf_level_tag_injective) (ceiling f x) (ceiling g x)
        (any_conf (ceiling f x)) (any_conf (ceiling g x)) _ _ e in
    let tail = write_ceilings-cancel f g xs r s head.1 in
    (
      λ k h. elim (eq-cases x k) [
        | inl (_, p) ↦ subst (λ k. ceiling f k ≡ ceiling g k) p head.0
        | inr (q, _) ↦ tail.0 k (ground (arith, q))
      ],
      tail.1,
    )

egress_kind_listed : (k : EgressKindN) → elem k all_egress_kinds ≡ true
unfolding elem EgressKindN-discrete
egress_kind_listed EgressKindN.network_external = refl
egress_kind_listed EgressKindN.network_internal = refl
egress_kind_listed EgressKindN.filesystem_write = refl
egress_kind_listed EgressKindN.ipc = refl

write_ceilings-eq :
    (f g : EgressKindN → Option (Option ConfLevelN)) (kinds : List EgressKindN) (r s : List ℕ)
    → ((k : EgressKindN) → ceiling f k ≡ ceiling g k)
    → r ≡ s
    → write_ceilings f kinds r ≡ write_ceilings g kinds s
unfolding write_ceilings
write_ceilings-eq f g [] r s h e = e
write_ceilings-eq f g (x ∷ xs) r s h e = cc (h x, write_ceilings-eq f g xs r s h e)

-- Two backgrounds have one genesis transcript exactly when mode and ceilings are the same, a missing
-- key being no ceiling.
pub genesis_transcript_iff :
    (v w : BackgroundN)
    → (genesis_transcript v ≡ genesis_transcript w) ↔ (
        (v.mode ≡ w.mode)
        × ((k : EgressKindN) → ceiling v.allow_ceiling k ≡ ceiling w.allow_ceiling k)
        × ((k : EgressKindN) → ceiling v.inspect_ceiling k ≡ ceiling w.inspect_ceiling k))
unfolding genesis_transcript write_genesis write_background
genesis_transcript_iff v w = (
  λ e.
      let ver =
        u32-cancel 5 5 (omega arith) (omega arith) _ _
          (append-cancel genesis_domain genesis_domain _ _ refl e).1 in
      let name = string-cancel "root" "root" (root_IsShort) (root_IsShort) _ _ ver.1 in
      let mode = tagged-cancel mode_tag mode_tag_injective v.mode w.mode tt tt _ _ name.1 in
      let allow =
        write_ceilings-cancel v.allow_ceiling w.allow_ceiling all_egress_kinds _ _ mode.1 in
      let inspect =
        write_ceilings-cancel v.inspect_ceiling w.inspect_ceiling all_egress_kinds [] [] allow.1 in
      (mode.0, λ k. allow.0 k (egress_kind_listed k), λ k. inspect.0 k (egress_kind_listed k)),
  λ same. cc (
    same.0,
    write_ceilings-eq v.allow_ceiling w.allow_ceiling all_egress_kinds _ _ same.1
        (write_ceilings-eq v.inspect_ceiling w.inspect_ceiling all_egress_kinds [] [] same.2 refl),
  ),
)
