-- ===== src/Nif/Instance/Chained.antt =====
-- The log of a session: a chain of envelopes from the genesis to the head.
use einsof.Prelude.{
  ℕ, ◌+◌, ◌≤◌, List, [], ◌∷◌, ◌++◌, ok, ◌≡◌, ◌↔◌, refl, sym, ap, ◌∙◌, subst, arith, length,
  length-append,
}
use einsof.Nif.Chain.Link.{Sha256, genesis, link, version}
use einsof.Nif.Command.{CommandN}
use einsof.Nif.Instance.Replay.{apply-Accepted}
use einsof.Nif.Instance.Resource.{
  InstanceState, LiveInstance, Applied, initial, applied, live_apply,
}
use einsof.Nif.Instance.Sessions.{
  live_at, Session, opened, accepted, refused, accepted_call, refused_call, live_new-at,
}
use einsof.Nif.Limits.Fits.{HasU32Count, preflight-next}
use einsof.Nif.Limits.Answers.{apply-FitsAction}
use einsof.Nif.Chain.Cancel.Actions.{FitsAction}
use einsof.Nif.Chain.Cancel.Commands.{FitsCommand}
use einsof.Nif.Wire.Background.{BackgroundN}
use einsof.Nif.Wire.Envelope.{DigestN, EnvelopeN}

abbrev pub All : (EnvelopeN → Type 0) → List EnvelopeN → Type 0
All P [] = Unit {0}
All P (e ∷ log) = P e × All P log

pub All-append :
    (P : EnvelopeN → Type 0) (log : List EnvelopeN) (e : EnvelopeN)
    → All P (log ++ e ∷ []) ↔ (All P log × P e)
All-append P [] e = (λ f. (tt, f.0), λ f. (f.1, tt))
All-append P (x ∷ log) e =
    let both = All-append P log e in
    (λ f. let rest = both.0 f.1 in ((f.0, rest.0), rest.1), λ f. (f.0.0, both.1 (f.0.1, f.1)))

-- The counts of a log's commands are `u32`.
abbrev pub CountsLog : List EnvelopeN → Type 0
CountsLog log = All (λ e. HasU32Count e.command) log

-- Texts and lists with 32-bit sizes.
abbrev pub FitsEnvelope : EnvelopeN → Type 0
FitsEnvelope e = FitsCommand e.command × FitsAction e.action

module _ (sha : Sha256) (v : BackgroundN) where
  -- A log, the number of its last envelope, and the digest of its last envelope.
  pub data Chained : List EnvelopeN → ℕ → DigestN → Type 0 where
    start : Chained [] 0 (genesis sha v)
    grown :
        {log : List EnvelopeN} {n : ℕ} {head : DigestN} (e : EnvelopeN)
        → Chained log n head
        → e.version ≡ version
        → e.sequence ≡ n + 1
        → e.previous_digest ≡ head
        → e.digest ≡ link sha head (n + 1) e.command e.action
        → Chained (log ++ e ∷ []) (n + 1) e.digest

  pub record IsChain (live : LiveInstance) (log : List EnvelopeN) : Type 0 where
    pub state : InstanceState
    pub is_live : live ≡ live_at v state
    pub chained : Chained log state.sequence state.head
    pub counted : state.sequence ≡ length log
    pub bounded : state.sequence ≤ 100000
    pub fits : CountsLog log → All FitsEnvelope log

  IsChain-accepted :
      {live next : LiveInstance} {log : List EnvelopeN} {envelope : EnvelopeN} (command : CommandN)
      → IsChain live log
      → live_apply sha live command ≡ (next, ok envelope)
      → IsChain next (log ++ envelope ∷ [])
  unfolding applied
  IsChain-accepted {live} {next} {log} {envelope} command b h =
      let (a, p, n, e) =
        accepted_call sha v b.state command next envelope
          (ap (λ l. live_apply sha l command) (sym b.is_live) ∙ h) in
      let w = apply-Accepted sha b.state _ command p in
      let made = applied sha b.state (b.state.sequence + 1) command (w.kernel, w.action) in
      let bound = preflight-next b.state.kernel b.state.sequence command w.allowed in
      let chain = grown made.envelope b.chained refl refl refl refl in
      record {
        state = made.next;
        is_live = n ∙ ap (λ (x : Applied). live_at v x.next) w.result;
        chained =
            subst (λ x. Chained (log ++ x ∷ []) made.next.sequence made.next.head)
              (sym (e ∙ ap (λ (x : Applied). x.envelope) w.result)) chain;
        counted = omega (arith, length-append log (envelope ∷ []), b.counted);
        bounded = bound;
        fits = λ counts.
            let (before, last) = (All-append (λ e. HasU32Count e.command) log envelope).0 counts in
            let same = e ∙ ap (λ (x : Applied). x.envelope) w.result in
            let fit =
              apply-FitsAction b.state.kernel w.kernel b.state.sequence command _ w.action
                (subst (λ (x : EnvelopeN). HasU32Count x.command) same last) w.allowed w.stepped in
            (All-append FitsEnvelope log envelope).1
              (b.fits before, subst FitsEnvelope (sym same) fit);
      }

  -- The log of a session is a chain: from the genesis of its background, each envelope has the
  -- protocol's version, the next sequence number, the digest before it, and the digest of its own
  -- link; the instance's number is the log's length, at most 100,000, its head the last digest, and
  -- where the commands' crossing counts are 32-bit numbers, all texts and lists of the log have
  -- 32-bit sizes.
  pub Session-IsChain :
      {live : LiveInstance} {log : List EnvelopeN} → Session sha v live log → IsChain live log
  unfolding initial
  Session-IsChain opened = record {
    state = initial sha v;
    is_live = live_new-at sha v;
    chained = start;
    counted = refl;
    bounded = omega arith;
    fits = λ _. tt;
  }
  Session-IsChain (accepted command s h) = IsChain-accepted command (Session-IsChain s) h
  Session-IsChain (refused {live} {next} {log} {e} command s h) =
      let b = Session-IsChain s in
      record {
        state = b.state;
        is_live =
            refused_call sha v b.state command next e
              (ap (λ l. live_apply sha l command) (sym b.is_live) ∙ h);
        chained = b.chained;
        counted = b.counted;
        bounded = b.bounded;
        fits = b.fits;
      }
