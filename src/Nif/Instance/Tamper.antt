-- ===== src/Nif/Instance/Tamper.antt =====
-- What a head tells of a log: two chains with one head are one log, or the digests of transcripts that
-- stand at one place in them collide.
use mathlib.Core.List.{List-discrete}
use native.Mathlib.Decide.{ℕ_discrete}
use einsof.Prelude.{ℕ, ◌≤◌, List, [], ◌∷◌, ◌++◌, ok, ◌≡◌, ◌≢◌, ◌⊎◌, inl, inr, sym, ap, ◌∙◌, arith}
use einsof.Nif.Chain.Commands.{command_normal}
use einsof.Nif.Chain.Link.{Sha256, genesis, link, genesis_transcript, link_transcript}
use einsof.Nif.Chain.Links.{link_transcript_iff, genesis_transcript_iff}
use einsof.Nif.Enums.{EgressKindN}
use einsof.Nif.Instance.Chained.{
  All, All-append, CountsLog, FitsEnvelope, Chained, start, grown, Session-IsChain,
}
use einsof.Nif.Instance.Recovered.{finalize-Session}
use einsof.Nif.Instance.Resource.{
  InstanceState, LiveInstance, RecoveryInstance, status, finalize, try_lock,
}
use einsof.Nif.Instance.Sessions.{live_at, Session, Recovery, answer_injective}
use einsof.Nif.Wire.Background.{BackgroundN, ceiling}
use einsof.Nif.Wire.Envelope.{DigestN, EnvelopeN, ChainN}

-- Commands the same up to the order and the repetitions of their sets, and all else the same.
pub record SameEnvelope (a b : EnvelopeN) : Type 0 where
  pub version : a.version ≡ b.version
  pub sequence : a.sequence ≡ b.sequence
  pub previous_digest : a.previous_digest ≡ b.previous_digest
  pub digest : a.digest ≡ b.digest
  pub command : command_normal a.command ≡ command_normal b.command
  pub action : a.action ≡ b.action

pub data SameLog : List EnvelopeN → List EnvelopeN → Type 0 where
  none : SameLog [] []
  more :
      {log log' : List EnvelopeN} {a b : EnvelopeN}
      → SameLog log log'
      → SameEnvelope a b
      → SameLog (log ++ a ∷ []) (log' ++ b ∷ [])

-- What the digests of backgrounds tell apart.
pub record SameBackground (v w : BackgroundN) : Type 0 where
  pub mode : v.mode ≡ w.mode
  pub allow : (k : EgressKindN) → ceiling v.allow_ceiling k ≡ ceiling w.allow_ceiling k
  pub inspect : (k : EgressKindN) → ceiling v.inspect_ceiling k ≡ ceiling w.inspect_ceiling k

-- The anchor that `status` answers on a free instance.
status-head :
    (v : BackgroundN) (st : InstanceState) (live : LiveInstance) (anchor : ChainN)
    → live ≡ live_at v st
    → status live ≡ ok anchor
    → (anchor.sequence ≡ st.sequence) × (anchor.head ≡ st.head)
unfolding status try_lock
status-head v st live anchor p h =
    let q = ap status (sym p) ∙ h in
    (
      ap (λ (a : ChainN). a.sequence) (sym (answer_injective q)),
      ap (λ (a : ChainN). a.head) (sym (answer_injective q)),
    )

-- What an envelope's digest is the digest of.
abbrev pub transcript_of : EnvelopeN → List ℕ
transcript_of e = link_transcript e.previous_digest e.sequence e.command e.action

module _ (sha : Sha256) where
  -- Different byte strings with one digest.
  abbrev pub Collision : List ℕ → List ℕ → Type 0
  Collision m n = (m ≢ n) × (sha.finalize m ≡ sha.finalize n)

  digest-cases : (m n : List ℕ) → sha.finalize m ≡ sha.finalize n → (m ≡ n) ⊎ Collision m n
  digest-cases m n e = elim (List-discrete ℕ_discrete m n) [ yes p ↦ inl p | no q ↦ inr (q, e) ]

  module _ (v w : BackgroundN) where
    -- A collision that two chains exhibit: of their genesis transcripts, or of the transcripts of
    -- two envelopes that stand at one place of their logs.
    pub data Collides : List EnvelopeN → List EnvelopeN → Type 0 where
      at_genesis : Collision (genesis_transcript v) (genesis_transcript w) → Collides [] []
      at_last :
          (log log' : List EnvelopeN) (a b : EnvelopeN)
          → Collision (transcript_of a) (transcript_of b)
          → Collides (log ++ a ∷ []) (log' ++ b ∷ [])
      before :
          {log log' : List EnvelopeN} (a b : EnvelopeN)
          → Collides log log'
          → Collides (log ++ a ∷ []) (log' ++ b ∷ [])

    -- Two chains with one number and one head, by induction from the head down.
    Chained-SameLog :
        {log log' : List EnvelopeN} {n m : ℕ} {head head' : DigestN}
        → Chained sha v log n head
        → Chained sha w log' m head'
        → n ≡ m
        → head ≡ head'
        → n ≤ 100000
        → All FitsEnvelope log
        → All FitsEnvelope log'
        → (SameBackground v w × SameLog log log') ⊎ Collides log log'
    unfolding genesis link
    Chained-SameLog start start same head bound f g =
        elim (digest-cases (genesis_transcript v) (genesis_transcript w) head) [
          | inl p ↦
              let (mode, allow, inspect) = (genesis_transcript_iff v w).0 p in
              inl (record { mode = mode; allow = allow; inspect = inspect }, none)
          | inr x ↦ inr (at_genesis x)
        ]
    Chained-SameLog start (grown _ _ _ _ _ _) same head bound f g = absurd (omega (arith, same))
    Chained-SameLog (grown _ _ _ _ _ _) start same head bound f g = absurd (omega (arith, same))
    Chained-SameLog (grown {log} {n} {head = p} a c va na pa da)
          (grown {log = log'} {n = m} {head = q} b d vb nb pb db) same head bound f g =
        let (fl, (fc, fa)) = (All-append FitsEnvelope log a).0 f in
        let (gl, (gc, ga)) = (All-append FitsEnvelope log' b).0 g in
        let own : a.digest ≡ sha.finalize (transcript_of a) = cc (da, na, pa) in
        let own' : b.digest ≡ sha.finalize (transcript_of b) = cc (db, nb, pb) in
        elim (digest-cases (transcript_of a) (transcript_of b) (sym own ∙ head ∙ own')) [
          | inr x ↦ inr (at_last log log' a b x)
          | inl e ↦
              let (prev, num, command, action) =
                (link_transcript_iff a.previous_digest b.previous_digest a.sequence b.sequence
                    a.command b.command a.action b.action (omega (arith, na, bound))
                    (omega (arith, nb, bound, same)) fc gc fa ga).0
                  e in
              let below = sym pa ∙ prev ∙ pb in
              elim (Chained-SameLog c d (omega (arith, same)) below (omega (arith, bound)) fl gl) [
                | inr x ↦ inr (before a b x)
                | inl (bg, rest) ↦ inl (
                  bg,
                  more rest (record {
                    version = va ∙ sym vb;
                    sequence = num;
                    previous_digest = prev;
                    digest = head;
                    command = command;
                    action = action;
                  }),
                )
              ]
        ]

    -- Two sessions that answer one anchor.
    Sessions-SameLog :
        {live live' : LiveInstance} {log log' : List EnvelopeN} {anchor : ChainN}
        → Session sha v live log
        → Session sha w live' log'
        → status live ≡ ok anchor
        → status live' ≡ ok anchor
        → CountsLog log
        → CountsLog log'
        → (SameBackground v w × SameLog log log') ⊎ Collides log log'
    Sessions-SameLog {live} {live'} {log} {log'} {anchor} a b p q c d =
        let x = Session-IsChain sha v a in
        let y = Session-IsChain sha w b in
        let (n, head) = status-head v x.state live anchor x.is_live p in
        let (m, head') = status-head w y.state live' anchor y.is_live q in
        Chained-SameLog x.chained y.chained (sym n ∙ m) (sym head ∙ head') x.bounded (x.fits c)
          (y.fits d)

    -- Let a session's status answer an anchor. If a recovery, of any background and given any
    -- envelopes, is handed over against that anchor, and the crossing counts of both logs are 32-bit
    -- numbers, then the backgrounds have the same mode and ceilings and the recovery took the
    -- session's own log, up to the order and the repetitions of the commands' sets; or the two
    -- chains show a collision: their genesis transcripts, or the transcripts of two envelopes at one
    -- place of the two logs, differ and have one digest.
    pub finalize-SameLog :
        {live live' : LiveInstance} {log log' : List EnvelopeN} {anchor : ChainN}
        {recovery after : RecoveryInstance}
        → Session sha v live log
        → status live ≡ ok anchor
        → Recovery sha w recovery log'
        → finalize recovery anchor ≡ (after, ok live')
        → CountsLog log
        → CountsLog log'
        → (SameBackground v w × SameLog log log') ⊎ Collides log log'
    finalize-SameLog a p r h c d =
        let (b, q) = finalize-Session sha w r h in Sessions-SameLog a b p q c d
