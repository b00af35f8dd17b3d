-- ===== src/Nif/Wire/Equality.antt =====
-- The derived equality of actions and digests.
use mathlib.Core.List.{List-discrete}
use native.Mathlib.Decide.{ℕ_discrete}
use einsof.Prelude.{
  String, PartialEq, of_discrete, string_eq, ap, eq_of_beq, ne_of_beq, Bool-cases, inl, inr,
}
use einsof.Nif.Event.{ActionN}
use einsof.Nif.Wire.Envelope.{DigestN, digest_path}

unfoldable pub String-discrete : Discrete String
String-discrete s t = elim (Bool-cases (string_eq.eq s t)) [
  | inl same ↦ yes (eq_of_beq same)
  | inr other ↦ no (ne_of_beq other)
]

unfoldable pub ActionN-discrete : Discrete ActionN
ActionN-discrete = hlevel (String-discrete, ℕ_discrete)

instance abbrev pub action_n_eq : PartialEq ActionN
action_n_eq = of_discrete ActionN-discrete

unfoldable pub DigestN-discrete : Discrete DigestN
DigestN-discrete p q = elim (List-discrete ℕ_discrete p.as_bytes q.as_bytes) [
  | yes same ↦ yes (digest_path p q same)
  | no other ↦ no (λ e. other (ap (λ (d : DigestN). d.as_bytes) e))
]

instance abbrev pub digest_n_eq : PartialEq DigestN
digest_n_eq = of_discrete DigestN-discrete
