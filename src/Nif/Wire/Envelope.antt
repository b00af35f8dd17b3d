-- ===== src/Nif/Wire/Envelope.antt =====
-- `DigestN`, `EnvelopeN` and `ChainN` of ex_argus/native/argus_nif/src/wire.rs.
use mathlib.Core.HLevel.{is_prop→PathP}
use einsof.Prelude.{ℕ, List, [], ◌∷◌, Bool, true, ◌&&◌, ◌≡◌, arith, eqb, ltb, length}
use einsof.Nif.Command.{CommandN}
use einsof.Nif.Event.{ActionN}

-- `[u8; 32]`
abbrev pub all_u8 : List ℕ → Bool
all_u8 [] = true
all_u8 (b ∷ bs) = ltb b 256 && all_u8 bs

abbrev pub is_digest : List ℕ → Bool
is_digest bytes = eqb (length bytes) 32 && all_u8 bytes

pub record DigestN : Type 0 where
  pub as_bytes : List ℕ
  pub sized : is_digest as_bytes ≡ true

pub length-as_bytes : (d : DigestN) → length d.as_bytes ≡ 32
length-as_bytes d = let h = d.sized in ground arith

-- A digest is its bytes.
pub digest_path : (p q : DigestN) → p.as_bytes ≡ q.as_bytes → p ≡ q
digest_path p q e i = record {
  as_bytes = e i;
  sized = is_prop→PathP (λ i. is_digest (e i) ≡ true) (λ i. hlevel) p.sized q.sized i;
}

pub record EnvelopeN : Type 0 where
  pub version : ℕ
  pub sequence : ℕ
  pub previous_digest : DigestN
  pub digest : DigestN
  pub command : CommandN
  pub action : ActionN

pub record ChainN : Type 0 where
  pub version : ℕ
  pub sequence : ℕ
  pub head : DigestN
