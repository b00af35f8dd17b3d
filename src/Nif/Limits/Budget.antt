-- ===== src/Nif/Limits/Budget.antt =====
-- The checked sum of ex_argus/native/argus_nif/src/limits.rs and its budget of retained text.
-- `usize` and `u64` have 64 bits.
use einsof.Prelude.{
  ℕ, ◌+◌, String, List, [], ◌∷◌, Result, ok, err, ◌>>=◌, ◌>>◌, if◌then◌else◌, leb, ltb,
}
use einsof.Nif.Event.{ErrorN, capacity_exceeded, sequence_exhausted}
use einsof.Nif.Limits.Bounds.{max_opaque_utf8_bytes, max_retained_utf8_bytes, max_accepted_sequence}
use einsof.Nif.Text.{len}

-- `a.checked_add(b)` at 64 bits, an overflow being the given error.
unfoldable pub checked_add : ℕ → ℕ → ErrorN → Result ErrorN ℕ
checked_add a b refusal = if ltb (a + b) 18446744073709551616 then ok (a + b) else err refusal

unfoldable pub checked_capacity : ℕ → ℕ → ℕ → Result ErrorN ℕ
checked_capacity current addition maximum = do
  total ← checked_add current addition capacity_exceeded
  if leb total maximum then ok total else err capacity_exceeded

unfoldable pub check_capacity : ℕ → ℕ → ℕ → Result ErrorN (Unit {0})
check_capacity current addition maximum = do _ ← checked_capacity current addition maximum; ok tt

unfoldable pub check_len : ℕ → ℕ → Result ErrorN (Unit {0})
check_len current maximum = check_capacity current 0 maximum

pub record TextBudget : Type 0 where
  pub total : ℕ

unfoldable pub new : TextBudget
new = record { total = 0 }

unfoldable pub add : TextBudget → String → Result ErrorN TextBudget
add text value = do
  check_len (len value) max_opaque_utf8_bytes
  total ← checked_capacity text.total (len value) max_retained_utf8_bytes
  ok (record { total = total })

-- `text.add(..)?;` for each of some values.
unfoldable pub add_all : TextBudget → List String → Result ErrorN TextBudget
add_all text [] = ok text
add_all text (value ∷ rest) = do text ← add text value; add_all text rest

-- `check_len(value.len(), MAX_OPAQUE_UTF8_BYTES)?;` for each of some values.
unfoldable pub check_texts : List String → Result ErrorN (Unit {0})
check_texts [] = ok tt
check_texts (value ∷ rest) = check_len (len value) max_opaque_utf8_bytes >> check_texts rest

-- A loop over a collection whose body may fail.
unfoldable pub check_each {ℓ} :
    {A : Type ℓ} → (A → Result ErrorN (Unit {0})) → List A → Result ErrorN (Unit {0})
check_each body [] = ok tt
check_each body (x ∷ xs) = body x >> check_each body xs

unfoldable pub add_each {ℓ} :
    {A : Type ℓ} → (A → List String) → List A → TextBudget → Result ErrorN TextBudget
add_each texts [] text = ok text
add_each texts (x ∷ xs) text = do text ← add_all text (texts x); add_each texts xs text

-- The next sequence number, within the protocol's bound.
unfoldable pub check_next : ℕ → Result ErrorN (Unit {0})
check_next sequence = do
  next ← checked_add sequence 1 sequence_exhausted
  if ltb max_accepted_sequence next then err sequence_exhausted else ok tt
