-- ===== src/Nif/Text.antt =====
-- The bytes of a `String`: `as_bytes` and `len`, as the language defines them (UTF-8).
use Prim.Native.Char.{Char, code}
use Prim.Native.Nat.{◌/◌}
use text.Mathlib.TextEquality.{Char-path}
use einsof.Prelude.{
  ℕ, ◌+◌, ◌%◌, String, List, [], ◌∷◌, ◌++◌, ◌≡◌, ◌≢◌, refl, sym, arith, if◌then◌else◌, ltb, length,
}

utf8 : ℕ → List ℕ
utf8 c =
    if ltb c 128
    then c ∷ []
    else if ltb c 2048
    then (192 + c / 64) ∷ (128 + c % 64) ∷ []
    else if ltb c 65536
    then (224 + c / 4096) ∷ (128 + (c / 64) % 64) ∷ (128 + c % 64) ∷ []
    else (240 + c / 262144) ∷ (128 + (c / 4096) % 64) ∷ (128 + (c / 64) % 64) ∷ (128 + c % 64) ∷ []

unfoldable pub bytes : String → List ℕ
unfolding utf8
bytes String.[] = []
bytes (String.◌∷◌ c s) = utf8 (code c) ++ bytes s

-- `str::len`.
unfoldable pub len : String → ℕ
len s = length (bytes s)

utf8-cancel : (c d : ℕ) (r s : List ℕ) → utf8 c ++ r ≡ utf8 d ++ s → (c ≡ d) × (r ≡ s)
unfolding utf8
utf8-cancel c d r s e = ground arith

utf8-ne-nil : (c : ℕ) (r : List ℕ) → utf8 c ++ r ≢ []
unfolding utf8
utf8-ne-nil c r e = ground arith

cons_path : (c d : Char) (s t : String) → c ≡ d → s ≡ t → String.◌∷◌ c s ≡ String.◌∷◌ d t
cons_path c d s t p q = cc

-- A text is determined by its bytes.
pub bytes_injective : (s t : String) → bytes s ≡ bytes t → s ≡ t
unfolding bytes
bytes_injective String.[] String.[] e = refl
bytes_injective String.[] (String.◌∷◌ d t) e = absurd (utf8-ne-nil (code d) (bytes t) (sym e))
bytes_injective (String.◌∷◌ c s) String.[] e = absurd (utf8-ne-nil (code c) (bytes s) e)
bytes_injective (String.◌∷◌ c s) (String.◌∷◌ d t) e =
    let both = utf8-cancel (code c) (code d) (bytes s) (bytes t) e in
    cons_path c d s t (Char-path c d both.0) (bytes_injective s t both.1)
