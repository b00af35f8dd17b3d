-- ===== src/Nif/Chain/Transcript.antt =====
-- `Transcript` of ex_argus/native/argus_nif/src/chain.rs and the `Canonical` implementations of plain
-- values. A writer takes what is written after it: `w v rest` is the bytes of `v`, then `rest`. The two
-- sinks of the source, a vector and a hasher, take bytes in pieces; the pieces are joined here.
use Prim.Native.Nat.{◌/◌}
use einsof.Prelude.{
  ℕ, zero, suc, ◌%◌, Bool, String, List, [], ◌∷◌, ◌++◌, Option, none, some, if◌then◌else◌, length,
  leb, eqb,
}
use einsof.Nif.Text.{bytes, len}

-- `to_be_bytes` of a number of `k` bytes.
unfoldable pub to_be_bytes : ℕ → ℕ → List ℕ → List ℕ
to_be_bytes zero v rest = rest
to_be_bytes (suc k) v rest = to_be_bytes k (v / 256) ((v % 256) ∷ rest)

unfoldable pub u8 : ℕ → List ℕ → List ℕ
u8 v rest = v ∷ rest

unfoldable pub u32 : ℕ → List ℕ → List ℕ
u32 v rest = to_be_bytes 4 v rest

unfoldable pub u64 : ℕ → List ℕ → List ℕ
u64 v rest = to_be_bytes 8 v rest

-- The cast `as u32` of a length.
unfoldable pub string : String → List ℕ → List ℕ
string s rest = u32 (len s % 4294967296) (bytes s ++ rest)

unfoldable pub bool : Bool → List ℕ → List ℕ
bool b rest = u8 (if b then 1 else 0) rest

module _ {A : Type 0} where
  -- `CanonicalTag`: a value with a tag is its tag.
  unfoldable pub tagged : (A → ℕ) → A → List ℕ → List ℕ
  tagged canonical_tag v rest = u8 (canonical_tag v) rest

  unfoldable pub option : (A → List ℕ → List ℕ) → Option A → List ℕ → List ℕ
  option w none rest = u8 0 rest
  option w (some v) rest = u8 1 (w v rest)

  unfoldable pub each : (A → List ℕ → List ℕ) → List A → List ℕ → List ℕ
  each w [] rest = rest
  each w (x ∷ xs) rest = w x (each w xs rest)

  unfoldable pub list : (A → List ℕ → List ℕ) → List A → List ℕ → List ℕ
  list w xs rest = u32 (length xs % 4294967296) (each w xs rest)

  -- The library's sort by a key, as an insertion sort. It is unstable there, which shows only where
  -- different members have one key.
  unfoldable pub insert_by : (A → ℕ) → A → List A → List A
  insert_by key x [] = x ∷ []
  insert_by key x (y ∷ ys) = if leb (key x) (key y) then x ∷ y ∷ ys else y ∷ insert_by key x ys

  unfoldable pub sort_by : (A → ℕ) → List A → List A
  sort_by key [] = []
  sort_by key (x ∷ xs) = insert_by key x (sort_by key xs)

  -- The library's `dedup_by_key`: of neighbours with one key, the first stays. `last` is the key before.
  unfoldable pub dedup_after : (A → ℕ) → ℕ → List A → List A
  dedup_after key last [] = []
  dedup_after key last (y ∷ ys) =
      let rest = dedup_after key (key y) ys in if eqb (key y) last then rest else y ∷ rest

  unfoldable pub dedup_by_key : (A → ℕ) → List A → List A
  dedup_by_key key [] = []
  dedup_by_key key (x ∷ xs) = x ∷ dedup_after key (key x) xs

  unfoldable pub normalized : (A → ℕ) → List A → List A
  normalized canonical_tag values = dedup_by_key canonical_tag (sort_by canonical_tag values)

  unfoldable pub canonical_set : (A → ℕ) → List A → List ℕ → List ℕ
  canonical_set canonical_tag values rest =
      list (tagged canonical_tag) (normalized canonical_tag values) rest
