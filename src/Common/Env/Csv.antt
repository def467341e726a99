-- ===== src/Common/Env/Csv.antt =====
-- splitCSV: the names in a comma-separated list.
use Prim.Native.Nat.{ℕ}
use mathlib.Core.Path.{◌≡◌, refl, sym, ap, ◌∙◌}
use mathlib.Core.Logic.{inl, inr}
use mathlib.Core.Bool.{Bool, false, ◌||◌}
use mathlib.Core.List.{List, [], ◌∷◌, ◌++◌}
use native.Mathlib.Omega.{arith}
use cascade_feed_ranking_eng.Common.Tests.{◌==◌, Bool-cases}
use cascade_feed_ranking_eng.Common.Lists.{Bytes, is_empty, All}
use cascade_feed_ranking_eng.Common.Env.{in_front, split_at, trim_space, keep_names, split_csv}
use cascade_feed_ranking_eng.Common.Env.Trim.{trim_space_lem}

abbrev pub has_byte : ℕ → Bytes → Bool
has_byte c [] = false
has_byte c (d ∷ s) = (d == c) || has_byte c s

-- `strings.Join(names, ",")`
abbrev pub join_csv : List Bytes → Bytes
join_csv [] = []
join_csv (name ∷ []) = name
join_csv (name ∷ next ∷ names) = name ++ b',' ∷ join_csv (next ∷ names)

-- A name is not empty, has no comma and no space around it.
abbrev pub IsName : Bytes → Type 0
IsName s = (is_empty s ≡ false) × (has_byte b',' s ≡ false) × (trim_space s ≡ s)

has_byte-append : (c : ℕ) (s t : Bytes) → has_byte c (s ++ t) ≡ (has_byte c s || has_byte c t)
has_byte-append c [] t = refl
has_byte-append c (d ∷ s) t = ground (arith, has_byte-append c s t)

split_at_last : (sep : ℕ) (s : Bytes) → has_byte sep s ≡ false → split_at sep s ≡ s ∷ []
unfolding split_at in_front
split_at_last sep [] h = refl
split_at_last sep (c ∷ s) h = ground (arith, split_at_last sep s)

split_at_more :
    (sep : ℕ) (s rest : Bytes)
    → has_byte sep s ≡ false
    → split_at sep (s ++ sep ∷ rest) ≡ s ∷ split_at sep rest
unfolding split_at in_front
split_at_more sep [] rest h = ground arith
split_at_more sep (c ∷ s) rest h = ground (arith, split_at_more sep s rest)

keep_name :
    (name : Bytes) (parts : List Bytes)
    → IsName name
    → keep_names (name ∷ parts) ≡ name ∷ keep_names parts
unfolding keep_names
keep_name name parts (filled, _, trimmed) = rw trimmed (rw filled refl)

-- splitCSV reads the names of a list that was joined by commas back.
pub split_csv-join : (names : List Bytes) → All IsName names → split_csv (join_csv names) ≡ names
unfolding split_csv split_at keep_names trim_space
split_csv-join [] h = refl
split_csv-join (name ∷ []) h = ap keep_names (split_at_last b',' name h.0.1) ∙ keep_name name [] h.0
split_csv-join (name ∷ next ∷ names) h =
    ap keep_names (split_at_more b',' name (join_csv (next ∷ names)) h.0.1)
    ∙ keep_name name (split_at b',' (join_csv (next ∷ names))) h.0
    ∙ ap (λ l. name ∷ l) (split_csv-join (next ∷ names) h.1)

trim_space-has_byte : (c : ℕ) (s : Bytes) → has_byte c s ≡ false → has_byte c (trim_space s) ≡ false
trim_space-has_byte c s h =
    let (same, (x, y, cut)) = trim_space_lem s in
    let whole = ap (has_byte c) (sym cut) ∙ h in
    ground (arith, has_byte-append c x (trim_space s ++ y), has_byte-append c (trim_space s) y)

in_front-pieces :
    (sep c : ℕ) (parts : List Bytes)
    → (c == sep) ≡ false
    → All (λ p. has_byte sep p ≡ false) parts
    → All (λ p. has_byte sep p ≡ false) (in_front c parts)
unfolding in_front
in_front-pieces sep c [] h a = (ground arith, tt)
in_front-pieces sep c (p ∷ parts) h a = (ground arith, a.1)

split_at-pieces : (sep : ℕ) (s : Bytes) → All (λ p. has_byte sep p ≡ false) (split_at sep s)
unfolding split_at
split_at-pieces sep [] = (refl, tt)
split_at-pieces sep (c ∷ s) = elim (Bool-cases (c == sep)) [
  | inl here ↦ rw here (refl, split_at-pieces sep s)
  | inr inside ↦ rw inside (in_front-pieces sep c (split_at sep s) inside (split_at-pieces sep s))
]

keep_names-IsName :
    (parts : List Bytes) → All (λ p. has_byte b',' p ≡ false) parts → All IsName (keep_names parts)
unfolding keep_names
keep_names-IsName [] a = tt
keep_names-IsName (part ∷ parts) a = elim (Bool-cases (is_empty (trim_space part))) [
  | inl blank ↦ rw blank (keep_names-IsName parts a.1)
  | inr filled ↦ rw filled (
    (filled, trim_space-has_byte b',' part a.0, (trim_space_lem part).0),
    keep_names-IsName parts a.1,
  )
]

-- Whatever the variable holds, splitCSV gives names that are not empty, have no comma and no space
-- around them, and that it reads back from the list that joins them.
pub split_csv_lem :
    (value : Bytes)
    → All IsName (split_csv value) × (split_csv (join_csv (split_csv value)) ≡ split_csv value)
unfolding split_csv
split_csv_lem value =
    let names = keep_names-IsName (split_at b',' value) (split_at-pieces b',' value) in
    (names, split_csv-join (split_csv value) names)
