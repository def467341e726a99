-- ===== src/Common/Env.antt =====
-- What the three config packages share: `strings.Split` at a byte, `strings.TrimSpace`, getEnv,
-- splitCSV and boolEnv. The environment is the function `os.LookupEnv`.
pub mod Trim
pub mod Csv
use Prim.Native.Nat.{ℕ, zero, suc, ◌+◌}
use mathlib.Core.Bool.{Bool, true, false, ◌&&◌, ◌||◌}
use mathlib.Core.Option.{Option, none, some}
use mathlib.Core.List.{List, [], ◌∷◌, ◌++◌, map}
use cascade_feed_ranking_eng.Common.Tests.{leb, ◌==◌, if◌then◌else◌}
use cascade_feed_ranking_eng.Common.Lists.{Bytes, codes, length, is_empty, eq_bytes}

abbrev pub LookupEnv : Type 0
LookupEnv = Bytes → Option Bytes

-- `c` in front of the first piece.
unfoldable pub in_front : ℕ → List Bytes → List Bytes
in_front c [] = (c ∷ []) ∷ []
in_front c (piece ∷ pieces) = (c ∷ piece) ∷ pieces

-- `strings.Split(s, ",")`
unfoldable pub split_at : ℕ → Bytes → List Bytes
split_at sep [] = [] ∷ []
split_at sep (c ∷ s) = let rest = split_at sep s in if c == sep then [] ∷ rest else in_front c rest

-- The UTF-8 texts of the characters that `unicode.IsSpace` accepts.
abbrev pub spaces : List Bytes
spaces =
    (9 ∷ [])
    ∷ (10 ∷ [])
    ∷ (11 ∷ [])
    ∷ (12 ∷ [])
    ∷ (13 ∷ [])
    ∷ (32 ∷ [])
    ∷ (194 ∷ 133 ∷ [])
    ∷ (194 ∷ 160 ∷ [])
    ∷ (225 ∷ 154 ∷ 128 ∷ [])
    ∷ (226 ∷ 128 ∷ 128 ∷ [])
    ∷ (226 ∷ 128 ∷ 129 ∷ [])
    ∷ (226 ∷ 128 ∷ 130 ∷ [])
    ∷ (226 ∷ 128 ∷ 131 ∷ [])
    ∷ (226 ∷ 128 ∷ 132 ∷ [])
    ∷ (226 ∷ 128 ∷ 133 ∷ [])
    ∷ (226 ∷ 128 ∷ 134 ∷ [])
    ∷ (226 ∷ 128 ∷ 135 ∷ [])
    ∷ (226 ∷ 128 ∷ 136 ∷ [])
    ∷ (226 ∷ 128 ∷ 137 ∷ [])
    ∷ (226 ∷ 128 ∷ 138 ∷ [])
    ∷ (226 ∷ 128 ∷ 168 ∷ [])
    ∷ (226 ∷ 128 ∷ 169 ∷ [])
    ∷ (226 ∷ 128 ∷ 175 ∷ [])
    ∷ (226 ∷ 129 ∷ 159 ∷ [])
    ∷ (227 ∷ 128 ∷ 128 ∷ [])
    ∷ []

unfoldable pub reverse_onto : Bytes → Bytes → Bytes
reverse_onto [] out = out
reverse_onto (c ∷ s) out = reverse_onto s (c ∷ out)

unfoldable pub reverse : Bytes → Bytes
unfolding reverse_onto
reverse s = reverse_onto s []

-- The text behind a prefix.
unfoldable pub strip : Bytes → Bytes → Option Bytes
strip [] s = some s
strip (c ∷ prefix) [] = none
strip (c ∷ prefix) (d ∷ s) = let rest = strip prefix s in if c == d then rest else none

unfoldable pub strip_any : List Bytes → Bytes → Option Bytes
strip_any [] s = none
strip_any (prefix ∷ prefixes) s =
    let others = strip_any prefixes s in elim (strip prefix s) [ none ↦ others | some t ↦ some t ]

-- Each round takes a byte or more, so the length is enough fuel.
unfoldable pub trim_rounds : List Bytes → ℕ → Bytes → Bytes
trim_rounds prefixes zero s = s
trim_rounds prefixes (suc fuel) s = elim (strip_any prefixes s) [
  | none ↦ s
  | some t ↦ trim_rounds prefixes fuel t
]

unfoldable pub trim_left : List Bytes → Bytes → Bytes
unfolding trim_rounds strip_any strip
trim_left prefixes s = trim_rounds prefixes (length s) s

-- `strings.TrimSpace`
unfoldable pub trim_space : Bytes → Bytes
unfolding trim_left reverse
trim_space s = reverse (trim_left (map reverse spaces) (reverse (trim_left spaces s)))

-- `strings.ToLower` on ASCII. Beyond it only the lower cases i and k of İ and of the Kelvin sign are
-- ASCII, and boolEnv compares with no word that has them.
abbrev pub lower_byte : ℕ → ℕ
lower_byte c = if leb 65 c && leb c 90 then c + 32 else c

-- `splitCSV`: the loop over the pieces.
unfoldable pub keep_names : List Bytes → List Bytes
keep_names [] = []
keep_names (part ∷ parts) =
    let rest = keep_names parts in
    let name = trim_space part in if is_empty name then rest else name ∷ rest

unfoldable pub split_csv : Bytes → List Bytes
unfolding keep_names split_at
split_csv value = keep_names (split_at b',' value)

unfoldable pub get_env : LookupEnv → Bytes → Bytes → Bytes
get_env env key fallback = elim (env key) [
  | none ↦ fallback
  | some v ↦ if is_empty v then fallback else v
]

-- `switch v` of boolEnv.
unfoldable pub bool_of : Bytes → Bool → Bool
bool_of v fallback =
    if eq_bytes v (codes "1")
      || eq_bytes v (codes "true")
      || eq_bytes v (codes "yes")
      || eq_bytes v (codes "on")
    then true
    else if eq_bytes v (codes "0")
        || eq_bytes v (codes "false")
        || eq_bytes v (codes "no")
        || eq_bytes v (codes "off")
    then false
    else fallback

unfoldable pub bool_env : LookupEnv → Bytes → Bool → Bool
unfolding bool_of
bool_env env key fallback = bool_of (map lower_byte (trim_space (get_env env key []))) fallback
