-- ===== src/Json.antt =====
-- encoding/json for the structs of the events: their texts and int64 numbers. The text of an object
-- is not modelled: `Unmarshal` gives the members in the order in which they stand.
use cascade_feed_ranking_eng.Common.{
  ℕ, ◌+◌, ltb, leb, ℤ, pos, Bool, true, false, ◌&&◌, Option, none, some, List, [], ◌∷◌, map, Bytes,
  eq_bytes, if◌then◌else◌,
}

infixl 5 ◌>>=◌
abbrev pub ◌>>=◌ : {A B : Type 0} → Option A → (A → Option B) → Option B
none >>= f = none
some a >>= f = f a

-- A number is one that an int64 holds; `other_value` is every other number, a Boolean, an array or
-- an object.
pub data JsonValue : Type 0 where
  text : Bytes → JsonValue
  number : ℤ → JsonValue
  null_value : JsonValue
  other_value : JsonValue

abbrev pub Object : Type 0
Object = List (Bytes × JsonValue)

-- Names are compared without the case of the letters, which are ASCII here.
unfoldable pub lower : ℕ → ℕ
lower c = if leb 65 c && ltb c 91 then c + 32 else c

unfoldable pub same_name : Bytes → Bytes → Bool
same_name a b = eq_bytes (map lower a) (map lower b)

-- What a string or an int64 is after a value is decoded into it: null leaves it, and a value of
-- another kind is an error.
unfoldable pub set_text : JsonValue → Bytes → Option Bytes
set_text (text s) old = some s
set_text (number n) old = none
set_text null_value old = some old
set_text other_value old = none

unfoldable pub set_number : JsonValue → ℤ → Option ℤ
set_number (text s) old = none
set_number (number n) old = some n
set_number null_value old = some old
set_number other_value old = none

-- A field of a struct, by the name in its tag: each member of that name is decoded into it in turn,
-- so that the last one counts, and other members are ignored.
module _ {A : Type 0} (set : JsonValue → A → Option A) (name : Bytes) where
  unfoldable pub field : Object → A → Option A
  field [] old = some old
  field ((key, value) ∷ members) old = elim (same_name key name) [
    | true ↦ set value old >>= λ new. field members new
    | false ↦ field members old
  ]

unfoldable pub text_field : Bytes → Object → Option Bytes
text_field name members = field set_text name members []

unfoldable pub number_field : Bytes → Object → Option ℤ
number_field name members = field set_number name members (pos 0)

unfoldable pub is_ascii_text : Bytes → Bool
is_ascii_text [] = true
is_ascii_text (c ∷ s) = ltb c 128 && is_ascii_text s

unfoldable pub is_ascii_value : JsonValue → Bool
is_ascii_value (text s) = is_ascii_text s
is_ascii_value (number n) = true
is_ascii_value null_value = true
is_ascii_value other_value = true

-- All names and texts of an object are ASCII.
unfoldable pub is_ascii : Object → Bool
is_ascii [] = true
is_ascii ((key, value) ∷ members) = is_ascii_text key && is_ascii_value value && is_ascii members
