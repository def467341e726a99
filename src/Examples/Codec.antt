-- ===== src/Examples/Codec.antt =====
-- Integers as scores, and a codec for page tokens that writes each number as a sign and a size.
use cascade_feed_ranking_eng.Common.{
  ℕ, zero, suc, nonpos, ℤ, pos, negsuc, ◌+ℤ◌, ◌*ℤ◌, ◌-ℤ◌, lt_ℤ, eq_ℤ, true, false, Option, none,
  some, [], ◌∷◌, Bytes, ◌≡◌, ◌↔◌, refl, arith, is_empty,
}
use cascade_feed_ranking_eng.Feed.Float.{Float64, IsFloat64}
use cascade_feed_ranking_eng.Feed.Cursor.{Cursor, Codec, eof, malformed, valid, encode, decode}
use cascade_feed_ranking_eng.Feed.Cursor.RoundTrip.{
  IsCodec, cursor_of, decode-encode, IsTokenOf, IsSound, decode-some_iff,
}

-- Whole numbers in the place of float64.
abbrev pub whole : Float64
whole = record {
  F = ℤ;
  lt = lt_ℤ;
  eq = eq_ℤ;
  is_nan = λ _. false;
  is_inf = λ _. false;
  of_int = λ x. x;
  neg = λ x. pos 0 -ℤ x;
  add = λ x y. x +ℤ y;
  mul = λ x y. x *ℤ y;
  div = λ x y. x;
  exp = λ x. pos 1;
  log1p = λ x. x;
}

pub whole-IsFloat64 : IsFloat64 whole
unfolding lt_ℤ eq_ℤ
whole-IsFloat64 = record {
  asymm = λ a b h. ground arith;
  trans = λ a b c h k. ground arith;
  eq_of_tie = λ a b na nb h k. ground arith;
  lt_not_eq = λ a b h. ground arith;
  eq_sym = λ a b h. ground arith;
  eq_trans = λ a b c h k. ground arith;
  lt-eq = λ a b c h k. ground arith;
  eq-lt = λ a b c h k. ground arith;
}

abbrev pub sign : ℤ → ℕ
sign (pos n) = 0
sign (negsuc n) = 1

abbrev pub size : ℤ → ℕ
size (pos n) = n
size (negsuc n) = n

abbrev pub number : ℕ → ℕ → ℤ
number zero n = pos n
number (suc _) n = negsuc n

pub number_back : (x : ℤ) → number (sign x) (size x) ≡ x
number_back (pos n) = refl
number_back (negsuc n) = refl

abbrev read : Bytes → Option (Cursor ℤ × Bytes)
read (a ∷ b ∷ c ∷ d ∷ e ∷ f ∷ g ∷ h ∷ rest) = some (
  record {
    score = number a b;
    created_at_unix_ms = number c d;
    post_id = number e f;
    version = number g h;
  },
  rest,
)
read _ = none

abbrev write : Cursor ℤ → Bytes
write c =
    sign c.score
    ∷ size c.score
    ∷ sign c.created_at_unix_ms
    ∷ size c.created_at_unix_ms
    ∷ sign c.post_id
    ∷ size c.post_id
    ∷ sign c.version
    ∷ size c.version
    ∷ []

abbrev pub plain : Codec ℤ
plain = record {
  encode_to_string = λ raw. raw;
  decode_string = λ s. some s;
  marshal = λ c. some (write c);
  decode_value = read;
  decode_extra = λ rest. elim (is_empty rest) [ true ↦ eof | false ↦ malformed ];
}

read-write : (c : Cursor ℤ) → read (write c) ≡ some (c, [])
read-write c =
    rw
      (
        number_back c.score,
        number_back c.created_at_unix_ms,
        number_back c.post_id,
        number_back c.version,
      )
      refl

pub plain-IsCodec : IsCodec whole plain
plain-IsCodec = record {
  string_back = λ raw. refl;
  marshal_back = λ c n i. (write c, refl, read-write c, omega arith, omega arith);
  extra_end = refl;
}

-- Post 7 with the score 5.
decode-encode_example :
    (token : Bytes) × (encode whole plain (pos 5) (pos 1000) (pos 7) ≡ some token)
    × (is_empty token ≡ false)
    × (decode whole plain token ≡ some (cursor_of whole plain (pos 5) (pos 1000) (pos 7)))
unfolding valid nonpos
decode-encode_example = decode-encode whole plain (pos 5) (pos 1000) (pos 7) plain-IsCodec refl

-- The token of post 7 with the score 5.
abbrev token : Bytes
token = 0 ∷ 5 ∷ 0 ∷ 1000 ∷ 0 ∷ 7 ∷ 0 ∷ 1 ∷ []

decode-some_iff_example :
    (decode whole plain token ≡ some (cursor_of whole plain (pos 5) (pos 1000) (pos 7))) ↔ (
      IsTokenOf whole plain token (cursor_of whole plain (pos 5) (pos 1000) (pos 7))
      × IsSound whole plain (cursor_of whole plain (pos 5) (pos 1000) (pos 7)))
decode-some_iff_example =
    decode-some_iff whole plain token (cursor_of whole plain (pos 5) (pos 1000) (pos 7))
