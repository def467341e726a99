-- ===== src/Feed/Float.antt =====
-- float64 as the feed ranker uses it: its tests, and the arithmetic and `math` functions as
-- operations that the proofs know nothing about.
use cascade_feed_ranking_eng.Common.{ℤ, Bool, true, false, ◌≡◌}

pub record Float64 : Type 1 where
  pub F : Type 0
  pub lt : F → F → Bool
  pub eq : F → F → Bool
  pub is_nan : F → Bool
  pub is_inf : F → Bool
  pub of_int : ℤ → F
  pub neg : F → F
  pub add : F → F → F
  pub mul : F → F → F
  pub div : F → F → F
  pub exp : F → F
  pub log1p : F → F

-- IEEE 754 comparison: on values other than NaN, `<` is a strict order, and `==` holds exactly
-- between values that it does not separate (`-0` and `+0` among them).
pub record IsFloat64 (fl : Float64) : Type 0 where
  pub asymm : (a b : fl.F) → fl.lt a b ≡ true → fl.lt b a ≡ false
  pub trans : (a b c : fl.F) → fl.lt a b ≡ true → fl.lt b c ≡ true → fl.lt a c ≡ true
  pub eq_of_tie :
      (a b : fl.F)
      → fl.is_nan a ≡ false
      → fl.is_nan b ≡ false
      → fl.lt a b ≡ false
      → fl.lt b a ≡ false
      → fl.eq a b ≡ true
  pub lt_not_eq : (a b : fl.F) → fl.lt a b ≡ true → fl.eq a b ≡ false
  pub eq_sym : (a b : fl.F) → fl.eq a b ≡ true → fl.eq b a ≡ true
  pub eq_trans : (a b c : fl.F) → fl.eq a b ≡ true → fl.eq b c ≡ true → fl.eq a c ≡ true
  pub lt-eq : (a b c : fl.F) → fl.lt a b ≡ true → fl.eq b c ≡ true → fl.lt a c ≡ true
  pub eq-lt : (a b c : fl.F) → fl.eq a b ≡ true → fl.lt b c ≡ true → fl.lt a c ≡ true
