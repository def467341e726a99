-- ===== src/Common/Monad.antt =====
-- Go functions that return `(value, error)` and act on the world outside: Redis, PostgreSQL,
-- Kafka and the metrics. What was done before an error stays done.
use mathlib.Core.Logic.{◌⊎◌, inl, inr}
use mathlib.Core.Path.{◌≡◌, refl}
use mathlib.Core.Bool.{Bool, true, false}
use mathlib.Core.List.{List, [], ◌∷◌}
use cascade_feed_ranking_eng.Common.Lists.{Bytes}

-- What the code tests of an error: the sentinels that `errors.Is` looks for, a PostgreSQL error
-- code that `errors.As` finds, and everything else. Wrapping by `%w` keeps the kind.
pub data Error : Type 0 where
  canceled : Error
  deadline_exceeded : Error
  permanent : Error
  not_found : Error
  forbidden : Error
  pg_error : Bytes → Error
  other : Error

pub data Result (E A : Type 0) : Type 0 where
  ok : A → Result E A
  err : E → Result E A

abbrev pub Exec : Type 0 → Type 0 → Type 0 → Type 0
Exec W E A = W → Result E A × W

module _ {W E : Type 0} where
  abbrev pub pure : {A : Type 0} → A → Exec W E A
  pure a w = (ok a, w)

  abbrev pub raise : {A : Type 0} → E → Exec W E A
  raise e w = (err e, w)

  abbrev pub lift : {A : Type 0} → Result E A → Exec W E A
  lift r w = (r, w)

  abbrev pub continue : {A B : Type 0} → Result E A → (A → Exec W E B) → Exec W E B
  continue (ok a) f w = f a w
  continue (err e) f w = (err e, w)

  infixl 5 ◌>>=◌ ◌>>◌
  abbrev pub ◌>>=◌ : {A B : Type 0} → Exec W E A → (A → Exec W E B) → Exec W E B
  ◌>>=◌ m f w = continue (m w).0 f (m w).1

  abbrev pub ◌>>◌ : {A B : Type 0} → Exec W E A → Exec W E B → Exec W E B
  m >> k = m >>= λ _. k

  -- `if test { return nil, e }`
  abbrev pub reject : Bool → E → Exec W E (Unit {0})
  reject true e w = (err e, w)
  reject false e w = (ok tt, w)

  -- `for _, x := range xs { if err := f(x); err != nil { return err } }`
  unfoldable pub each : {A : Type 0} → (A → Exec W E (Unit {0})) → List A → Exec W E (Unit {0})
  each f [] w = (ok tt, w)
  each f (x ∷ xs) w = continue (f x w).0 (λ _. each f xs) (f x w).1

abbrev pub map_error : {E F A : Type 0} → (E → F) → Result E A → Result F A
map_error f (ok a) = ok a
map_error f (err e) = err (f e)

-- `if err != nil { return nil, f(err) }`
abbrev pub on_error : {W E F A : Type 0} → (E → F) → Exec W E A → Exec W F A
on_error f m w = (map_error f (m w).0, (m w).1)

-- Inversion of a successful step.
pub continue-ok :
    {W E A B : Type 0} (m : Result E A × W) (f : A → Exec W E B) (b : B)
    → (continue m.0 f m.1).0 ≡ ok b
    → (a : A) × (m.0 ≡ ok a) × ((f a m.1).0 ≡ ok b)
continue-ok (ok a, w) f b h = (a, refl, h)
continue-ok (err e, w) f b h = cc

pub Result-cases :
    {E A : Type 0} (r : Result E A) → ((a : A) × (r ≡ ok a)) ⊎ ((e : E) × (r ≡ err e))
Result-cases (ok a) = inl (a, refl)
Result-cases (err e) = inr (e, refl)
