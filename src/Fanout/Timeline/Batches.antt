-- ===== src/Fanout/Timeline/Batches.antt =====
-- The batches of redis.go's FanoutPost and WarmUsers.
use cascade_feed_ranking_eng.Common.{
  ℕ, zero, suc, ◌+◌, ◌-◌, ◌≤◌, ◌<◌, min, ltb, ltb→lt, ltb→ge, ℤ, pos, negsuc, nonpos, pos_part,
  true, false, List, [], ◌∷◌, ◌++◌, length, length-take, length-drop, take, drop, drop-drop,
  drop_all, take-append-drop, All, Error, Result, ok, err, Exec, each, continue, if◌then◌else◌,
  Bool-cases, inl, inr, ◌≡◌, refl, sym, ap, ◌∙◌, arith,
}
use cascade_feed_ranking_eng.Fanout.{Post}
use cascade_feed_ranking_eng.Fanout.Timeline.{
  Redis, UserWarmState, each_batch, fanout_batch, fanout_post, warm_batch, warm_users,
}

unfoldable pub concat : {A : Type 0} → List (List A) → List A
concat [] = []
concat (xs ∷ rest) = xs ++ concat rest

-- A list cut into pieces of at most `n`, none of them empty.
pub record IsCut {A : Type 0} (n : ℕ) (xs : List A) (batches : List (List A)) : Type 0 where
  pub whole : concat batches ≡ xs
  pub bounded : All (λ b. (0 < length b) × (length b ≤ n)) batches

ltb_lt : (a b : ℕ) → a < b → ltb a b ≡ true
ltb_lt a b h = ground arith

ltb_ge : (a b : ℕ) → b ≤ a → ltb a b ≡ false
ltb_ge a b h = ground arith

drop-min : {A : Type 0} (m : ℕ) (xs : List A) → drop (min m (length xs)) xs ≡ drop m xs
drop-min m xs = elim (Bool-cases (ltb m (length xs))) [
  | inl less ↦
      let same : min m (length xs) ≡ m = omega (arith, ltb→lt m (length xs) less) in rw same refl
  | inr more ↦
      let le = ltb→ge m (length xs) more in
      let same : min m (length xs) ≡ length xs = omega (arith, le) in
      rw same (drop_all (length xs) xs (omega arith) ∙ sym (drop_all m xs le))
]

continue_same :
    {W : Type 0} {g k : Exec W Error (Unit {0})} (r : Result Error (Unit {0})) (w : W)
    → ((w₁ : W) → g w₁ ≡ k w₁)
    → continue r (λ _. g) w ≡ continue r (λ _. k) w
continue_same (ok a) w h = h w
continue_same (err e) w h = refl

module _ {W A : Type 0} (f : List A → Exec W Error (Unit {0})) (xs : List A) (n : ℕ)
    (positive : 0 < n) where
  -- What there is to do from `start` on, in batches, is what the loop does.
  Loops : ℕ → ℕ → Type 0
  Loops fuel start =
      (batches : List (List A)) × IsCut n (drop start xs) batches
      × ((w : W) → each_batch f fuel start xs n w ≡ each f batches w)

  loop_done : (fuel start : ℕ) → length xs ≤ start → Loops fuel start
  unfolding Loops each_batch each concat
  loop_done zero start h = (
    [],
    record { whole = sym (drop_all start xs h); bounded = tt },
    λ w. let stop = ltb_ge start (length xs) h in rw stop refl,
  )
  loop_done (suc fuel) start h = (
    [],
    record { whole = sym (drop_all start xs h); bounded = tt },
    λ w. let stop = ltb_ge start (length xs) h in rw stop refl,
  )

  loop_more : (fuel start : ℕ) → start < length xs → Loops fuel (start + n) → Loops (suc fuel) start
  unfolding Loops each_batch each concat
  loop_more fuel start h (batches, cut, same) =
      let end = min (start + n) (length xs) in
      let batch = take (end - start) (drop start xs) in
      let left : concat batches ≡ drop (end - start) (drop start xs) =
        cut.whole
        ∙ sym (drop-min (start + n) xs)
        ∙ sym (drop-drop start (end - start) end xs (omega arith)) in
      let size : length batch ≡ end - start =
        length-take (end - start) (drop start xs) ∙ omega (arith, length-drop start xs) in
      (
        batch ∷ batches,
        record {
          whole = ap (λ ys. batch ++ ys) left ∙ take-append-drop (end - start) (drop start xs);
          bounded = ((omega (arith, size), omega (arith, size)), cut.bounded);
        },
        λ w. rw (ltb_lt start (length xs) h) (continue_same (f batch w).0 (f batch w).1 same),
      )

  each_batch_lem : (fuel start : ℕ) → length xs ≤ start + fuel → Loops fuel start
  each_batch_lem zero start h = loop_done zero start (omega arith)
  each_batch_lem (suc fuel) start h = elim (Bool-cases (ltb start (length xs))) [
    | inl more ↦
        loop_more fuel start (ltb→lt _ _ more) (each_batch_lem fuel (start + n) (omega arith))
    | inr done ↦ loop_done (suc fuel) start (ltb→ge _ _ done)
  ]

pub each_same :
    {W A : Type 0} (f g : A → Exec W Error (Unit {0}))
    → ((x : A) (w : W) → f x w ≡ g x w)
    → (l : List A) (w : W) → each f l w ≡ each g l w
unfolding each
each_same f g h [] w = refl
each_same f g h (x ∷ l) w =
    rw (h x w) (continue_same (g x w).0 (g x w).1 (λ w₁. each_same f g h l w₁))

-- The batches of FanoutPost with a positive batch size.
pub fanout_post-IsCut :
    {W : Type 0} (r : Redis W) (follower_ids : List ℤ) (post : Post) (max_len : ℤ) (batch_size : ℕ)
    → 0 < batch_size
    → (batches : List (List ℤ)) × IsCut batch_size follower_ids batches
      × ((w : W)
          → fanout_post r follower_ids post max_len batch_size w
            ≡ each (fanout_batch r post max_len) batches w)
unfolding fanout_post Loops
fanout_post-IsCut r follower_ids post max_len batch_size h =
    each_batch_lem (fanout_batch r post max_len) follower_ids batch_size h (length follower_ids) 0
      (omega arith)

warm_batch_size_positive : (n : ℤ) → 0 < (if nonpos n then 100 else pos_part n)
unfolding nonpos
warm_batch_size_positive (pos n) = ground arith
warm_batch_size_positive (negsuc n) = omega arith

-- The batches of WarmUsers.
pub warm_users-IsCut :
    {W : Type 0} (r : Redis W) (states : List UserWarmState) (max_len batch_size : ℤ)
    → (batches : List (List UserWarmState)) × IsCut
        (if nonpos batch_size then 100 else pos_part batch_size)
        states
        batches
      × ((w : W) → warm_users r states max_len batch_size w ≡ each (warm_batch r max_len) batches w)
unfolding warm_users Loops
warm_users-IsCut r states max_len batch_size =
    each_batch_lem (warm_batch r max_len) states
      (if nonpos batch_size then 100 else pos_part batch_size) (warm_batch_size_positive batch_size)
      (length states) 0 (omega arith)
