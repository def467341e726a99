-- ===== src/Feed/Ranking/Order.antt =====
-- The ranker of heuristic.go: its order is a strict weak order on scores that are numbers.
use mathlib.Core.List.{Perm}
use mathlib.Core.List.Perm
use cascade_feed_ranking_eng.Common.{
  true, false, ◌-◌, ◌^◌, ℤ, pos, lt_ℤ, ◌-ℤ◌, ◌+ℤ◌, ◌*ℤ◌, wrap64, negsuc, lt_ℤ_trans, if◌then◌else◌,
  lookup, none, some, Option-cases, ◌⊎◌, ◌∙◌, List, [], ◌∷◌, map, Map, All, ◌≡◌, refl, subst, ap,
  inl, inr, arith, Bool-cases,
}
use cascade_feed_ranking_eng.Common.Sort.{
  sort_slice, IsOrdered, SortedBy-IsOrdered, IsNotOlder, IsStrictWeak, sort_slice-SortedBy,
  sort_slice-perm, All-sort_slice,
}
use cascade_feed_ranking_eng.Feed.{Time, Post, Signal, RankedPost}
use cascade_feed_ranking_eng.Feed.Float.{Float64, IsFloat64}
use cascade_feed_ranking_eng.Feed.Select.{newer}
use cascade_feed_ranking_eng.Feed.Select.Newest.{newer-IsStrictWeak, newer-IsBefore}
use cascade_feed_ranking_eng.Feed.Ranking.{
  Weights, age_of, time_sub, signal_of, score_post, score_posts, ranks_before, rank,
}

sub_negative : (a b : ℤ) → lt_ℤ (a -ℤ b) (pos 0) ≡ lt_ℤ a b
unfolding lt_ℤ ◌-ℤ◌
sub_negative a b = ground arith

-- A difference that is kept between two bounds, and is 0 where it is negative.
bounded_age :
    (high low d : ℤ)
    → lt_ℤ high (pos 0) ≡ false
    → lt_ℤ low (pos 0) ≡ true
    → let clamped = if lt_ℤ high d then high else if lt_ℤ d low then low else d in
      let age = if lt_ℤ clamped (pos 0) then pos 0 else clamped in
      ((lt_ℤ d (pos 0) ≡ true) × (age ≡ pos 0))
      ⊎ ((lt_ℤ d (pos 0) ≡ false) × (lt_ℤ high d ≡ false) × (age ≡ d))
      ⊎ ((lt_ℤ high d ≡ true) × (age ≡ high))
bounded_age high low d h l = elim (Bool-cases (lt_ℤ high d)) [
  | inl above ↦ inr (inr (above, rw (above, h) refl))
  | inr within ↦ elim (Bool-cases (lt_ℤ d low)) [
    | inl below ↦ inl (lt_ℤ_trans d low (pos 0) below l, rw (within, below, l) refl)
    | inr above_low ↦ elim (Bool-cases (lt_ℤ d (pos 0))) [
      | inl negative ↦ inl (negative, rw (within, above_low, negative) refl)
      | inr natural ↦ inr (inl (natural, within, rw (within, above_low, natural) refl))
    ]
  ]
]

module _ (fl : Float64) (f : IsFloat64 fl) where
  open fl use {F, lt, eq, is_nan}

  -- Two numbers are in one of three relations.
  pub data Compared (a b : F) : Type 0 where
    below : lt a b ≡ true → lt b a ≡ false → eq a b ≡ false → eq b a ≡ false → Compared a b
    tied : lt a b ≡ false → lt b a ≡ false → eq a b ≡ true → eq b a ≡ true → Compared a b
    above : lt a b ≡ false → lt b a ≡ true → eq a b ≡ false → eq b a ≡ false → Compared a b

  not_eq_back : (a b : F) → lt a b ≡ true → eq b a ≡ false
  not_eq_back a b h = ground (arith, f.lt_not_eq a b, f.eq_sym b a)

  pub compared : (a b : F) → is_nan a ≡ false → is_nan b ≡ false → Compared a b
  compared a b na nb = elim (Bool-cases (lt a b)) [
    | inl l ↦ below l (f.asymm a b l) (f.lt_not_eq a b l) (not_eq_back a b l)
    | inr n ↦ elim (Bool-cases (lt b a)) [
      | inl g ↦ above n g (not_eq_back b a g) (f.lt_not_eq b a g)
      | inr m ↦ tied n m (f.eq_of_tie a b na nb n m) (f.eq_of_tie b a nb na m n)
    ]
  ]

  abbrev pub HasNumber : RankedPost F → Type 0
  HasNumber r = is_nan r.score ≡ false

  module _ (a b c : RankedPost F) (na : HasNumber a) (nb : HasNumber b) (nc : HasNumber c) where
    ranks_before-asymm : ranks_before fl a b ≡ true → ranks_before fl b a ≡ false
    unfolding ranks_before newer
    ranks_before-asymm h =
        let back = newer-IsStrictWeak.asymm a.post b.post tt tt in
        elim (compared a.score b.score na nb) [
          | below l g e e' ↦ ground arith
          | tied l g e e' ↦ ground arith
          | above l g e e' ↦ ground arith
        ]

    negtrans_tied :
        eq a.score b.score ≡ true
        → eq b.score c.score ≡ true
        → ranks_before fl b a ≡ false
        → ranks_before fl c b ≡ false
        → ranks_before fl c a ≡ false
    unfolding ranks_before newer
    negtrans_tied e e₂ h k =
        let e₃ = f.eq_trans a.score b.score c.score e e₂ in
        let on = newer-IsStrictWeak.negtrans a.post b.post c.post tt tt tt in
        ground (arith, f.eq_sym a.score b.score, f.eq_sym b.score c.score, f.eq_sym a.score c.score)

    ranks_before-negtrans :
        ranks_before fl b a ≡ false → ranks_before fl c b ≡ false → ranks_before fl c a ≡ false
    unfolding ranks_before
    ranks_before-negtrans h k = elim (compared a.score b.score na nb) [
      | below l g e e' ↦ absurd (ground arith)
      | tied l g e e' ↦ elim (compared b.score c.score nb nc) [
        | below l₂ g₂ e₂ e₂' ↦ absurd (ground arith)
        | tied l₂ g₂ e₂ e₂' ↦ negtrans_tied e e₂ h k
        | above l₂ g₂ e₂ e₂' ↦
            let down = f.lt-eq c.score b.score a.score g₂ e' in
            ground (arith, f.lt_not_eq c.score a.score down, f.asymm c.score a.score down)
      ]
      | above l g e e' ↦ elim (compared b.score c.score nb nc) [
        | below l₂ g₂ e₂ e₂' ↦ absurd (ground arith)
        | tied l₂ g₂ e₂ e₂' ↦
            let down = f.eq-lt c.score b.score a.score e₂' g in
            ground (arith, f.lt_not_eq c.score a.score down, f.asymm c.score a.score down)
        | above l₂ g₂ e₂ e₂' ↦
            let down = f.trans c.score b.score a.score g₂ g in
            ground (arith, f.lt_not_eq c.score a.score down, f.asymm c.score a.score down)
      ]
    ]

  pub ranks_before-IsStrictWeak : IsStrictWeak HasNumber (ranks_before fl)
  ranks_before-IsStrictWeak = record {
    asymm = λ a b na nb h. ranks_before-asymm a b b na nb nb h;
    negtrans = λ a b c na nb nc h k. ranks_before-negtrans a b c na nb nc h k;
  }

  -- The age of a post: the time since it was made, 0 if that is in the future, and at most the largest
  -- Duration.
  abbrev pub IsAge : Time → Time → ℤ → Type 0
  IsAge now created age =
      ((lt_ℤ now created ≡ true) × (age ≡ pos 0))
      ⊎ ((lt_ℤ now created ≡ false)
          × (lt_ℤ (pos (2 ^ 63 - 1)) (now -ℤ created) ≡ false)
          × (age ≡ now -ℤ created))
      ⊎ ((lt_ℤ (pos (2 ^ 63 - 1)) (now -ℤ created) ≡ true) × (age ≡ pos (2 ^ 63 - 1)))

  -- The signal of a post: the one under its ID, or zero.
  abbrev pub IsSignal : Map (Signal F) → ℤ → Signal F → Type 0
  IsSignal signals id s =
      (lookup id signals ≡ some s)
      ⊎ ((lookup id signals ≡ none)
          × (s ≡ record { likes = pos 0; comments = pos 0; affinity = fl.of_int (pos 0) }))

  -- The parts and the score of a post with this age and this signal: exponential decay with the age, a
  -- logarithm of likes + 2 * comments, and the affinity.
  pub record IsScoreOf (weights : Weights F) (age : ℤ) (s : Signal F) (r : RankedPost F)
      : Type 0 where
    pub recency :
        r.recency
        ≡ fl.mul weights.recency
            (fl.exp (fl.div (fl.neg (fl.of_int age)) (fl.of_int weights.half_life)))
    pub engagement :
        r.engagement
        ≡ fl.mul weights.engagement
            (fl.log1p (fl.of_int (wrap64 (s.likes +ℤ wrap64 (pos 2 *ℤ s.comments)))))
    pub affinity : r.affinity ≡ fl.mul weights.affinity s.affinity
    pub total : r.score ≡ fl.add (fl.add r.recency r.engagement) r.affinity

  -- What `Rank` says of one post.
  abbrev pub IsScored : Weights F → Time → Map (Signal F) → RankedPost F → Type 0
  IsScored weights now signals r =
      (age : ℤ) × (s : Signal F) × IsAge now r.created_at age
      × IsSignal signals r.id s
      × IsScoreOf weights age s r

  -- The better score is first; among equal scores the newer post is, and then the larger ID.
  abbrev pub IsAhead : RankedPost F → RankedPost F → Type 0
  IsAhead a b =
      (lt b.score a.score ≡ true)
      ⊎ ((lt a.score b.score ≡ false)
          × (lt b.score a.score ≡ false)
          × IsNotOlder a.created_at a.id b.created_at b.id)

  ranks_before-IsAhead :
      (a b : RankedPost F) → HasNumber a → HasNumber b → ranks_before fl b a ≡ false → IsAhead a b
  unfolding ranks_before newer
  ranks_before-IsAhead a b na nb h = elim (compared a.score b.score na nb) [
    | below l g e e' ↦ absurd (ground arith)
    | tied l g e e' ↦ inr (l, g, newer-IsBefore a.post b.post (rw (← h) (rw e' refl)))
    | above l g e e' ↦ inl g
  ]

  age_of-IsAge : (now : Time) (p : Post) → IsAge now p.created_at (age_of fl now p)
  unfolding age_of time_sub lt_ℤ
  age_of-IsAge now p =
      rw (← sub_negative now p.created_at)
        (bounded_age (pos (2 ^ 63 - 1)) (negsuc (2 ^ 63 - 1)) (now -ℤ p.created_at) refl refl)

  signal_of-IsSignal :
      (signals : Map (Signal F)) (id : ℤ) → IsSignal signals id (signal_of fl signals id)
  unfolding signal_of
  signal_of-IsSignal signals id = elim (Option-cases (lookup id signals)) [
    | inl missing ↦ inr (missing, rw (signal_of, missing) refl)
    | inr (s, found) ↦ inl (found ∙ ap some (rw (signal_of, found) refl))
  ]

  posts_scored :
      (weights : Weights F) (now : Time) (signals : Map (Signal F)) (posts : List Post)
      → map (λ r. r.post) (score_posts fl weights now signals posts) ≡ posts
  unfolding score_posts score_post
  posts_scored weights now signals [] = refl
  posts_scored weights now signals (p ∷ ps) = ap (◌∷◌ p) (posts_scored weights now signals ps)

  All-IsScored :
      (weights : Weights F) (now : Time) (signals : Map (Signal F)) (posts : List Post)
      → All (IsScored weights now signals) (score_posts fl weights now signals posts)
  unfolding score_posts score_post
  All-IsScored weights now signals [] = tt
  All-IsScored weights now signals (p ∷ ps) = (
    (
      age_of fl now p,
      signal_of fl signals p.id,
      age_of-IsAge now p,
      signal_of-IsSignal signals p.id,
      record { recency = refl; engagement = refl; affinity = refl; total = refl },
    ),
    All-IsScored weights now signals ps,
  )

  -- `Rank` returns the posts that it was given, each scored from its own age and signal, the best
  -- score first; among equal scores the newer post is first, and then the larger ID. The order
  -- needs scores that are numbers.
  pub rank_lem :
      (weights : Weights F) (now : Time) (posts : List Post) (signals : Map (Signal F))
      → All HasNumber (score_posts fl weights now signals posts)
      → Perm (map (λ r. r.post) (rank fl weights now posts signals)) posts
        × All (IsScored weights now signals) (rank fl weights now posts signals)
        × IsOrdered IsAhead (rank fl weights now posts signals)
  unfolding rank
  rank_lem weights now posts signals n =
      let scored = score_posts fl weights now signals posts in
      (
        subst (λ l. Perm (map (λ r. r.post) (sort_slice (ranks_before fl) scored)) l)
            (posts_scored weights now signals posts)
            (Perm.map (λ (r : RankedPost F). r.post) (sort_slice-perm (ranks_before fl) scored)),
        All-sort_slice (ranks_before fl) (IsScored weights now signals) scored
            (All-IsScored weights now signals posts),
        SortedBy-IsOrdered HasNumber IsAhead (ranks_before fl) ranks_before-IsAhead _
            (All-sort_slice (ranks_before fl) HasNumber scored n)
            (sort_slice-SortedBy HasNumber (ranks_before fl) ranks_before-IsStrictWeak scored n),
      )
