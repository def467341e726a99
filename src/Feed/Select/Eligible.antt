-- ===== src/Feed/Select/Eligible.antt =====
-- `selectPosts` of server.go against a description of which candidates a viewer may see.
use cascade_feed_ranking_eng.Common.{
  ℤ, eq_ℤ_iff, Bool, true, false, not, ◌&&◌, ◌||◌, none, some, Option-cases, Bool-cases, inl, inr,
  ◌⊎◌, ap, ◌∙◌, List, [], ◌∷◌, map-append, Map, lookup, has, has-append, Distinct, All, ◌≡◌, refl,
  arith,
}
use cascade_feed_ranking_eng.Common.SortKeys.{Distinct-append}
use cascade_feed_ranking_eng.Feed.{Post, CandidateSet}
use cascade_feed_ranking_eng.Feed.Page.Start.{ids}
use cascade_feed_ranking_eng.Feed.Select.{select_normal, seen_normal, select_celebrity, selected}

-- A hydrated post stands under its own ID.
abbrev pub IsKeyed : Map Post → Type 0
IsKeyed hydrated = (i : ℤ) (p : Post) → lookup i hydrated ≡ some p → p.id ≡ i

module _ (c : CandidateSet) (hydrated : Map Post) where
  abbrev pub is_hydrated : ℤ → Bool
  is_hydrated i = elim (lookup i hydrated) [ none ↦ false | some p ↦ true ]

  abbrev pub is_followed : ℤ → Bool
  is_followed i = elim (lookup i hydrated) [
    | none ↦ false
    | some p ↦ has p.author_id c.followed_celebrities
  ]

  -- A normal candidate that was hydrated, or a celebrity candidate by an author whom the viewer
  -- follows.
  abbrev pub is_eligible : ℤ → Bool
  is_eligible i = (is_hydrated i && has i c.normal_ids) || (is_followed i && has i c.celebrity_ids)

module _ (hydrated : Map Post) (k : IsKeyed hydrated) where
  seen_normal-ids :
      (normal : List ℤ) → seen_normal hydrated normal ≡ ids (select_normal hydrated normal)
  unfolding seen_normal select_normal
  seen_normal-ids [] = refl
  seen_normal-ids (id ∷ normal) = elim (Option-cases (lookup id hydrated)) [
    | inl missing ↦ rw (missing, seen_normal, select_normal) (seen_normal-ids normal)
    | inr (p, found) ↦
        rw (found, seen_normal, select_normal) (cc (k id p found, seen_normal-ids normal))
  ]

  has-select_normal :
      (i : ℤ) (c : CandidateSet) (normal : List ℤ)
      → has i (ids (select_normal hydrated normal)) ≡ (is_hydrated c hydrated i && has i normal)
  unfolding select_normal has
  has-select_normal i c [] = ground arith
  has-select_normal i c (id ∷ normal) = elim (Option-cases (lookup id hydrated)) [
    | inl missing ↦
        rw (missing, select_normal) (ground (arith, has-select_normal i c normal, eq_ℤ_iff id i))
    | inr (p, found) ↦
        rw (found, select_normal)
          (ground (arith, has-select_normal i c normal, eq_ℤ_iff id i, k id p found))
  ]

  stored : (id : ℤ) (p : Post) → lookup id hydrated ≡ some p → lookup p.id hydrated ≡ some p
  stored id p found = ap (λ j. lookup j hydrated) (k id p found) ∙ found

  -- One round of the second loop: the ID is passed over, or its post is taken.
  pub celebrity_step :
      (c : CandidateSet) (seen : List ℤ) (id : ℤ) (celebrity : List ℤ)
      → ((is_followed c hydrated id && not (has id seen) ≡ false)
          × (select_celebrity hydrated c.followed_celebrities seen (id ∷ celebrity)
              ≡ select_celebrity hydrated c.followed_celebrities seen celebrity))
        ⊎ ((p : Post) × (p.id ≡ id)
            × (lookup p.id hydrated ≡ some p)
            × (is_followed c hydrated id && not (has id seen) ≡ true)
            × (select_celebrity hydrated c.followed_celebrities seen (id ∷ celebrity)
                ≡ p ∷ select_celebrity hydrated c.followed_celebrities (id ∷ seen) celebrity))
  unfolding select_celebrity
  celebrity_step c seen id celebrity = elim (Option-cases (lookup id hydrated)) [
    | inl missing ↦ inl (ground arith, rw (missing, select_celebrity))
    | inr (p, found) ↦ elim (Bool-cases (has p.author_id c.followed_celebrities)) [
      | inr stranger ↦
          inl (ground arith, rw (found, select_celebrity) (rw (stranger, select_celebrity)))
      | inl followed ↦ elim (Bool-cases (has id seen)) [
        | inl old ↦ inl (
          ground arith,
          rw (found, select_celebrity)
              (rw (followed, select_celebrity) (rw (old, select_celebrity))),
        )
        | inr new ↦ inr (
          p,
          k id p found,
          stored id p found,
          ground arith,
          rw (found, select_celebrity)
              (rw (followed, select_celebrity) (rw (new, select_celebrity))),
        )
      ]
    ]
  ]

  has-select_celebrity :
      (i : ℤ) (c : CandidateSet) (seen celebrity : List ℤ)
      → has i (ids (select_celebrity hydrated c.followed_celebrities seen celebrity))
        ≡ (is_followed c hydrated i && has i celebrity && not (has i seen))
  unfolding has select_celebrity
  has-select_celebrity i c seen [] = ground arith
  has-select_celebrity i c seen (id ∷ celebrity) = elim (celebrity_step c seen id celebrity) [
    | inl (skipped, e) ↦
        rw e (ground (arith, has-select_celebrity i c seen celebrity, eq_ℤ_iff id i))
    | inr (p, same_id, _, taken, e) ↦
        rw e (ground (arith, has-select_celebrity i c (id ∷ seen) celebrity, eq_ℤ_iff id i))
  ]

  select_celebrity-Distinct :
      (c : CandidateSet) (seen celebrity : List ℤ)
      → Distinct (ids (select_celebrity hydrated c.followed_celebrities seen celebrity))
  unfolding select_celebrity has
  select_celebrity-Distinct c seen [] = tt
  select_celebrity-Distinct c seen (id ∷ celebrity) = elim (celebrity_step c seen id celebrity) [
    | inl (skipped, e) ↦ rw e (select_celebrity-Distinct c seen celebrity)
    | inr (p, same_id, _, taken, e) ↦ rw e (
      ground (arith, has-select_celebrity p.id c (id ∷ seen) celebrity, eq_ℤ_iff id p.id),
      select_celebrity-Distinct c (id ∷ seen) celebrity,
    )
  ]

  pub select_celebrity-IsStored :
      (c : CandidateSet) (seen celebrity : List ℤ)
      → All
          (λ p. lookup p.id hydrated ≡ some p)
          (select_celebrity hydrated c.followed_celebrities seen celebrity)
  unfolding select_celebrity
  select_celebrity-IsStored c seen [] = tt
  select_celebrity-IsStored c seen (id ∷ celebrity) = elim (celebrity_step c seen id celebrity) [
    | inl (skipped, e) ↦ rw e (select_celebrity-IsStored c seen celebrity)
    | inr (p, _, kept, taken, e) ↦ rw e (kept, select_celebrity-IsStored c (id ∷ seen) celebrity)
  ]

  pub select_normal-IsStored :
      (normal : List ℤ) → All (λ p. lookup p.id hydrated ≡ some p) (select_normal hydrated normal)
  unfolding select_normal
  select_normal-IsStored [] = tt
  select_normal-IsStored (id ∷ normal) = elim (Option-cases (lookup id hydrated)) [
    | inl missing ↦ rw (missing, select_normal) (select_normal-IsStored normal)
    | inr (p, found) ↦ rw (found, select_normal) (stored id p found, select_normal-IsStored normal)
  ]

  select_normal-Distinct :
      (c : CandidateSet) (normal : List ℤ)
      → Distinct normal
      → Distinct (ids (select_normal hydrated normal))
  unfolding select_normal
  select_normal-Distinct c [] d = tt
  select_normal-Distinct c (id ∷ normal) d = elim (Option-cases (lookup id hydrated)) [
    | inl missing ↦ rw (missing, select_normal) (select_normal-Distinct c normal d.1)
    | inr (p, found) ↦
        rw (found, select_normal)
          (
            ground (arith, has-select_normal p.id c normal, k id p found),
            select_normal-Distinct c normal d.1,
          )
  ]

  module _ (c : CandidateSet) where
    -- Before the sort and the limit the selection has exactly the eligible IDs.
    pub has-selected : (i : ℤ) → has i (ids (selected c hydrated)) ≡ is_eligible c hydrated i
    unfolding selected
    has-selected i =
        rw (map-append, has-append, seen_normal-ids)
          (ground (
            arith,
            has-select_normal i c c.normal_ids,
            has-select_celebrity i c (ids (select_normal hydrated c.normal_ids)) c.celebrity_ids,
          ))

    pub selected-Distinct : Distinct c.normal_ids → Distinct (ids (selected c hydrated))
    unfolding selected
    selected-Distinct d =
        rw (map-append, seen_normal-ids)
          (Distinct-append (ids (select_normal hydrated c.normal_ids))
            (ids (
              select_celebrity hydrated c.followed_celebrities
                (ids (select_normal hydrated c.normal_ids)) c.celebrity_ids))
            (select_normal-Distinct c c.normal_ids d)
            (select_celebrity-Distinct c (ids (select_normal hydrated c.normal_ids))
              c.celebrity_ids)
            (λ i h. ground (
              arith,
              has-select_celebrity i c (ids (select_normal hydrated c.normal_ids)) c.celebrity_ids,
            )))
