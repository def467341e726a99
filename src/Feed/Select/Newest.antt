-- ===== src/Feed/Select/Newest.antt =====
-- `selectPosts` of server.go: the sort and the limit.
use cascade_feed_ranking_eng.Common.{
  ℕ, ◌≤◌, ℤ, pos, negsuc, pos_part, lt_ℤ, eq_ℤ_iff, lt_ℤ_asymm, lt_ℤ_trans, lt_ℤ_connected, ltb,
  true, false, some, Bool-cases, inl, inr, ◌⊎◌, List, [], ◌∷◌, Map, lookup, has, Distinct, length,
  length-take, take, drop, take_all, drop_all, All, All-append, All-drop, All-imp, All-zip, ◌≡◌,
  sym, ◌∙◌, arith,
}
use cascade_feed_ranking_eng.Common.Sort.{
  sort_slice, SortedBy, IsOrdered, SortedBy-IsOrdered, IsNotOlder, IsStrictWeak,
  sort_slice-SortedBy, All-sort_slice,
}
use cascade_feed_ranking_eng.Common.SortKeys.{
  has-sort_slice, sort_slice-Distinct, has-take-drop, take-Distinct, has-All, SortedBy-cut,
  SortedBy-take,
}
use cascade_feed_ranking_eng.Feed.{Post, CandidateSet}
use cascade_feed_ranking_eng.Feed.Page.Start.{ids}
use cascade_feed_ranking_eng.Feed.Select.{
  select_normal, seen_normal, newer, truncate, selected, select_posts,
}
use cascade_feed_ranking_eng.Feed.Select.Eligible.{
  IsKeyed, is_eligible, has-selected, selected-Distinct, select_normal-IsStored,
  select_celebrity-IsStored,
}

pub lt_ℤ_negtrans : (a b c : ℤ) → lt_ℤ a b ≡ false → lt_ℤ b c ≡ false → lt_ℤ a c ≡ false
unfolding lt_ℤ
lt_ℤ_negtrans a b c h k = ground arith

pub newer-IsStrictWeak : IsStrictWeak (λ (p : Post). Unit {0}) newer
unfolding newer
newer-IsStrictWeak = record {
  asymm = λ a b _ _ h. ground (
    arith,
    eq_ℤ_iff a.created_at b.created_at,
    eq_ℤ_iff b.created_at a.created_at,
    lt_ℤ_asymm b.created_at a.created_at,
    lt_ℤ_asymm b.id a.id,
  );
  negtrans = λ a b c _ _ _ h k. ground (
    arith,
    eq_ℤ_iff a.created_at b.created_at,
    eq_ℤ_iff b.created_at c.created_at,
    eq_ℤ_iff a.created_at c.created_at,
    eq_ℤ_iff b.created_at a.created_at,
    eq_ℤ_iff c.created_at b.created_at,
    eq_ℤ_iff c.created_at a.created_at,
    lt_ℤ_negtrans a.created_at b.created_at c.created_at,
    lt_ℤ_negtrans a.id b.id c.id,
    lt_ℤ_connected a.created_at b.created_at,
    lt_ℤ_connected b.created_at c.created_at,
    lt_ℤ_connected a.created_at c.created_at,
    lt_ℤ_trans c.created_at b.created_at a.created_at,
  );
}

-- A post that comes before another one: it is newer, or of the same instant with an ID not smaller.
abbrev pub IsBefore : Post → Post → Type 0
IsBefore a b = IsNotOlder a.created_at a.id b.created_at b.id

pub newer-IsBefore : (a b : Post) → newer b a ≡ false → IsBefore a b
unfolding newer
newer-IsBefore a b h = elim (Bool-cases (lt_ℤ b.created_at a.created_at)) [
  | inl later ↦ inl later
  | inr not_later ↦ inr (
      ground (
        arith,
        eq_ℤ_iff b.created_at a.created_at,
        eq_ℤ_iff a.created_at b.created_at,
        lt_ℤ_connected a.created_at b.created_at,
      ))
]

pub All-tt : {A : Type 0} (l : List A) → All (λ _. Unit {0}) l
All-tt [] = tt
All-tt (x ∷ xs) = (tt, All-tt xs)

-- The limit cuts the list at its value.
truncate_lem :
    (limit : ℤ) (posts : List Post)
    → lt_ℤ limit (pos 0) ≡ false
    → truncate limit posts ≡ take (pos_part limit) posts
unfolding truncate lt_ℤ
truncate_lem (pos n) posts h = elim (Bool-cases (ltb n (length posts))) [
  | inl more ↦ rw (more, truncate)
  | inr less ↦ rw (less, truncate) (sym (take_all n posts (ground arith)))
]
truncate_lem (negsuc n) posts h = cc

module _ (c : CandidateSet) (hydrated : Map Post) where
  all_sorted : List Post
  all_sorted = sort_slice newer (selected c hydrated)

  all_sorted-SortedBy : SortedBy newer all_sorted
  unfolding all_sorted
  all_sorted-SortedBy =
      sort_slice-SortedBy _ newer newer-IsStrictWeak (selected c hydrated)
        (All-tt (selected c hydrated))

  select_posts-take :
      (limit : ℤ)
      → lt_ℤ limit (pos 0) ≡ false
      → select_posts c hydrated limit ≡ take (pos_part limit) all_sorted
  unfolding select_posts all_sorted
  select_posts-take limit h = truncate_lem limit all_sorted h

  -- The chosen posts have different IDs, are ordered newest first (the larger ID first among posts
  -- of one instant) and are at most `limit`, if the timeline names no post twice.
  pub select_posts-IsOrdered :
      (limit : ℤ)
      → lt_ℤ limit (pos 0) ≡ false
      → IsKeyed hydrated
      → Distinct c.normal_ids
      → IsOrdered IsBefore (select_posts c hydrated limit)
        × Distinct (ids (select_posts c hydrated limit))
        × (length (select_posts c hydrated limit) ≤ pos_part limit)
  unfolding all_sorted
  select_posts-IsOrdered limit h k d = rw (select_posts-take limit h) (
    SortedBy-IsOrdered (λ _. Unit {0}) IsBefore newer (λ a b _ _ h. newer-IsBefore a b h) _
        (All-tt (take (pos_part limit) all_sorted))
        (SortedBy-take newer (pos_part limit) all_sorted all_sorted-SortedBy),
    take-Distinct (λ p. p.id) (pos_part limit) all_sorted
        (sort_slice-Distinct newer (λ p. p.id) (selected c hydrated)
          (selected-Distinct hydrated k c d)),
    omega (arith, length-take (pos_part limit) all_sorted),
  )

module _ (hydrated : Map Post) (k : IsKeyed hydrated) where
  abbrev IsStored : Post → Type 0
  IsStored p = lookup p.id hydrated ≡ some p

  module _ (c : CandidateSet) where
    all_sorted-IsStored : All IsStored (all_sorted c hydrated)
    unfolding all_sorted selected
    all_sorted-IsStored = All-sort_slice newer IsStored (selected c hydrated) (
        All-append IsStored (select_normal hydrated c.normal_ids) _
          (select_normal-IsStored hydrated k c.normal_ids)
          (select_celebrity-IsStored hydrated k c (seen_normal hydrated c.normal_ids)
            c.celebrity_ids))

    has-all_sorted : (i : ℤ) → has i (ids (all_sorted c hydrated)) ≡ is_eligible c hydrated i
    unfolding all_sorted
    has-all_sorted i =
        has-sort_slice newer (λ p. p.id) i (selected c hydrated) ∙ has-selected hydrated k c i

    -- What a cut at `n` leaves out is not newer than anything that it keeps.
    cut_newest :
        (n : ℕ) (i : ℤ) (p : Post)
        → has i (ids (drop n (all_sorted c hydrated))) ≡ true
        → lookup i hydrated ≡ some p
        → All (λ q. newer p q ≡ false) (take n (all_sorted c hydrated))
    cut_newest n i p h found =
        let l = all_sorted c hydrated in
        All-imp (λ q. All (λ y. newer y q ≡ false) (drop n l)) (λ q. newer p q ≡ false)
          (λ q below.
            let (y, same_id, (older, stored)) =
              has-All (λ y. y.id) (λ y. (newer y q ≡ false) × IsStored y) i (drop n l)
                (All-zip (λ y. newer y q ≡ false) IsStored (drop n l) below
                  (All-drop IsStored n l all_sorted-IsStored))
                h in
            let same : y ≡ p = cc in rw (← same) older)
          (take n l) (SortedBy-cut newer n l (all_sorted-SortedBy c hydrated))

    full_of_dropped :
        (n : ℕ) (i : ℤ)
        → has i (ids (drop n (all_sorted c hydrated))) ≡ true
        → length (take n (all_sorted c hydrated)) ≡ n
    unfolding has
    full_of_dropped n i h = elim (Bool-cases (ltb n (length (all_sorted c hydrated)))) [
      | inl more ↦ ground (arith, length-take n (all_sorted c hydrated))
      | inr less ↦ absurd (ground (arith, drop_all n (all_sorted c hydrated)))
    ]

    -- Every post of the feed is an eligible candidate: a normal one that was hydrated, or a celebrity
    -- one by a followed author. The posts are keyed by their IDs and the limit is not negative.
    pub select_posts_sound :
        (limit i : ℤ)
        → lt_ℤ limit (pos 0) ≡ false
        → has i (ids (select_posts c hydrated limit)) ≡ true
        → is_eligible c hydrated i ≡ true
    select_posts_sound limit i h chosen =
        let split = has-take-drop (λ (p : Post). p.id) i (pos_part limit) (all_sorted c hydrated) in
        let kept : has i (ids (take (pos_part limit) (all_sorted c hydrated))) ≡ true =
          rw (← select_posts-take c hydrated limit h) chosen in
        ground (arith, split, has-all_sorted i)

    -- Every eligible candidate is in the feed, unless the feed holds as many posts as the limit and
    -- each of them is newer than it, or of the same
    -- instant and with no smaller ID. The posts are keyed by their IDs and the limit is not negative.
    pub select_posts_complete :
        (limit i : ℤ) (p : Post)
        → lt_ℤ limit (pos 0) ≡ false
        → lookup i hydrated ≡ some p
        → is_eligible c hydrated i ≡ true
        → (has i (ids (select_posts c hydrated limit)) ≡ true)
          ⊎ ((length (select_posts c hydrated limit) ≡ pos_part limit)
              × All (λ q. IsBefore q p) (select_posts c hydrated limit))
    select_posts_complete limit i p h found eligible =
        let n = pos_part limit in
        let l = all_sorted c hydrated in
        let split = has-take-drop (λ (q : Post). q.id) i n l in
        rw (select_posts-take c hydrated limit h) (elim (Bool-cases (has i (ids (take n l)))) [
          | inl chosen ↦ inl chosen
          | inr out ↦
              let dropped : has i (ids (drop n l)) ≡ true =
                ground (arith, split, has-all_sorted i) in
              inr (
                full_of_dropped n i dropped,
                All-imp (λ q. newer p q ≡ false) (λ q. IsBefore q p) (λ q k. newer-IsBefore q p k)
                    (take n l) (cut_newest n i p dropped found),
              )
        ])
