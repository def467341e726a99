-- ===== src/Fanout/Warm/Newest.antt =====
-- The newest posts that warmer.go keeps for a timeline.
use mathlib.Core.List.{Perm}
use cascade_feed_ranking_eng.Common.{
  ℕ, ◌≤◌, ℤ, pos, pos_part, lt_ℤ, nonpos, ltb, ltb→lt, ltb→ge, false, List, [], ◌∷◌, ◌++◌, length,
  length-take, take, drop, take_all, drop_all, take-append-drop, All, All-imp, Bool-cases, ◌≡◌,
  refl, sym, ◌∙◌, subst, inl, inr, ◌⊎◌, arith,
}
use cascade_feed_ranking_eng.Common.Sort.{
  sort_slice, SortedBy, IsOrdered, SortedBy-IsOrdered, IsNotOlder, IsStrictWeak,
  sort_slice-SortedBy, sort_slice-perm,
}
use cascade_feed_ranking_eng.Common.SortKeys.{SortedBy-cut, SortedBy-take}
use cascade_feed_ranking_eng.Feed.{Post}
use cascade_feed_ranking_eng.Feed.Select.{newer}
use cascade_feed_ranking_eng.Feed.Select.Newest.{newer-IsStrictWeak, newer-IsBefore, All-tt}
use cascade_feed_ranking_eng.Fanout.Warm.{PostContent, newer_content, newest_contents}

-- The order is that of the feed, on milliseconds.
as_feed_post : PostContent → Post
as_feed_post p = record {
  id = p.id;
  author_id = p.author_id;
  content = p.content;
  media_url = p.media_url;
  created_at = p.created_at_unix_ms;
}

newer_content-IsStrictWeak : IsStrictWeak (λ (p : PostContent). Unit {0}) newer_content
unfolding newer_content newer as_feed_post
newer_content-IsStrictWeak = record {
  asymm = λ a b _ _ h. newer-IsStrictWeak.asymm (as_feed_post a) (as_feed_post b) tt tt h;
  negtrans = λ a b c _ _ _ h k.
      newer-IsStrictWeak.negtrans (as_feed_post a) (as_feed_post b) (as_feed_post c) tt tt tt h k;
}

-- A post that comes before another one: it is newer, or of the same time with an ID not smaller.
abbrev pub IsBefore : PostContent → PostContent → Type 0
IsBefore a b = IsNotOlder a.created_at_unix_ms a.id b.created_at_unix_ms b.id

newer_content-IsBefore : (a b : PostContent) → newer_content b a ≡ false → IsBefore a b
unfolding newer_content newer as_feed_post
newer_content-IsBefore a b h = newer-IsBefore (as_feed_post a) (as_feed_post b) h

unfoldable pub sorted : List PostContent → List PostContent
sorted posts = sort_slice newer_content posts

sorted-SortedBy : (posts : List PostContent) → SortedBy newer_content (sorted posts)
unfolding sorted
sorted-SortedBy posts =
    sort_slice-SortedBy (λ _. Unit {0}) newer_content newer_content-IsStrictWeak posts
      (All-tt posts)

reaches :
    (limit : ℤ) (n : ℕ) → nonpos limit ≡ false → lt_ℤ limit (pos n) ≡ false → n ≤ pos_part limit
unfolding nonpos lt_ℤ
reaches limit n h k = ground arith

pub newest_contents-take :
    (posts : List PostContent) (limit : ℤ)
    → nonpos limit ≡ false
    → newest_contents posts limit ≡ take (pos_part limit) (sorted posts)
unfolding newest_contents sorted sort_slice
newest_contents-take [] limit h = sym (take_all (pos_part limit) [] (omega arith))
newest_contents-take (p ∷ posts) limit h =
    let all = sorted (p ∷ posts) in
    elim (Bool-cases (lt_ℤ limit (pos (length all)))) [
      | inl more ↦ rw (h, newest_contents) (rw more refl)
      | inr fits ↦
          rw (h, newest_contents)
            (rw fits (sym (take_all (pos_part limit) all (reaches limit (length all) h fits))))
    ]

sorted-perm : (posts : List PostContent) → Perm (sorted posts) posts
unfolding sorted
sorted-perm posts = sort_slice-perm newer_content posts

full : (n : ℕ) (l : List PostContent) → (drop n l ≡ []) ⊎ (length (take n l) ≡ n)
full n l = elim (Bool-cases (ltb n (length l))) [
  | inl more ↦ inr (length-take n l ∙ omega (arith, ltb→lt n (length l) more))
  | inr fits ↦ inl (drop_all n l (ltb→ge n (length l) fits))
]

-- With a positive limit the posts that are kept are the newest of all, as many as the limit or all
-- of them, newest first: together with those left out they are the posts given, every one that is
-- kept is newer than each left out, or of the same time with an ID not smaller, and something is left out only if the limit is reached.
pub newest_contents_lem :
    (posts : List PostContent) (limit : ℤ)
    → nonpos limit ≡ false
    → (rest : List PostContent) × Perm (newest_contents posts limit ++ rest) posts
      × IsOrdered IsBefore (newest_contents posts limit)
      × All (λ kept. All (IsBefore kept) rest) (newest_contents posts limit)
      × (length (newest_contents posts limit) ≤ pos_part limit)
      × ((rest ≡ []) ⊎ (length (newest_contents posts limit) ≡ pos_part limit))
newest_contents_lem posts limit h =
    let n = pos_part limit in
    rw (newest_contents-take posts limit h) (
      drop n (sorted posts),
      subst (λ l. Perm l posts) (sym (take-append-drop n (sorted posts))) (sorted-perm posts),
      SortedBy-IsOrdered (λ _. Unit {0}) IsBefore newer_content
          (λ a b _ _ k. newer_content-IsBefore a b k) _ (All-tt (take n (sorted posts)))
          (SortedBy-take newer_content n (sorted posts) (sorted-SortedBy posts)),
      All-imp (λ kept. All (λ left. newer_content left kept ≡ false) (drop n (sorted posts)))
          (λ kept. All (IsBefore kept) (drop n (sorted posts)))
          (λ kept below.
            All-imp (λ left. newer_content left kept ≡ false) (IsBefore kept)
              (λ left k. newer_content-IsBefore kept left k) (drop n (sorted posts)) below)
          (take n (sorted posts))
          (SortedBy-cut newer_content n (sorted posts) (sorted-SortedBy posts)),
      omega (arith, length-take n (sorted posts)),
      full n (sorted posts),
    )
