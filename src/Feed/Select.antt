-- ===== src/Feed/Select.antt =====
-- services/feed-service/internal/feedserver/server.go: `mergeIDs` and `selectPosts`.
pub mod Merged
pub mod Eligible
pub mod Newest
use cascade_feed_ranking_eng.Common.{
  ℤ, pos, pos_part, lt_ℤ, eq_ℤ, Bool, true, false, not, List, [], ◌∷◌, ◌++◌, none, some, Map,
  append_unseen, lookup, has, length, take, if◌then◌else◌,
}
use cascade_feed_ranking_eng.Common.Sort.{sort_slice}
use cascade_feed_ranking_eng.Feed.{Post, CandidateSet}

-- The two nested loops of `mergeIDs` run through the two lists in turn.
unfoldable pub merge_ids : List ℤ → List ℤ → List ℤ
merge_ids normal celebrity = append_unseen [] [] (normal ++ celebrity)

-- The first loop of `selectPosts`: normal candidates that were hydrated.
unfoldable pub select_normal : Map Post → List ℤ → List Post
select_normal hydrated [] = []
select_normal hydrated (id ∷ ids) =
    let rest = select_normal hydrated ids in
    elim (lookup id hydrated) [ none ↦ rest | some post ↦ post ∷ rest ]

-- What the first loop leaves in `seen`.
unfoldable pub seen_normal : Map Post → List ℤ → List ℤ
seen_normal hydrated [] = []
seen_normal hydrated (id ∷ ids) =
    let rest = seen_normal hydrated ids in
    elim (lookup id hydrated) [ none ↦ rest | some post ↦ id ∷ rest ]

-- The second loop: hydrated celebrity candidates by followed authors, each ID once.
unfoldable pub select_celebrity : Map Post → List ℤ → List ℤ → List ℤ → List Post
select_celebrity hydrated followed seen [] = []
select_celebrity hydrated followed seen (id ∷ ids) = elim (lookup id hydrated) [
  | none ↦ select_celebrity hydrated followed seen ids
  | some post ↦ elim (has post.author_id followed) [
    | false ↦ select_celebrity hydrated followed seen ids
    | true ↦ elim (has id seen) [
      | true ↦ select_celebrity hydrated followed seen ids
      | false ↦ post ∷ select_celebrity hydrated followed (id ∷ seen) ids
    ]
  ]
]

-- Newest first, then by the larger ID.
unfoldable pub newer : Post → Post → Bool
newer a b =
    if not (eq_ℤ a.created_at b.created_at) then lt_ℤ b.created_at a.created_at else lt_ℤ b.id a.id

-- `posts[:limit]` where there are more. (A negative limit would panic; `Load` has rejected it.)
unfoldable pub truncate : ℤ → List Post → List Post
truncate limit posts =
    if lt_ℤ limit (pos (length posts)) then take (pos_part limit) posts else posts

unfoldable pub selected : CandidateSet → Map Post → List Post
selected candidates hydrated =
    select_normal hydrated candidates.normal_ids
    ++ select_celebrity hydrated candidates.followed_celebrities
        (seen_normal hydrated candidates.normal_ids) candidates.celebrity_ids

unfoldable pub select_posts : CandidateSet → Map Post → ℤ → List Post
unfolding newer truncate
select_posts candidates hydrated limit =
    truncate limit (sort_slice newer (selected candidates hydrated))
