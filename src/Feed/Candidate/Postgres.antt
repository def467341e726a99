-- ===== src/Feed/Candidate/Postgres.antt =====
-- services/feed-service/internal/candidate/postgres.go: the candidates of FEED_BYPASS_CACHE, from
-- three SELECT statements. `OnQuery` counts the queries and may be missing.
use cascade_feed_ranking_eng.Common.{
  ℤ, pos_part, eq_ℤ, lt_ℤ, nonpos, Bool, not, ◌&&◌, Option, none, some, List, map, take, Error,
  other, ok, Exec, pure, lift, reject, ◌>>=◌, ◌>>◌, if◌then◌else◌,
}
use cascade_feed_ranking_eng.Common.Sort.{sort_slice}
use cascade_feed_ranking_eng.Database.{
  Rows, read_rows, Tables, UserRow, FollowRow, PostRow, filter, join,
}
use cascade_feed_ranking_eng.Feed.{CandidateSet}

pub record Postgres (W : Type 0) : Type 0 where
  pub query_normal : ℤ → ℤ → Exec W Error (Rows ℤ)
  pub query_celebrities : ℤ → Exec W Error (Rows ℤ)
  pub query_followed : ℤ → Exec W Error (Rows ℤ)
  pub on_query : Option (W → W)

-- The loop of NewPostgres around `pool.Query`.
unfoldable pub ids : {W : Type 0} → Exec W Error (Rows ℤ) → Exec W Error (List ℤ)
ids pool_query = do rows ← pool_query; lift (read_rows (λ id. id) rows)

module _ {W : Type 0} (p : Postgres W) where
  unfoldable pub observe : Exec W Error (Unit {0})
  observe w = elim p.on_query [ none ↦ (ok tt, w) | some f ↦ (ok tt, f w) ]

  unfoldable pub query : Exec W Error (Rows ℤ) → Exec W Error (List ℤ)
  query pool_query = do found ← ids pool_query; observe; pure found

  -- The map of the followed celebrities has the IDs of the third query as its keys.
  unfoldable pub load : ℤ → ℤ → Exec W Error CandidateSet
  load user_id limit = do
    reject (nonpos limit) other
    normal ← query (p.query_normal user_id limit)
    celebrities ← query (p.query_celebrities limit)
    followed ← query (p.query_followed user_id)
    pure (record {
      normal_ids = normal;
      celebrity_ids = celebrities;
      followed_celebrities = followed;
    })

-- ORDER BY p.created_at DESC, p.id DESC
unfoldable pub newer_row : PostRow → PostRow → Bool
newer_row a b =
    if not (eq_ℤ a.created_at b.created_at) then lt_ℤ b.created_at a.created_at else lt_ℤ b.id a.id

-- LIMIT, for a limit that is not negative.
unfoldable pub newest_ids : ℤ → List PostRow → List ℤ
newest_ids limit rows = map (λ p. p.id) (take (pos_part limit) (sort_slice newer_row rows))

-- FROM posts JOIN follows JOIN users, and the WHERE of the first statement.
unfoldable pub normal_rows : Tables → ℤ → List ((PostRow × FollowRow) × UserRow)
normal_rows t user_id =
    filter (λ r. eq_ℤ r.0.1.follower_id user_id && not r.0.0.is_deleted && not r.1.is_celebrity)
      (join (join t.posts t.follows (λ p f. eq_ℤ f.followee_id p.author_id)) t.users
        (λ r u. eq_ℤ u.id r.0.author_id))

unfoldable pub select_normal_ids : Tables → ℤ → ℤ → List ℤ
select_normal_ids t user_id limit = newest_ids limit (map (λ r. r.0.0) (normal_rows t user_id))

-- FROM posts JOIN users, and the WHERE of the second statement.
unfoldable pub celebrity_rows : Tables → List (PostRow × UserRow)
celebrity_rows t =
    filter (λ r. r.1.is_celebrity && not r.0.is_deleted)
      (join t.posts t.users (λ p u. eq_ℤ u.id p.author_id))

unfoldable pub select_celebrity_ids : Tables → ℤ → List ℤ
select_celebrity_ids t limit = newest_ids limit (map (λ r. r.0) (celebrity_rows t))

-- FROM follows JOIN users, and the WHERE of the third statement.
unfoldable pub followed_rows : Tables → ℤ → List (FollowRow × UserRow)
followed_rows t user_id =
    filter (λ r. eq_ℤ r.0.follower_id user_id && r.1.is_celebrity)
      (join t.follows t.users (λ f u. eq_ℤ u.id f.followee_id))

unfoldable pub select_followed_ids : Tables → ℤ → List ℤ
select_followed_ids t user_id = map (λ r. r.0.followee_id) (followed_rows t user_id)
