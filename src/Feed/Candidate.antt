-- ===== src/Feed/Candidate.antt =====
-- services/feed-service/internal/candidate/redis.go: candidates from the Redis timelines. Redis
-- answers SMISMEMBER with one flag for each member; a flag beyond the members, on which the code
-- would panic, is dropped here.
pub mod Tombstones
pub mod Postgres
pub mod Listed
use cascade_feed_ranking_eng.Common.{
  ℕ, ℤ, pos, ◌-ℤ◌, nonpos, Bool, true, false, ◌||◌, Option, none, some, List, [], ◌∷◌, ◌++◌, map,
  has, append_unseen, Bytes, Error, other, Result, ok, err, Exec, pure, lift, reject, ◌>>=◌, ◌>>◌,
}
use cascade_feed_ranking_eng.Common.Decimal.{format_int, parse_int}
use cascade_feed_ranking_eng.Redis.{
  Client, timeline_key, celebrity_posts_key, celebrity_following_key, tombstones_key,
}
use cascade_feed_ranking_eng.Feed.{CandidateSet}

unfoldable pub parse_id : Bytes → Option ℤ
parse_id value = elim (parse_int value) [
  | none ↦ none
  | some id ↦ elim (nonpos id) [ true ↦ none | false ↦ some id ]
]

unfoldable pub parse_ids : List Bytes → Result Error (List ℤ)
parse_ids [] = ok []
parse_ids (value ∷ values) =
    let rest = parse_ids values in
    elim (parse_id value) [
      | none ↦ err other
      | some id ↦ elim rest [ err e ↦ err e | ok ids ↦ ok (id ∷ ids) ]
    ]

unfoldable pub unique : List ℤ → List ℤ
unique ids = append_unseen [] [] ids

unfoldable pub exclude : List ℤ → List ℤ → List ℤ
exclude [] excluded = []
exclude (id ∷ ids) excluded =
    let rest = exclude ids excluded in elim (has id excluded) [ true ↦ rest | false ↦ id ∷ rest ]

-- The keys of `deleted`: the IDs whose flag is set.
unfoldable pub flagged : List ℤ → List Bool → List ℤ
flagged [] flags = []
flagged (id ∷ ids) [] = []
flagged (id ∷ ids) (flag ∷ flags) =
    let rest = flagged ids flags in elim flag [ true ↦ id ∷ rest | false ↦ rest ]

module _ {W : Type 0} (client : Client W) where
  -- The set of tombstoned IDs, read only where there are candidates.
  unfoldable pub read_deleted : List ℤ → Exec W Error (List ℤ)
  read_deleted [] = pure []
  read_deleted (id ∷ ids) = do
    flags ← client.smismember tombstones_key (map format_int (id ∷ ids))
    pure (flagged (id ∷ ids) flags)

  unfoldable pub load : ℤ → ℤ → Exec W Error CandidateSet
  load user_id limit = do
    reject (nonpos limit) other
    (normal_values, celebrity_values, followed_values) ←
        client.read_feed (timeline_key user_id) celebrity_posts_key (pos 0) (limit -ℤ pos 1)
          (celebrity_following_key user_id)
    normal ← lift (parse_ids normal_values)
    celebrities ← lift (parse_ids celebrity_values)
    followed ← lift (parse_ids followed_values)
    deleted ← read_deleted (unique (normal ++ celebrities))
    pure (record {
      normal_ids = exclude normal deleted;
      celebrity_ids = exclude celebrities deleted;
      followed_celebrities = followed;
    })
