-- ===== src/Feed/Candidate/Tombstones.antt =====
-- The candidates of redis.go: deleted posts are left out.
use cascade_feed_ranking_eng.Common.{
  ℤ, pos, ◌-ℤ◌, nonpos, eq_ℤ_iff, Bool, true, false, ◌&&◌, List, [], ◌∷◌, ◌++◌, map, has,
  has-append, has-append_unseen, append_unseen, ok, All, Bool-cases, inl, inr, ◌≡◌, refl, arith,
  if◌then◌else◌,
}
use cascade_feed_ranking_eng.Common.Decimal.{format_int, parse-format_int, IsInt64}
use cascade_feed_ranking_eng.Redis.{
  Client, timeline_key, celebrity_posts_key, celebrity_following_key, tombstones_key,
}
use cascade_feed_ranking_eng.Feed.Candidate.{
  parse_id, parse_ids, unique, exclude, flagged, read_deleted, load,
}

-- An ID as the services write it: a positive int64.
abbrev pub IsId : ℤ → Type 0
IsId i = IsInt64 i × (nonpos i ≡ false)

-- The members that fanout-worker writes are read back.
pub parse-format_ids : (ids : List ℤ) → All IsId ids → parse_ids (map format_int ids) ≡ ok ids
unfolding parse_ids parse_id
parse-format_ids [] h = refl
parse-format_ids (id ∷ ids) h = ground (arith, parse-format_int id h.0.0, parse-format_ids ids h.1)

-- The IDs that are not deleted, in their order.
pub alive : (ℤ → Bool) → List ℤ → List ℤ
alive dead [] = []
alive dead (id ∷ ids) = if dead id then alive dead ids else id ∷ alive dead ids

pub has-flagged :
    (dead : ℤ → Bool) (i : ℤ) (ids : List ℤ)
    → has i (flagged ids (map dead ids)) ≡ (has i ids && dead i)
unfolding has flagged
has-flagged dead i [] = refl
has-flagged dead i (id ∷ ids) = elim (Bool-cases (dead id)) [
  | inl gone ↦ rw (gone, flagged) (ground (arith, has-flagged dead i ids, eq_ℤ_iff id i))
  | inr here ↦ rw (here, flagged) (ground (arith, has-flagged dead i ids, eq_ℤ_iff id i))
]

exclude-alive :
    (dead : ℤ → Bool) (deleted ids : List ℤ)
    → ((i : ℤ) → has i ids ≡ true → has i deleted ≡ dead i)
    → exclude ids deleted ≡ alive dead ids
unfolding has exclude alive
exclude-alive dead deleted [] h = refl
exclude-alive dead deleted (id ∷ ids) h =
    ground (arith, h id, exclude-alive dead deleted ids (λ i k. h i (ground arith)), eq_ℤ_iff id id)

-- SMISMEMBER on the tombstones: one flag for each member, in order. It may change nothing that a
-- later read of the tombstones sees.
pub record IsTombstones {W : Type 0} (client : Client W) (dead : ℤ → Bool) : Type 0 where
  pub flags :
      (ids : List ℤ) (w : W)
      → (client.smismember tombstones_key (map format_int ids) w).0 ≡ ok (map dead ids)

module _ {W : Type 0} (client : Client W) (dead : ℤ → Bool) (t : IsTombstones client dead) where
  read_deleted_lem :
      (ids : List ℤ) (w : W) → (read_deleted client ids w).0 ≡ ok (flagged ids (map dead ids))
  unfolding read_deleted flagged
  read_deleted_lem [] w = refl
  read_deleted_lem (id ∷ ids) w = rw (t.flags (id ∷ ids) w)

  has-deleted :
      (normal celebrities : List ℤ) (i : ℤ)
      → has i (normal ++ celebrities) ≡ true
      → has i (flagged (unique (normal ++ celebrities)) (map dead (unique (normal ++ celebrities))))
        ≡ dead i
  unfolding unique
  has-deleted normal celebrities i h = ground (
    arith,
    has-flagged dead i (append_unseen [] [] (normal ++ celebrities)),
    has-append_unseen (normal ++ celebrities) i,
  )

  -- With a positive limit the candidates are the two timelines, in order and without the deleted
  -- posts, and the followed celebrities as they are stored.
  pub load_lem :
      (user_id limit : ℤ) (normal celebrities followed : List ℤ) (w w₁ : W)
      → nonpos limit ≡ false
      → client.read_feed
          (timeline_key user_id)
          celebrity_posts_key
          (pos 0)
          (limit -ℤ pos 1)
          (celebrity_following_key user_id)
          w
        ≡ (ok (map format_int normal, map format_int celebrities, map format_int followed), w₁)
      → All IsId normal
      → All IsId celebrities
      → All IsId followed
      → (load client user_id limit w).0
        ≡ ok (record {
          normal_ids = alive dead normal;
          celebrity_ids = alive dead celebrities;
          followed_celebrities = followed;
        })
  unfolding load
  load_lem user_id limit normal celebrities followed w w₁ l read n c f =
      let all = unique (normal ++ celebrities) in
      let deleted = flagged all (map dead all) in
      rw (l, read)
        (rw (parse-format_ids normal n, parse-format_ids celebrities c, parse-format_ids followed f)
          (rw (
            read_deleted_lem all w₁,
            exclude-alive dead deleted normal (λ i h.
                has-deleted normal celebrities i (ground (arith, has-append i normal celebrities))),
            exclude-alive dead deleted celebrities (λ i h.
                has-deleted normal celebrities i (ground (arith, has-append i normal celebrities))),
          )))
