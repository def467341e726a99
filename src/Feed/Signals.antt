-- ===== src/Feed/Signals.antt =====
-- services/feed-service/internal/signals/postgres.go: `Load` over its two grouped queries, which are
-- parameters: engagement rows `(post, (likes, comments))` and affinity rows `(author, value)`.
pub mod Loaded
use cascade_feed_ranking_eng.Common.{
  ℤ, pos, none, some, List, [], ◌∷◌, map, Map, lookup, insert, append_unseen, Error, ok, Exec, pure,
  lift, ◌>>◌, ◌>>=◌,
}
use cascade_feed_ranking_eng.Database.{Rows, read_rows}
use cascade_feed_ranking_eng.Feed.{Post, Signal}
use cascade_feed_ranking_eng.Feed.Float.{Float64}

pub record Database (W F : Type 0) : Type 0 where
  pub engagement_rows : List ℤ → Exec W Error (Rows (ℤ × (ℤ × ℤ)))
  pub affinity_rows : ℤ → List ℤ → Exec W Error (Rows (ℤ × F))
  pub affinity_default : F
  -- `observe("signals")`: the query counter
  pub observe : W → W

module _ {W : Type 0} (fl : Float64) (db : Database W fl.F) where
  open fl use {F, of_int}

  unfoldable pub default_signals : List Post → Map (Signal F) → Map (Signal F)
  default_signals [] result = result
  default_signals (post ∷ posts) result = default_signals posts (
      insert post.id (record { likes = pos 0; comments = pos 0; affinity = db.affinity_default })
        result)

  -- `result[postID]`, the zero Signal where there is none.
  unfoldable pub signal_at : ℤ → Map (Signal F) → Signal F
  signal_at id result = elim (lookup id result) [
    | none ↦ record { likes = pos 0; comments = pos 0; affinity = of_int (pos 0) }
    | some s ↦ s
  ]

  unfoldable pub add_engagement : List (ℤ × (ℤ × ℤ)) → Map (Signal F) → Map (Signal F)
  add_engagement [] result = result
  add_engagement ((id, (likes, comments)) ∷ rows) result =
      let signal = signal_at id result in
      add_engagement rows (insert id (record signal { likes = likes; comments = comments }) result)

  unfoldable pub affinity_map : List (ℤ × F) → Map F → Map F
  affinity_map [] affinity = affinity
  affinity_map ((author, value) ∷ rows) affinity = affinity_map rows (insert author value affinity)

  unfoldable pub add_affinity : Map F → List Post → Map (Signal F) → Map (Signal F)
  add_affinity affinity [] result = result
  add_affinity affinity (post ∷ posts) result = elim (lookup post.author_id affinity) [
    | none ↦ add_affinity affinity posts result
    | some value ↦
        let signal = signal_at post.id result in
        add_affinity affinity posts (insert post.id (record signal { affinity = value }) result)
  ]

  -- The keys of `authorSet`, in the order of their first post (Go promises none).
  unfoldable pub author_ids : List Post → List ℤ
  author_ids posts = append_unseen [] [] (map (λ p. p.author_id) posts)

  unfoldable pub load_some : ℤ → List Post → Exec W Error (Map (Signal F))
  load_some viewer_id posts = do
    engagements ← db.engagement_rows (map (λ p. p.id) posts)
    λ w. (ok tt, db.observe w)
    rows ← lift (read_rows (λ row. row) engagements)
    interactions ← db.affinity_rows viewer_id (author_ids posts)
    λ w. (ok tt, db.observe w)
    affinities ← lift (read_rows (λ row. row) interactions)
    pure (
        add_affinity (affinity_map affinities []) posts
          (add_engagement rows (default_signals posts [])))

  unfoldable pub load : ℤ → List Post → Exec W Error (Map (Signal F))
  load viewer_id [] = pure []
  load viewer_id (post ∷ posts) = load_some viewer_id (post ∷ posts)
