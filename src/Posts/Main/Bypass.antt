-- ===== src/Posts/Main/Bypass.antt =====
-- The Post Service with POST_BYPASS_CACHE: server.go over repository/postgres.go and noop.go.
use cascade_feed_ranking_eng.Common.{
  ℤ, eq_ℤ, eq_ℤ_iff, true, false, Option, none, some, List, [], ◌∷◌, map, Map, lookup, insert, has,
  Distinct, is_empty, ok, Result, Error, Exec, Bool-cases, if◌then◌else◌, ◌≡◌, refl, sym, ap, ◌∙◌,
  inl, inr, arith, ◌||◌, ◌&&◌,
}
use cascade_feed_ranking_eng.Common.MapKeys.{keys}
use cascade_feed_ranking_eng.Redis.{Client}
use cascade_feed_ranking_eng.Fanout.Consumer.{Record}
use cascade_feed_ranking_eng.Database.{filter}
use cascade_feed_ranking_eng.Posts.{Post}
use cascade_feed_ranking_eng.Posts.Server.{any_nonpos, add_hydrated, get_posts}
use cascade_feed_ranking_eng.Posts.Server.Reads.{
  IsStore, stored_posts, get_posts_lem, overlay-none, lookup-add_hydrated,
}
use cascade_feed_ranking_eng.Posts.Repository.{Sql, by_id, get_by_ids}
use cascade_feed_ranking_eng.Posts.Config.{Config}
use cascade_feed_ranking_eng.Posts.Cache.Noop as Noop
use cascade_feed_ranking_eng.Posts.Main.{Libraries, noop_cache, post_cache, new_server}

module _ (live : List Post) where
  -- The post with this ID.
  unfoldable pub post_at : ℤ → Option Post
  post_at i = lookup i (map (λ p. (p.id, p)) live)

  -- SELECT ... WHERE id = ANY($1) AND deleted_at IS NULL, where `live` are the posts that are not
  -- deleted.
  abbrev pub select_ids : List ℤ → List Post
  select_ids ids = filter (λ p. has p.id ids) live

by_id-add_hydrated :
    (rows : List Post) (m : Map Post) → by_id rows m ≡ add_hydrated (map (λ p. (p.id, p)) rows) m
unfolding by_id add_hydrated
by_id-add_hydrated [] m = refl
by_id-add_hydrated (p ∷ rows) m = by_id-add_hydrated rows (insert p.id p m)

has-insert :
    (i k : ℤ) (v : Post) (m : Map Post) → has i (keys (insert k v m)) ≡ (eq_ℤ k i || has i (keys m))
unfolding has insert
has-insert i k v [] = refl
has-insert i k v ((j, u) ∷ m) =
    ground (arith, has-insert i k v m, eq_ℤ_iff j k, eq_ℤ_iff j i, eq_ℤ_iff k i)

insert-Distinct :
    (k : ℤ) (v : Post) (m : Map Post) → Distinct (keys m) → Distinct (keys (insert k v m))
unfolding has insert
insert-Distinct k v [] d = (refl, tt)
insert-Distinct k v ((j, u) ∷ m) d = elim (Bool-cases (eq_ℤ j k)) [
  | inl here ↦ rw (here, insert) (ground (arith, eq_ℤ_iff j k), d.1)
  | inr below ↦
      rw (below, insert)
        (ground (arith, has-insert j k v m, eq_ℤ_iff k j, eq_ℤ_iff j k), insert-Distinct k v m d.1)
]

by_id-Distinct :
    (rows : List Post) (m : Map Post) → Distinct (keys m) → Distinct (keys (by_id rows m))
unfolding by_id
by_id-Distinct [] m d = d
by_id-Distinct (p ∷ rows) m d = by_id-Distinct rows (insert p.id p m) (insert-Distinct p.id p m d)

module _ (ids : List ℤ) where
  has-select_ids :
      (i : ℤ) (live : List Post)
      → has i (keys (map (λ p. (p.id, p)) (select_ids live ids)))
        ≡ (has i ids && has i (keys (map (λ p. (p.id, p)) live)))
  unfolding has filter
  has-select_ids i [] = ground arith
  has-select_ids i (p ∷ live) = elim (Bool-cases (has p.id ids)) [
    | inl asked ↦ rw (asked, filter) (ground (arith, has-select_ids i live, eq_ℤ_iff p.id i))
    | inr other_id ↦ rw (other_id, filter) (ground (arith, has-select_ids i live, eq_ℤ_iff p.id i))
  ]

  select_ids-Distinct :
      (live : List Post)
      → Distinct (keys (map (λ p. (p.id, p)) live))
      → Distinct (keys (map (λ p. (p.id, p)) (select_ids live ids)))
  unfolding has filter
  select_ids-Distinct [] d = tt
  select_ids-Distinct (p ∷ live) d = elim (Bool-cases (has p.id ids)) [
    | inl asked ↦
        rw (asked, filter) (ground (arith, has-select_ids p.id live), select_ids-Distinct live d.1)
    | inr other_id ↦ rw (other_id, filter) (select_ids-Distinct live d.1)
  ]

  lookup-select_ids :
      (i : ℤ) (live : List Post)
      → lookup i (map (λ p. (p.id, p)) (select_ids live ids))
        ≡ (if has i ids then post_at live i else none)
  unfolding lookup filter post_at
  lookup-select_ids i [] = ground arith
  lookup-select_ids i (p ∷ live) = elim (Bool-cases (has p.id ids)) [
    | inl asked ↦ rw (asked, filter) (ground (arith, lookup-select_ids i live, eq_ℤ_iff p.id i))
    | inr other_id ↦
        rw (other_id, filter) (ground (arith, lookup-select_ids i live, eq_ℤ_iff p.id i))
  ]

-- The query of GetByIDs is answered from the posts that are not deleted, which have different IDs.
pub record IsQuery {W : Type 0} (sql : Sql W) (live : List Post) : Type 0 where
  pub answers : (ids : List ℤ) (w : W) → (sql.query_posts ids w).0 ≡ ok (select_ids live ids)
  pub distinct : Distinct (keys (map (λ p. (p.id, p)) live))

module _ {W : Type 0} (sql : Sql W) (live : List Post) (law : IsQuery sql live) where
  get_by_ids-stored :
      (ids : List ℤ) (w : W)
      → (m : Map Post) × ((get_by_ids sql ids w).0 ≡ ok m)
        × Distinct (keys m)
        × ((i : ℤ) → lookup i m ≡ (if has i ids then post_at live i else none))
  unfolding get_by_ids has lookup
  get_by_ids-stored [] w = ([], refl, tt, λ i. refl)
  get_by_ids-stored (x ∷ ids) w =
      let rows = select_ids live (x ∷ ids) in
      (
        by_id rows [],
        rw (law.answers (x ∷ ids) w) refl,
        by_id-Distinct rows [] tt,
        λ i.
            ap (lookup i) (by_id-add_hydrated rows [])
            ∙ lookup-add_hydrated i (map (λ p. (p.id, p)) rows) []
                (select_ids-Distinct (x ∷ ids) live law.distinct)
            ∙ overlay-none (lookup i (map (λ p. (p.id, p)) rows))
            ∙ lookup-select_ids (x ∷ ids) i live,
      )

  module _ (libs : Libraries W) (cfg : Config) (bypassed : cfg.bypass_cache ≡ true) where
    no_cache : (client : Client W) → post_cache libs cfg client ≡ noop_cache
    unfolding post_cache
    no_cache client = rw bypassed refl

    empty_map :
        (i : ℤ) (p : Post) (m : Map Post)
        → ◌≡◌ {A = Result Error (Map Post)} (ok []) (ok m)
        → lookup i m ≡ some p
        → ⊥
    unfolding lookup
    empty_map i p m answer found =
        let same : [] ≡ m = cc in let missing : lookup i m ≡ none = ap (lookup i) (sym same) in cc

    new_server-IsStore :
        (client : Client W) (produce : Record → Exec W Error (Unit {0}))
        → IsStore (new_server libs cfg sql client produce) (post_at live)
    unfolding new_server Noop.get_many noop_cache lookup
    new_server-IsStore client produce = record {
      cached = λ ids w m i p h found. absurd (
          let answer = ap (λ c. (c.get_many ids w).0) (sym (no_cache client)) ∙ h in
          empty_map i p m answer found);
      stored = get_by_ids-stored;
    }

    -- With POST_BYPASS_CACHE, GetPosts of the server that main puts together answers a list of positive
    -- IDs with the posts of the database that are not deleted, in the order of the request. The query
    -- is answered without an error from posts with different IDs.
    pub bypassed_get_posts :
        (client : Client W) (produce : Record → Exec W Error (Unit {0})) (ids : List ℤ) (w : W)
        → is_empty ids ≡ false
        → any_nonpos ids ≡ false
        → (get_posts (new_server libs cfg sql client produce) ids w).0
          ≡ ok (stored_posts (post_at live) ids)
    bypassed_get_posts client produce ids w filled positive =
        get_posts_lem (new_server libs cfg sql client produce) (post_at live)
          (new_server-IsStore client produce) ids w filled positive
