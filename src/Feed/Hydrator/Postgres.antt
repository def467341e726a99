-- ===== src/Feed/Hydrator/Postgres.antt =====
-- services/feed-service/internal/hydrator/postgres.go: post bodies from one SELECT statement, for
-- FEED_BYPASS_CACHE. A time in UTC is the same time.
use cascade_feed_ranking_eng.Common.{
  ℕ, ℤ, not, ◌&&◌, Option, none, some, List, [], ◌∷◌, map, Map, insert, has, length, Error, ok,
  Exec, pure, lift, ◌>>=◌, ◌>>◌,
}
use cascade_feed_ranking_eng.Database.{Rows, read_rows, Tables, PostRow, filter, coalesce}
use cascade_feed_ranking_eng.Feed.{Post}
use cascade_feed_ranking_eng.Feed.Hydrator.{unique}

pub record Postgres (W : Type 0) : Type 0 where
  pub query_posts : List ℤ → Exec W Error (Rows Post)
  pub on_query : Option (W → W)

-- `posts[post.ID] = post` for each row.
unfoldable pub post_map : List Post → Map Post → Map Post
post_map [] posts = posts
post_map (post ∷ rows) posts = post_map rows (insert post.id post posts)

module _ {W : Type 0} (h : Postgres W) where
  -- The function of NewPostgres.
  unfoldable pub load : List ℤ → Exec W Error (Map Post)
  load ids = do
    rows ← h.query_posts ids
    posts ← lift (read_rows (λ post. post) rows)
    pure (post_map posts [])

  unfoldable pub observe : Exec W Error (Unit {0})
  observe w = elim h.on_query [ none ↦ (ok tt, w) | some f ↦ (ok tt, f w) ]

  unfoldable pub hydrate_unique : List ℤ → Exec W Error (Map Post × ℕ × ℕ)
  hydrate_unique [] = pure ([], 0, 0)
  hydrate_unique (id ∷ ids) = do
    posts ← load (id ∷ ids)
    observe
    pure (posts, 0, length (id ∷ ids))

  unfoldable pub hydrate : List ℤ → Exec W Error (Map Post × ℕ × ℕ)
  hydrate ids = hydrate_unique (unique ids)

unfoldable pub to_post : PostRow → Post
to_post p = record {
  id = p.id;
  author_id = p.author_id;
  content = p.content;
  media_url = coalesce p.media_url;
  created_at = p.created_at;
}

-- SELECT ... WHERE id = ANY($1) AND deleted_at IS NULL
unfoldable pub select_posts_by_id : Tables → List ℤ → List Post
select_posts_by_id t ids = map to_post (filter (λ p. has p.id ids && not p.is_deleted) t.posts)
