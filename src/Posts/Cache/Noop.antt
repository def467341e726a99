-- ===== src/Posts/Cache/Noop.antt =====
-- services/post-service/internal/cache/noop.go: the cache of POST_BYPASS_CACHE, which has no posts.
use cascade_feed_ranking_eng.Common.{ℤ, List, [], Map, Error, Exec, pure}
use cascade_feed_ranking_eng.Posts.{Post}

module _ {W : Type 0} where
  unfoldable pub set_post : Post → Exec W Error (Unit {0})
  set_post p = pure tt

  unfoldable pub set_many : List Post → Exec W Error (Unit {0})
  set_many posts = pure tt

  unfoldable pub get_many : List ℤ → Exec W Error (Map Post)
  get_many ids = pure []

  unfoldable pub delete_and_tombstone : ℤ → Exec W Error (Unit {0})
  delete_and_tombstone post_id = pure tt
