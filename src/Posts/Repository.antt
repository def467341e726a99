-- ===== src/Posts/Repository.antt =====
-- services/post-service/internal/repository/postgres.go: the statements around its SQL. The
-- statements themselves are the parameter `Sql`; a row that is not there is `none`.
pub mod Owner
use cascade_feed_ranking_eng.Common.{
  ℤ, eq_ℤ, Option, none, some, List, [], ◌∷◌, Map, insert, Bytes, Error, not_found, forbidden,
  Result, ok, err, Exec, pure, raise, ◌>>=◌, ◌>>◌, if◌then◌else◌,
}
use cascade_feed_ranking_eng.Posts.{Post}

pub record Sql (W : Type 0) : Type 0 where
  pub begin_tx : Exec W Error (Unit {0})
  pub commit : Exec W Error (Unit {0})
  -- no effect after a commit
  pub rollback : W → W
  pub insert_post : ℤ → Bytes → Bytes → Exec W Error Post
  -- SELECT author_id ... FOR UPDATE of a post that is not deleted
  pub select_author : ℤ → Exec W Error (Option ℤ)
  -- UPDATE ... SET deleted_at, which returns the time
  pub soft_delete : ℤ → Exec W Error ℤ
  pub query_posts : List ℤ → Exec W Error (List Post)

-- The loop over the rows of GetByIDs.
unfoldable pub by_id : List Post → Map Post → Map Post
by_id [] posts = posts
by_id (p ∷ rows) posts = by_id rows (insert p.id p posts)

module _ {W : Type 0} (sql : Sql W) where
  -- `defer tx.Rollback(...)`
  unfoldable pub with_rollback : {A : Type 0} → Exec W Error A → Exec W Error A
  with_rollback m w = ((m w).0, sql.rollback (m w).1)

  unfoldable pub insert_and_commit : ℤ → Bytes → Bytes → Exec W Error Post
  insert_and_commit author_id content media_url = do
    p ← sql.insert_post author_id content media_url
    sql.commit
    pure p

  unfoldable pub create : ℤ → Bytes → Bytes → Exec W Error Post
  create author_id content media_url = do
    sql.begin_tx
    with_rollback (insert_and_commit author_id content media_url)

  unfoldable pub get_by_ids : List ℤ → Exec W Error (Map Post)
  get_by_ids [] = pure []
  get_by_ids (id ∷ ids) = do rows ← sql.query_posts (id ∷ ids); pure (by_id rows [])

  unfoldable pub mark_and_commit : ℤ → ℤ → Exec W Error (ℤ × ℤ)
  mark_and_commit post_id author_id = do
    deleted_at ← sql.soft_delete post_id
    sql.commit
    pure (author_id, deleted_at)

  -- After the author is read.
  unfoldable pub delete_owned : ℤ → ℤ → Option ℤ → Exec W Error (ℤ × ℤ)
  delete_owned post_id user_id none = raise not_found
  delete_owned post_id user_id (some author_id) =
      if eq_ℤ author_id user_id then mark_and_commit post_id author_id else raise forbidden

  unfoldable pub delete_in_tx : ℤ → ℤ → Exec W Error (ℤ × ℤ)
  delete_in_tx post_id user_id = do
    author ← sql.select_author post_id
    delete_owned post_id user_id author

  unfoldable pub delete : ℤ → ℤ → Exec W Error (ℤ × ℤ)
  delete post_id user_id = do sql.begin_tx; with_rollback (delete_in_tx post_id user_id)
