-- ===== src/Posts/Repository/Owner.antt =====
-- Who may delete a post, in postgres.go's Delete.
use cascade_feed_ranking_eng.Common.{
  ℤ, eq_ℤ, eq_ℤ_iff, Option, none, some, forbidden, ok, continue-ok, Bool-cases, ◌≡◌, sym, ap,
  raise, if◌then◌else◌, ◌∙◌, inl, inr, arith,
}
use cascade_feed_ranking_eng.Posts.Repository.{
  Sql, mark_and_commit, with_rollback, delete_owned, delete_in_tx, delete,
}

module _ {W : Type 0} (sql : Sql W) where
  owned :
      (post_id user_id author_id at : ℤ) (found : Option ℤ) (w : W)
      → (delete_owned sql post_id user_id found w).0 ≡ ok (author_id, at)
      → (author_id ≡ user_id)
        × (found ≡ some user_id)
        × ((sql.soft_delete post_id w).0 ≡ ok at)
        × ((sql.commit (sql.soft_delete post_id w).1).0 ≡ ok tt)
  unfolding delete_owned mark_and_commit
  owned post_id user_id author_id at none w h = cc
  owned post_id user_id author_id at (some a) w h = elim (Bool-cases (eq_ℤ a user_id)) [
    | inr foreign ↦ absurd (ground arith)
    | inl own ↦
        let step = ap (λ b. (if b then mark_and_commit sql post_id a else raise forbidden) w) own in
        let (when, marked, committing) =
          continue-ok (sql.soft_delete post_id w) _ (author_id, at)
            (sym (ap (λ x. x.0) step) ∙ h) in
        let (_, done, last) =
          continue-ok (sql.commit (sql.soft_delete post_id w).1) _ (author_id, at) committing in
        let same_author : a ≡ author_id = ground arith in
        let same_time : when ≡ at = ground arith in
        let user : a ≡ user_id = (eq_ℤ_iff a user_id).0 own in
        (sym same_author ∙ user, ap some user, marked ∙ ap ok same_time, done)
  ]

  -- Delete reports success only for the author of the post: the row that was locked names the user
  -- as its author, the row was marked at the time that is returned, and the transaction was
  -- committed.
  pub delete-owner :
      (post_id user_id author_id at : ℤ) (w : W)
      → (delete sql post_id user_id w).0 ≡ ok (author_id, at)
      → let begun = (sql.begin_tx w).1 in
        let locked = (sql.select_author post_id begun).1 in
        (author_id ≡ user_id)
        × ((sql.select_author post_id begun).0 ≡ ok (some user_id))
        × ((sql.soft_delete post_id locked).0 ≡ ok at)
        × ((sql.commit (sql.soft_delete post_id locked).1).0 ≡ ok tt)
  unfolding delete with_rollback delete_in_tx
  delete-owner post_id user_id author_id at w h =
      let (_, begun, rest) = continue-ok (sql.begin_tx w) _ (author_id, at) h in
      let (found, selected, owned_rest) =
        continue-ok (sql.select_author post_id (sql.begin_tx w).1)
          (delete_owned sql post_id user_id) (author_id, at) rest in
      let (same, own, marked, done) =
        owned post_id user_id author_id at found (sql.select_author post_id (sql.begin_tx w).1).1
          owned_rest in
      (same, selected ∙ ap ok own, marked, done)
