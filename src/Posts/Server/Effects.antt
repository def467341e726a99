-- ===== src/Posts/Server/Effects.antt =====
-- CreatePost and DeletePost of server.go: the commit in the database decides, and what follows it
-- is best effort.
use cascade_feed_ranking_eng.Common.{
  ℤ, nonpos, Bool, true, false, ◌||◌, Option, none, some, Error, Result, ok, err, Result-cases,
  Bool-cases, Exec, ◌≡◌, refl, inl, inr,
}
use cascade_feed_ranking_eng.Posts.{Post}
use cascade_feed_ranking_eng.Posts.Server.{
  Server, CreatePostRequest, DeletePostRequest, Code, code_invalid_argument, delete_error,
  validate_create, best_effort, create_post, delete_post,
}

-- The same service with another cache and another publisher.
abbrev pub with_effects :
    {W : Type 0}
    → Server W
    → (Post → Exec W Error (Unit {0}))
    → (Post → Exec W Error (Unit {0}))
    → (ℤ → Exec W Error (Unit {0}))
    → (ℤ → ℤ → ℤ → Exec W Error (Unit {0}))
    → Server W
with_effects s set created tombstone deleted = record s {
  set = set;
  publish_created = created;
  delete_and_tombstone = tombstone;
  publish_deleted = deleted;
}

module _ {W : Type 0} (s : Server W) (set created : Post → Exec W Error (Unit {0}))
    (tombstone : ℤ → Exec W Error (Unit {0})) (deleted : ℤ → ℤ → ℤ → Exec W Error (Unit {0})) where
  create_post_best_effort :
      (req : Option CreatePostRequest) (w : W)
      → (create_post (with_effects s set created tombstone deleted) req w).0
        ≡ (create_post s req w).0
  unfolding create_post best_effort
  create_post_best_effort none w = refl
  create_post_best_effort (some req) w = elim (Result-cases (validate_create s.text req)) [
    | inr (c, bad) ↦ rw bad refl
    | inl (tt, good) ↦
        elim (Result-cases
          (s.create req.author_id (s.text.trim_space req.content) (s.text.trim_space req.media_url)
            w).0) [
              | inr (e, failed) ↦ rw (good, failed) refl
              | inl (p, made) ↦ rw (good, made) refl
            ]
  ]

  delete_post_best_effort :
      (req : Option DeletePostRequest) (w : W)
      → (delete_post (with_effects s set created tombstone deleted) req w).0
        ≡ (delete_post s req w).0
  unfolding delete_post best_effort
  delete_post_best_effort none w = refl
  delete_post_best_effort (some req) w =
      elim (Bool-cases (nonpos req.post_id || nonpos req.requesting_user_id)) [
        | inl bad ↦ rw bad refl
        | inr good ↦ elim (Result-cases (s.delete req.post_id req.requesting_user_id w).0) [
          | inr (e, failed) ↦ rw (good, failed) refl
          | inl ((author_id, at), done) ↦ rw (good, done) refl
        ]
      ]

  -- What the cache and the publisher do, failing included, changes nothing in the answers of
  -- CreatePost and DeletePost.
  pub answers_best_effort :
      (creation : Option CreatePostRequest) (deletion : Option DeletePostRequest) (w : W)
      → ((create_post (with_effects s set created tombstone deleted) creation w).0
          ≡ (create_post s creation w).0)
        × ((delete_post (with_effects s set created tombstone deleted) deletion w).0
            ≡ (delete_post s deletion w).0)
  answers_best_effort creation deletion w =
      (create_post_best_effort creation w, delete_post_best_effort deletion w)

-- Why DeletePost refuses: in this world the request is bad, or the database says so.
module _ {W : Type 0} (s : Server W) (req : DeletePostRequest) (w : W) where
  abbrev is_bad : Bool
  is_bad = nonpos req.post_id || nonpos req.requesting_user_id

  -- The outcomes of DeletePost.
  pub data Deleted : Result Code Bool × W → Type 0 where
    bad_request : is_bad ≡ true → Deleted (err code_invalid_argument, w)
    kept :
        (e : Error)
        → is_bad ≡ false
        → (s.delete req.post_id req.requesting_user_id w).0 ≡ err e
        → Deleted (err (delete_error e), (s.delete req.post_id req.requesting_user_id w).1)
    gone :
        (author_id at : ℤ) (w₁ : W)
        → is_bad ≡ false
        → (s.delete req.post_id req.requesting_user_id w).0 ≡ ok (author_id, at)
        → w₁
          ≡ (s.delete_and_tombstone req.post_id (s.delete req.post_id req.requesting_user_id w).1).1
        → Deleted (ok true, (s.publish_deleted req.post_id author_id at w₁).1)

  -- DeletePost succeeds only if the database has deleted the post for the requesting user, and then
  -- the cache entry goes before the event is published, with the author and the time that the
  -- database gave. Otherwise no event is published and the cache is not touched.
  pub delete_post-Deleted : Deleted (delete_post s (some req) w)
  unfolding delete_post best_effort
  delete_post-Deleted = elim (Bool-cases is_bad) [
    | inl bad ↦ rw bad (bad_request bad)
    | inr good ↦ elim (Result-cases (s.delete req.post_id req.requesting_user_id w).0) [
      | inr (e, failed) ↦ rw (good, failed) (kept e good failed)
      | inl ((author_id, at), done) ↦ rw (good, done) (gone author_id at _ good done refl)
    ]
  ]
