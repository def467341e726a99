-- ===== src/Feed/Candidate/Listed.antt =====
-- What the statements of candidate/postgres.go select from the tables.
use mathlib.Core.List.{Memᴰ}
use cascade_feed_ranking_eng.Common.{
  nonpos, other, reject, ℤ, pos_part, eq_ℤ, eq_ℤ_iff, true, false, List, map, take, has, All,
  All-imp, All-take, ok, Result, Exec, Error, continue-ok, Option-cases, ◌≡◌, refl, ◌∙◌, ap, subst,
  inl, inr, arith,
}
use cascade_feed_ranking_eng.Common.Sort.{sort_slice, All-sort_slice}
use cascade_feed_ranking_eng.Common.SortKeys.{has-All}
use cascade_feed_ranking_eng.Database.{Rows, all_rows, Tables, UserRow, FollowRow, PostRow, join}
use cascade_feed_ranking_eng.Database.Answers.{
  read_rows-same, All-Mem, All-map, filter-All, All-join,
}
use cascade_feed_ranking_eng.Feed.{CandidateSet}
use cascade_feed_ranking_eng.Feed.Candidate.Postgres.{
  Postgres, ids, observe, query, load, newer_row, newest_ids, normal_rows, select_normal_ids,
  select_celebrity_ids, followed_rows, select_followed_ids,
}

module _ (t : Tables) where
  -- A post of the table that is not deleted.
  abbrev pub IsLive : PostRow → Type 0
  IsLive p = Memᴰ p t.posts × (p.is_deleted ≡ false)

  abbrev pub IsFollower : ℤ → ℤ → Type 0
  IsFollower user_id author_id =
      (f : FollowRow) × Memᴰ f t.follows × (f.follower_id ≡ user_id) × (f.followee_id ≡ author_id)

  newest_ids-All :
      (P : PostRow → Type 0) (limit i : ℤ) (rows : List PostRow)
      → All P rows
      → has i (newest_ids limit rows) ≡ true
      → (p : PostRow) × (p.id ≡ i) × P p
  unfolding newest_ids
  newest_ids-All P limit i rows h listed =
      has-All (λ p. p.id) P i (take (pos_part limit) (sort_slice newer_row rows))
        (All-take P (pos_part limit) (sort_slice newer_row rows)
          (All-sort_slice newer_row P rows h))
        listed

  abbrev IsPost : PostRow → Type 0
  IsPost p = Memᴰ p t.posts

  abbrev IsFollow : FollowRow → Type 0
  IsFollow f = Memᴰ f t.follows

  abbrev IsUser : UserRow → Type 0
  IsUser u = Memᴰ u t.users

  -- A follow of the post's author by the user.
  abbrev IsNormalRow : ℤ → (PostRow × FollowRow) × UserRow → Type 0
  IsNormalRow user_id r = IsLive r.0.0 × IsFollower user_id r.0.0.author_id

  normal_rows-All : (user_id : ℤ) → All (IsNormalRow user_id) (normal_rows t user_id)
  unfolding normal_rows
  normal_rows-All user_id =
      let on_follow = λ (p : PostRow) (f : FollowRow). eq_ℤ f.followee_id p.author_id in
      let joined =
        All-join IsPost IsFollow on_follow t.posts t.follows (All-Mem t.posts)
          (All-Mem t.follows) in
      let with_user =
        All-join _ IsUser (λ r u. eq_ℤ u.id r.0.author_id) (join t.posts t.follows on_follow)
          t.users joined (All-Mem t.users) in
      All-imp _ (IsNormalRow user_id)
        (λ r h.
          let (((post, follow, on_author), user, on_user), chosen) = h in
          (
            (post, ground arith),
            (
              r.0.1,
              follow,
              (eq_ℤ_iff r.0.1.follower_id user_id).0 (ground arith),
              (eq_ℤ_iff r.0.1.followee_id r.0.0.author_id).0 on_author,
            ),
          ))
        (normal_rows t user_id)
        (filter-All _ _
          (join (join t.posts t.follows on_follow) t.users (λ r u. eq_ℤ u.id r.0.author_id))
          with_user)

  -- A normal candidate is a live post by an author whom the user follows.
  pub normal_ids_lem :
      (user_id limit i : ℤ)
      → has i (select_normal_ids t user_id limit) ≡ true
      → (p : PostRow) × (p.id ≡ i) × (IsLive p × IsFollower user_id p.author_id)
  unfolding select_normal_ids
  normal_ids_lem user_id limit i listed =
      newest_ids-All (λ p. IsLive p × IsFollower user_id p.author_id) limit i
        (map (λ r. r.0.0) (normal_rows t user_id))
        (All-map _ (λ r. r.0.0) (normal_rows t user_id) (normal_rows-All user_id)) listed

  followed_rows-All :
      (user_id : ℤ) → All (λ r. IsFollower user_id r.0.followee_id) (followed_rows t user_id)
  unfolding followed_rows
  followed_rows-All user_id =
      let on_user = λ (f : FollowRow) (u : UserRow). eq_ℤ u.id f.followee_id in
      let joined =
        All-join IsFollow IsUser on_user t.follows t.users (All-Mem t.follows) (All-Mem t.users) in
      All-imp _ (λ r. IsFollower user_id r.0.followee_id)
        (λ r h.
          let ((follow, user, on), chosen) = h in
          (r.0, follow, (eq_ℤ_iff r.0.follower_id user_id).0 (ground arith), refl))
        (followed_rows t user_id) (filter-All _ _ (join t.follows t.users on_user) joined)

  pub followed_ids_lem :
      (user_id i : ℤ) → has i (select_followed_ids t user_id) ≡ true → IsFollower user_id i
  unfolding select_followed_ids
  followed_ids_lem user_id i listed =
      let (r, same, follower) =
        has-All (λ r. r.0.followee_id) (λ r. IsFollower user_id r.0.followee_id) i
          (followed_rows t user_id) (followed_rows-All user_id) listed in
      subst (IsFollower user_id) same follower

-- The answers to the three statements while the tables stay as they are: a query may fail, and its
-- rows may break off, but rows that are complete are those of the statement.
pub record IsAnswering {W : Type 0} (p : Postgres W) (t : Tables) : Type 0 where
  pub normal :
      (user_id limit : ℤ) (rows : List ℤ) (w : W)
      → (p.query_normal user_id limit w).0 ≡ ok (all_rows rows)
      → rows ≡ select_normal_ids t user_id limit
  pub celebrities :
      (limit : ℤ) (rows : List ℤ) (w : W)
      → (p.query_celebrities limit w).0 ≡ ok (all_rows rows)
      → rows ≡ select_celebrity_ids t limit
  pub followed :
      (user_id : ℤ) (rows : List ℤ) (w : W)
      → (p.query_followed user_id w).0 ≡ ok (all_rows rows)
      → rows ≡ select_followed_ids t user_id

module _ {W : Type 0} (p : Postgres W) where
  observe-ok : (w : W) → (observe p w).0 ≡ ok tt
  unfolding observe
  observe-ok w = elim (Option-cases p.on_query) [
    | inl absent ↦ rw (absent, observe) refl
    | inr (f, present) ↦ rw (present, observe) refl
  ]

  query-ok :
      (m : Exec W Error (Rows ℤ)) (xs : List ℤ) (w : W)
      → (query p m w).0 ≡ ok xs
      → (m w).0 ≡ ok (all_rows xs)
  unfolding query ids
  query-ok m xs w h =
      let (found, got, rest) = continue-ok (ids m w) _ xs h in
      let (_, seen, last) = continue-ok (observe p (ids m w).1) _ xs rest in
      let same : found ≡ xs = cc in
      let (rows, answer, read) = continue-ok (m w) _ found got in
      answer ∙ ap ok (read_rows-same rows xs (read ∙ ap ok same))

  module _ (t : Tables) (answers : IsAnswering p t) where
    -- An answer of Load holds the IDs that the three statements select.
    pub load-selected :
        (user_id limit : ℤ) (c : CandidateSet) (w : W)
        → (load p user_id limit w).0 ≡ ok c
        → (c.normal_ids ≡ select_normal_ids t user_id limit)
          × (c.celebrity_ids ≡ select_celebrity_ids t limit)
          × (c.followed_celebrities ≡ select_followed_ids t user_id)
    unfolding load
    load-selected user_id limit c w h =
        let m₀ : Result Error (Unit {0}) × W = reject (nonpos limit) other w in
        let (_, positive, h₁) = continue-ok m₀ _ c h in
        let m₁ = query p (p.query_normal user_id limit) m₀.1 in
        let (normal, got₁, h₂) = continue-ok m₁ _ c h₁ in
        let m₂ = query p (p.query_celebrities limit) m₁.1 in
        let (celebrities, got₂, h₃) = continue-ok m₂ _ c h₂ in
        let m₃ = query p (p.query_followed user_id) m₂.1 in
        let (followed, got₃, last) = continue-ok m₃ _ c h₃ in
        let same : record {
          normal_ids = normal;
          celebrity_ids = celebrities;
          followed_celebrities = followed;
        }
            ≡ c =
          cc in
        subst
          (λ s.
            (s.normal_ids ≡ select_normal_ids t user_id limit)
            × (s.celebrity_ids ≡ select_celebrity_ids t limit)
            × (s.followed_celebrities ≡ select_followed_ids t user_id))
          same
          (
            answers.normal user_id limit normal m₀.1
                (query-ok (p.query_normal user_id limit) normal m₀.1 got₁),
            answers.celebrities limit celebrities m₁.1
                (query-ok (p.query_celebrities limit) celebrities m₁.1 got₂),
            answers.followed user_id followed m₂.1
                (query-ok (p.query_followed user_id) followed m₂.1 got₃),
          )
