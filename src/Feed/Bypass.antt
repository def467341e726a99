-- ===== src/Feed/Bypass.antt =====
-- The Feed Service with FEED_BYPASS_CACHE: candidate/postgres.go and hydrator/postgres.go under
-- `selectPosts`.
use mathlib.Core.List.{Memᴰ}
use cascade_feed_ranking_eng.Common.{
  ℕ, ℤ, pos, lt_ℤ, true, false, not, ◌&&◌, some, List, [], ◌∷◌, Map, lookup, insert, has, All,
  All-imp, ok, continue-ok, ◌≡◌, refl, sym, ◌∙◌, ap, subst, inl, inr, ◌⊎◌, Bool-cases, arith,
}
use cascade_feed_ranking_eng.Common.MapKeys.{Entries, Entries-insert, Entries-lookup}
use cascade_feed_ranking_eng.Database.{read_rows, all_rows, Tables, PostRow, filter}
use cascade_feed_ranking_eng.Database.Answers.{read_rows-same, All-Mem, All-map, filter-All}
use cascade_feed_ranking_eng.Feed.{Post, CandidateSet}
use cascade_feed_ranking_eng.Feed.Candidate.Listed.{
  IsLive, IsFollower, IsAnswering, normal_ids_lem, followed_ids_lem, load-selected,
}
use cascade_feed_ranking_eng.Feed.Hydrator.{unique}
use cascade_feed_ranking_eng.Feed.Hydrator.Postgres.{
  Postgres, post_map, load, observe, hydrate_unique, hydrate, to_post, select_posts_by_id,
}
use cascade_feed_ranking_eng.Feed.Candidate.Postgres as Candidates
use cascade_feed_ranking_eng.Feed.Page.Start.{ids}
use cascade_feed_ranking_eng.Feed.Select.{merge_ids, select_posts}
use cascade_feed_ranking_eng.Feed.Select.Eligible.{IsKeyed, is_eligible}
use cascade_feed_ranking_eng.Feed.Select.Newest.{select_posts_sound}

-- Complete rows are those of the statement, while the tables stay as they are.
pub record IsPostQuery {W : Type 0} (h : Postgres W) (t : Tables) : Type 0 where
  pub answers :
      (asked : List ℤ) (rows : List Post) (w : W)
      → (h.query_posts asked w).0 ≡ ok (all_rows rows)
      → rows ≡ select_posts_by_id t asked

module _ (t : Tables) where
  -- The post of a row that is not deleted, under the row's ID.
  abbrev IsStored : ℤ → Post → Type 0
  IsStored i q = (p : PostRow) × IsLive t p × (p.id ≡ i) × (q ≡ to_post p)

  selected-IsStored : (asked : List ℤ) → All (λ q. IsStored q.id q) (select_posts_by_id t asked)
  unfolding select_posts_by_id to_post
  selected-IsStored asked =
      let chosen =
        filter-All (λ p. Memᴰ p t.posts) (λ p. has p.id asked && not p.is_deleted) t.posts
          (All-Mem t.posts) in
      All-map (λ q. IsStored q.id q) to_post
        (filter (λ p. has p.id asked && not p.is_deleted) t.posts)
        (All-imp _ _ (λ p h. (p, (h.0, ground arith), refl, refl))
          (filter (λ p. has p.id asked && not p.is_deleted) t.posts) chosen)

  post_map-Entries :
      (rows : List Post) (m : Map Post)
      → All (λ q. IsStored q.id q) rows
      → Entries IsStored m
      → Entries IsStored (post_map rows m)
  unfolding post_map
  post_map-Entries [] m h e = e
  post_map-Entries (q ∷ rows) m h e =
      post_map-Entries rows (insert q.id q m) h.1 (Entries-insert IsStored q.id q m h.0 e)

eligible_cases :
    (c : CandidateSet) (m : Map Post) (i : ℤ) (q : Post)
    → lookup i m ≡ some q
    → is_eligible c m i ≡ true
    → (has i c.normal_ids ≡ true) ⊎ (has q.author_id c.followed_celebrities ≡ true)
eligible_cases c m i q found e = elim (Bool-cases (has i c.normal_ids)) [
  | inl normal ↦ inl normal
  | inr foreign ↦ inr (ground arith)
]

module _ {W : Type 0} (h : Postgres W) (t : Tables) (law : IsPostQuery h t) where
  load-Entries :
      (asked : List ℤ) (m : Map Post) (w : W) → (load h asked w).0 ≡ ok m → Entries (IsStored t) m
  unfolding load
  load-Entries asked m w d =
      let (rows, got, rest) = continue-ok (h.query_posts asked w) _ m d in
      let (posts, read, last) =
        continue-ok (read_rows (λ q. q) rows, (h.query_posts asked w).1) _ m rest in
      let same : post_map posts [] ≡ m = cc in
      let answered = law.answers asked posts w (got ∙ ap ok (read_rows-same rows posts read)) in
      subst (Entries (IsStored t)) same (
        post_map-Entries t posts []
          (subst (All (λ q. IsStored t q.id q)) (sym answered) (selected-IsStored t asked)) tt)

  hydrate_unique-Entries :
      (asked : List ℤ) (m : Map Post) (hits misses : ℕ) (w : W)
      → (hydrate_unique h asked w).0 ≡ ok (m, hits, misses)
      → Entries (IsStored t) m
  unfolding hydrate_unique
  hydrate_unique-Entries [] m hits misses w d =
      let same : [] ≡ m = cc in subst (Entries (IsStored t)) same tt
  hydrate_unique-Entries (id ∷ asked) m hits misses w d =
      let (posts, got, rest) = continue-ok (load h (id ∷ asked) w) _ (m, hits, misses) d in
      let (_, seen, last) =
        continue-ok (observe h (load h (id ∷ asked) w).1) _ (m, hits, misses) rest in
      let same : posts ≡ m = cc in
      subst (Entries (IsStored t)) same (load-Entries (id ∷ asked) posts w got)

  hydrated-IsStored :
      (asked : List ℤ) (m : Map Post) (hits misses : ℕ) (w : W) (i : ℤ) (q : Post)
      → (hydrate h asked w).0 ≡ ok (m, hits, misses)
      → lookup i m ≡ some q
      → IsStored t i q
  unfolding hydrate
  hydrated-IsStored asked m hits misses w i q d found =
      Entries-lookup (IsStored t) i q m (hydrate_unique-Entries (unique asked) m hits misses w d)
        found

  hydrated-IsKeyed :
      (asked : List ℤ) (m : Map Post) (hits misses : ℕ) (w : W)
      → (hydrate h asked w).0 ≡ ok (m, hits, misses)
      → IsKeyed m
  unfolding to_post
  hydrated-IsKeyed asked m hits misses w d i q found =
      let (p, live, same_id, made) = hydrated-IsStored asked m hits misses w i q d found in
      ap (λ x. x.id) made ∙ same_id

  -- With FEED_BYPASS_CACHE, a post that is selected for a feed is in the table of posts with this
  -- content, is not deleted, and is by an author whom the viewer follows. The tables have unique post
  -- IDs and stay as they are; the queries may fail or their rows may break off, and the rows that are
  -- complete are those of their statements.
  pub bypass_sound :
      (c : Candidates.Postgres W)
      → IsAnswering c t
      → ((a b : PostRow) → Memᴰ a t.posts → Memᴰ b t.posts → a.id ≡ b.id → a ≡ b)
      → (user_id limit : ℤ) (candidates : CandidateSet) (m : Map Post) (hits misses : ℕ) (w w' : W)
      → (Candidates.load c user_id limit w).0 ≡ ok candidates
      → (hydrate h (merge_ids candidates.normal_ids candidates.celebrity_ids) w').0
        ≡ ok (m, hits, misses)
      → lt_ℤ limit (pos 0) ≡ false
      → (i : ℤ) (q : Post) → has i (ids (select_posts candidates m limit)) ≡ true
      → lookup i m ≡ some q
      → (p : PostRow) × IsLive t p × (p.id ≡ i) × (q ≡ to_post p) × IsFollower t user_id p.author_id
  unfolding to_post
  bypass_sound c answers unique_ids user_id limit candidates m hits misses w w' loaded hydrated l i
        q chosen found =
      let asked = merge_ids candidates.normal_ids candidates.celebrity_ids in
      let (p, live, same_id, made) = hydrated-IsStored asked m hits misses w' i q hydrated found in
      let (normal, celebrities, followed) =
        load-selected c t answers user_id limit candidates w loaded in
      let eligible =
        select_posts_sound m (hydrated-IsKeyed asked m hits misses w' hydrated) candidates limit i l
          chosen in
      let by_author : q.author_id ≡ p.author_id = ap (λ x. x.author_id) made in
      elim (eligible_cases candidates m i q found eligible) [
        | inl listed ↦
            let (row, row_id, (row_live, follows)) =
              normal_ids_lem t user_id limit i (subst (λ l. has i l ≡ true) normal listed) in
            let same_row = unique_ids row p row_live.0 live.0 (row_id ∙ sym same_id) in
            (p, live, same_id, made, subst (λ r. IsFollower t user_id r.author_id) same_row follows)
        | inr star ↦
            let follows =
              followed_ids_lem t user_id q.author_id
                (subst (λ l. has q.author_id l ≡ true) followed star) in
            (p, live, same_id, made, subst (IsFollower t user_id) by_author follows)
      ]
