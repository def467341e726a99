-- ===== src/Feed/Hydrator/Sound.antt =====
-- What Hydrate of redis_post.go returns, whatever the cache and Post Service answer.
use cascade_feed_ranking_eng.Common.{
  ℕ, ℤ, nonpos, eq_ℤ, eq_ℤ_iff, Bool, true, false, not, ◌||◌, Option, none, some, List, [], ◌∷◌,
  ◌++◌, map, Map, lookup, insert, has, has-append_unseen, length, ok, Result-cases, continue-ok,
  All, All-append, Bool-cases, Option-cases, ◌≡◌, refl, sym, ◌∙◌, subst, inl, inr, arith,
}
use cascade_feed_ranking_eng.Common.MapKeys.{Entries, Entries-insert, Entries-lookup}
use cascade_feed_ranking_eng.Common.Decimal.{format_int}
use cascade_feed_ranking_eng.Common.SortKeys.{All-has, has-subset}
use cascade_feed_ranking_eng.Redis.{post_key, tombstones_key, Value, nil, text, unexpected}
use cascade_feed_ranking_eng.Feed.{Post, from_milli}
use cascade_feed_ranking_eng.Feed.Select.Eligible.{IsKeyed}
use cascade_feed_ranking_eng.Feed.Hydrator.{
  CachedPost, PostJson, RedisPost, from_cache, unique, unflagged, check_cached, read_values,
  remove_id, take_posts, without_tombstones, backfill, fill_missing, hydrate_live, hydrate,
}

-- The post stands under its own ID, has an author, and was made at a whole millisecond after 1970.
pub IsHydrated : ℤ → Post → Type 0
IsHydrated id p =
    (p.id ≡ id)
    × (nonpos p.author_id ≡ false)
    × ((ms : ℤ) × (p.created_at ≡ from_milli ms) × (nonpos ms ≡ false))

module _ (asked : List ℤ) where
  -- An entry of the result: a post that was asked for.
  abbrev pub IsAnswer : ℤ → Post → Type 0
  IsAnswer id p = IsHydrated id p × (has id asked ≡ true)

  from_cache-IsAnswer :
      (id : ℤ) (cached : CachedPost)
      → cached.id ≡ id
      → nonpos cached.author_id ≡ false
      → nonpos cached.created_at_unix_ms ≡ false
      → has id asked ≡ true
      → IsAnswer id (from_cache cached)
  unfolding IsHydrated from_cache
  from_cache-IsAnswer id cached same author ms here =
      ((same, author, (cached.created_at_unix_ms, refl, ms)), here)

  check_cached-some :
      (json : PostJson) (id : ℤ) (value : Value) (cached : CachedPost)
      → check_cached json id value ≡ ok (some cached)
      → (cached.id ≡ id)
        × (nonpos cached.author_id ≡ false)
        × (nonpos cached.created_at_unix_ms ≡ false)
  unfolding check_cached
  check_cached-some json id nil cached h = cc
  check_cached-some json id unexpected cached h = cc
  check_cached-some json id (text raw) cached h = elim (Option-cases (json.unmarshal raw)) [
    | inl bad ↦ absurd (ground arith)
    | inr (c, good) ↦ ground (arith, eq_ℤ_iff c.id id)
  ]

  Answers : Map Post × List ℤ → Type 0
  Answers r = Entries IsAnswer r.0 × All (λ i. has i asked ≡ true) r.1

  read_values-answers :
      (json : PostJson) (ids : List ℤ) (values : List Value) (result : Map Post) (missing : List ℤ)
      (r : Map Post × List ℤ)
      → read_values json ids values result missing ≡ ok r
      → All (λ i. has i asked ≡ true) ids
      → Entries IsAnswer result
      → All (λ i. has i asked ≡ true) missing
      → Entries IsAnswer r.0 × All (λ i. has i asked ≡ true) r.1
  unfolding read_values Answers
  read_values-answers json [] values result missing r h a e m =
      let same : (result, missing) ≡ r = cc in subst Answers same (e, m)
  read_values-answers json (id ∷ ids) [] result missing r h a e m =
      let same : (result, missing) ≡ r = cc in subst Answers same (e, m)
  read_values-answers json (id ∷ ids) (value ∷ values) result missing r h a e m =
      elim (Result-cases (check_cached json id value)) [
        | inr (x, bad) ↦ absurd (ground arith)
        | inl (none, absent) ↦
            let step : read_values json (id ∷ ids) (value ∷ values) result missing
                ≡ read_values json ids values result (missing ++ id ∷ []) =
              rw (absent, read_values) refl in
            read_values-answers json ids values result (missing ++ id ∷ []) r (sym step ∙ h) a.1 e
              (All-append (λ i. has i asked ≡ true) missing (id ∷ []) m (a.0, tt))
        | inl (some cached, found) ↦
            let (same, author, ms) = check_cached-some json id value cached found in
            let step : read_values json (id ∷ ids) (value ∷ values) result missing
                ≡ read_values json ids values (insert id (from_cache cached) result) missing =
              rw (found, read_values) refl in
            read_values-answers json ids values (insert id (from_cache cached) result) missing r
              (sym step ∙ h) a.1
              (Entries-insert IsAnswer id (from_cache cached) result
                (from_cache-IsAnswer id cached same author ms a.0) e)
              m
      ]

  is_refused : List ℤ → CachedPost → Bool
  is_refused missing post =
      not (has post.id missing)
      || nonpos post.id
      || nonpos post.author_id
      || nonpos post.created_at_unix_ms

  accepted :
      (missing : List ℤ) (post : CachedPost)
      → is_refused missing post ≡ false
      → (has post.id missing ≡ true)
        × ((nonpos post.author_id ≡ false) × (nonpos post.created_at_unix_ms ≡ false))
  unfolding is_refused
  accepted missing post good = ground arith

  refused :
      (missing : List ℤ) (post : CachedPost) (posts : List (Option CachedPost)) (result : Map Post)
      (found : List CachedPost) (r : Map Post × List CachedPost)
      → is_refused missing post ≡ true
      → take_posts missing (some post ∷ posts) result found ≡ ok r
      → ⊥
  unfolding is_refused take_posts
  refused missing post posts result found r bad h = ground arith

  All-remove_id :
      (id : ℤ) (xs : List ℤ)
      → All (λ i. has i asked ≡ true) xs
      → All (λ i. has i asked ≡ true) (remove_id id xs)
  unfolding remove_id
  All-remove_id id [] a = tt
  All-remove_id id (x ∷ xs) a = elim (Bool-cases (eq_ℤ x id)) [
    | inl same ↦ rw (same, remove_id) (All-remove_id id xs a.1)
    | inr other_id ↦ rw (other_id, remove_id) (a.0, All-remove_id id xs a.1)
  ]

  take_posts-answers :
      (missing : List ℤ) (posts : List (Option CachedPost)) (result : Map Post)
      (found : List CachedPost) (r : Map Post × List CachedPost)
      → take_posts missing posts result found ≡ ok r
      → All (λ i. has i asked ≡ true) missing
      → Entries IsAnswer result
      → Entries IsAnswer r.0
  unfolding take_posts is_refused
  take_posts-answers missing [] result found r h a e =
      let same : (result, found) ≡ r = cc in subst (λ x. Entries IsAnswer x.0) same e
  take_posts-answers missing (none ∷ posts) result found r h a e =
      take_posts-answers missing posts result found r h a e
  take_posts-answers missing (some post ∷ posts) result found r h a e =
      elim (Bool-cases (is_refused missing post)) [
        | inl bad ↦ absurd (refused missing post posts result found r bad h)
        | inr good ↦
            let (here, (author, ms)) = accepted missing post good in
            let step : take_posts missing (some post ∷ posts) result found
                ≡ take_posts (remove_id post.id missing) posts
                    (insert post.id (from_cache post) result) (found ++ post ∷ []) =
              rw (good, take_posts) refl in
            take_posts-answers (remove_id post.id missing) posts
              (insert post.id (from_cache post) result) (found ++ post ∷ []) r (sym step ∙ h)
              (All-remove_id post.id missing a)
              (Entries-insert IsAnswer post.id (from_cache post) result
                (from_cache-IsAnswer post.id post refl author ms
                  (has-subset post.id missing asked a here))
                e)
      ]

  All-unflagged :
      (ids : List ℤ) (flags : List Bool)
      → All (λ i. has i asked ≡ true) ids
      → All (λ i. has i asked ≡ true) (unflagged ids flags)
  unfolding unflagged
  All-unflagged [] flags a = tt
  All-unflagged (id ∷ ids) [] a = (a.0, All-unflagged ids [] a.1)
  All-unflagged (id ∷ ids) (true ∷ flags) a = All-unflagged ids flags a.1
  All-unflagged (id ∷ ids) (false ∷ flags) a = (a.0, All-unflagged ids flags a.1)

module _ {W : Type 0} (h : RedisPost W) (asked : List ℤ) where
  fill_missing-answers :
      (result : Map Post) (missing : List ℤ) (w : W) (r : Map Post × ℕ × ℕ)
      → (fill_missing h result missing w).0 ≡ ok r
      → Entries (IsAnswer asked) result
      → All (λ i. has i asked ≡ true) missing
      → Entries (IsAnswer asked) r.0
  unfolding fill_missing
  fill_missing-answers result [] w r d e m =
      let same : (result, length result, 0) ≡ r = cc in
      subst (λ x. Entries (IsAnswer asked) x.0) same e
  fill_missing-answers result (id ∷ ids) w r d e m =
      let (response, got, taking) = continue-ok (h.get_posts (id ∷ ids) w) _ r d in
      let (taken, took, filling) =
        continue-ok (take_posts (id ∷ ids) response result [], (h.get_posts (id ∷ ids) w).1) _ r
          taking in
      let (written, wrote, last) =
        continue-ok (backfill h taken.1 (h.get_posts (id ∷ ids) w).1) _ r filling in
      let same : (taken.0, length result, length (id ∷ ids)) ≡ r = cc in
      subst (λ x. Entries (IsAnswer asked) x.0) same
        (take_posts-answers asked (id ∷ ids) response result [] taken took m e)

  hydrate_live-answers :
      (ids : List ℤ) (w : W) (r : Map Post × ℕ × ℕ)
      → (hydrate_live h ids w).0 ≡ ok r
      → All (λ i. has i asked ≡ true) ids
      → Entries (IsAnswer asked) r.0
  unfolding hydrate_live Answers
  hydrate_live-answers [] w r d a =
      let same : ([], 0, 0) ≡ r = cc in subst (λ x. Entries (IsAnswer asked) x.0) same tt
  hydrate_live-answers (id ∷ ids) w r d a =
      let got = h.redis.mget (map post_key (id ∷ ids)) w in
      let (values, found, reading) = continue-ok got _ r d in
      let ((result, missing), read, filling) =
        continue-ok (read_values h.json (id ∷ ids) values [] [], got.1) _ r reading in
      let (answers, left) =
        read_values-answers asked h.json (id ∷ ids) values [] [] (result, missing) read a tt tt in
      fill_missing-answers result missing got.1 r filling answers left

  live-asked :
      (ids live : List ℤ) (w : W)
      → (without_tombstones h ids w).0 ≡ ok live
      → All (λ i. has i asked ≡ true) ids
      → All (λ i. has i asked ≡ true) live
  unfolding without_tombstones
  live-asked [] live w d a =
      let same : [] ≡ live = cc in subst (All (λ i. has i asked ≡ true)) same tt
  live-asked (id ∷ ids) live w d a =
      let (flags, read, last) =
        continue-ok (h.redis.smismember tombstones_key (map format_int (id ∷ ids)) w) _ live d in
      let same : unflagged (id ∷ ids) flags ≡ live = cc in
      subst (All (λ i. has i asked ≡ true)) same (All-unflagged asked (id ∷ ids) flags a)

  -- Every post that Hydrate returns was asked for, stands under its own ID, has a positive author
  -- and was made at a whole and positive millisecond, whatever the cache and Post Service answered:
  -- a malformed or foreign post is an error instead.
  pub hydrate_sound :
      (w : W) (result : Map Post) (hits misses : ℕ) (i : ℤ) (p : Post)
      → (hydrate h asked w).0 ≡ ok (result, hits, misses)
      → lookup i result ≡ some p
      → IsHydrated i p × (has i asked ≡ true)
  unfolding hydrate unique
  hydrate_sound w result hits misses i p d found =
      let (live, left, rest) =
        continue-ok (without_tombstones h (unique asked) w) _ (result, hits, misses) d in
      let asked_all = All-has (unique asked) asked (λ j k. sym (has-append_unseen asked j) ∙ k) in
      Entries-lookup (IsAnswer asked) i p result
        (hydrate_live-answers live (without_tombstones h (unique asked) w).1 (result, hits, misses)
          rest (live-asked (unique asked) live w left asked_all))
        found

  -- The result stands under the posts' own IDs.
  pub hydrate-IsKeyed :
      (w : W) (result : Map Post) (hits misses : ℕ)
      → (hydrate h asked w).0 ≡ ok (result, hits, misses)
      → IsKeyed result
  unfolding IsHydrated
  hydrate-IsKeyed w result hits misses d i p found =
      (hydrate_sound w result hits misses i p d found).0.0
