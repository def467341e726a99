-- ===== src/Feed/Page/Start.antt =====
-- `pageStart` of server.go: where the page after a cursor begins.
use cascade_feed_ranking_eng.Common.{
  ℕ, zero, suc, ◌+◌, ℤ, eq_ℤ, eq_ℤ_iff, eq_ℤ_refl, has, Distinct, Bool, true, false, ◌&&◌, some,
  List, [], ◌∷◌, map, take, get_elem?, find_index, find_index-first, find_index-map, ◌∙◌, All, ◌≡◌,
  arith,
}
use cascade_feed_ranking_eng.Feed.{Post, RankedPost, unix_milli}
use cascade_feed_ranking_eng.Feed.Float.{Float64}
use cascade_feed_ranking_eng.Feed.Cursor.{Cursor}
use cascade_feed_ranking_eng.Feed.Page.{is_cursor_post, page_start}

abbrev pub ids : List Post → List ℤ
ids = map (λ p. p.id)

-- The first loop's test depends on the post alone.
post_at : ℤ → ℤ → Post → Bool
post_at ms id p = eq_ℤ p.id id && eq_ℤ (unix_milli p.created_at) ms

has-get_elem? :
    (ps : List Post) (i : ℕ) (p : Post) → get_elem? ps i ≡ some p → has p.id (ids ps) ≡ true
unfolding has
has-get_elem? [] i p h = cc
has-get_elem? (q ∷ qs) zero p h = ground (arith, eq_ℤ_refl p.id)
has-get_elem? (q ∷ qs) (suc i) p h = ground (arith, has-get_elem? qs i p h)

-- Among posts with different IDs only the post itself matches.
before_differ :
    (ps : List Post) (i : ℕ) (p : Post) (ms : ℤ)
    → Distinct (ids ps)
    → get_elem? ps i ≡ some p
    → All (λ q. post_at ms p.id q ≡ false) (take i ps)
unfolding post_at
before_differ [] i p ms d h = cc
before_differ (q ∷ qs) zero p ms d h = tt
before_differ (q ∷ qs) (suc i) p ms d h =
    (ground (arith, eq_ℤ_iff q.id p.id, has-get_elem? qs i p h), before_differ qs i p ms d.1 h)

find_post :
    (ps : List Post) (i : ℕ) (p : Post)
    → Distinct (ids ps)
    → get_elem? ps i ≡ some p
    → find_index (post_at (unix_milli p.created_at) p.id) ps ≡ some i
unfolding post_at
find_post ps i p d h =
    find_index-first (post_at (unix_milli p.created_at) p.id) ps i p h
      (ground (arith, eq_ℤ_refl p.id, eq_ℤ_refl (unix_milli p.created_at)))
      (before_differ ps i p (unix_milli p.created_at) d h)

module _ (fl : Float64) where
  -- While the post that a cursor names is among the ranked posts, the page starts behind it,
  -- whatever its score has become.
  pub page_start-cursor :
      (ranked : List (RankedPost fl.F)) (ps : List Post) (c : Cursor fl.F) (i : ℕ) (p : Post)
      → map (λ r. r.post) ranked ≡ ps
      → Distinct (ids ps)
      → get_elem? ps i ≡ some p
      → c.post_id ≡ p.id
      → c.created_at_unix_ms ≡ unix_milli p.created_at
      → page_start fl ranked (some c) ≡ i + 1
  unfolding page_start is_cursor_post post_at
  page_start-cursor ranked ps c i p e d h same_id same_ms =
      let found : find_index (is_cursor_post fl c) ranked ≡ some i =
        find_index-map (λ r. r.post) (post_at c.created_at_unix_ms c.post_id) ranked
        ∙ rw (e, same_id, same_ms) (find_post ps i p d h) in
      rw (found, page_start)
