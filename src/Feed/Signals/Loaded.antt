-- ===== src/Feed/Signals/Loaded.antt =====
-- services/feed-service/internal/signals/postgres.go: what the map that `Load` returns holds for a
-- post.
use mathlib.Core.List.{Memᴰ, map-id}
use cascade_feed_ranking_eng.Common.{
  ℤ, pos, eq_ℤ, eq_ℤ_iff, eq_ℤ_refl, false, Option, none, some, List, [], ◌∷◌, map, Map, lookup,
  insert, lookup-insert, has, Distinct, ok, Bool-cases, if◌then◌else◌, ◌≡◌, refl, sym, ◌∙◌, ap, inl,
  inr, arith, All, All-imp, Option-cases, subst,
}
use cascade_feed_ranking_eng.Common.SortKeys.{has-Mem}
use cascade_feed_ranking_eng.Common.MapKeys.{keys, lookup-absent}
use cascade_feed_ranking_eng.Database.{all_rows, read_rows}
use cascade_feed_ranking_eng.Database.Answers.{All-Mem, read_rows_all}
use cascade_feed_ranking_eng.Feed.{Post, Signal}
use cascade_feed_ranking_eng.Feed.Float.{Float64}
use cascade_feed_ranking_eng.Feed.Signals.{
  Database, default_signals, signal_at, add_engagement, affinity_map, add_affinity, author_ids,
  load_some, load,
}

-- The value of a row, if there is one.
abbrev or_else : {A : Type 0} → Option A → Option A → Option A
or_else none other = other
or_else (some a) other = some a

or_else-none : {A : Type 0} (o : Option A) → or_else o none ≡ o
or_else-none none = refl
or_else-none (some a) = refl

module _ {W : Type 0} (fl : Float64) (db : Database W fl.F) where
  open fl use {F}

  -- The map of the affinities is the rows, each author having one.
  lookup-affinity_map :
      (a : ℤ) (rows : Map F) (m : Map F)
      → Distinct (keys rows)
      → lookup a (affinity_map fl db rows m) ≡ or_else (lookup a rows) (lookup a m)
  unfolding affinity_map lookup
  lookup-affinity_map a [] m h = refl
  lookup-affinity_map a ((k, v) ∷ rows) m h = elim (Bool-cases (eq_ℤ k a)) [
    | inl here ↦
        let same : k ≡ a = (eq_ℤ_iff k a).0 here in
        let absent : lookup a rows ≡ none = lookup-absent a rows (rw (sym same) h.0) in
        lookup-affinity_map a rows (insert k v m) h.1 ∙ rw (absent, lookup-insert, here) refl
    | inr other ↦ lookup-affinity_map a rows (insert k v m) h.1 ∙ rw (lookup-insert, other) refl
  ]

  -- The signal after the row of its post, if there is one.
  abbrev counted : Option (ℤ × ℤ) → Signal F → Signal F
  counted none s = s
  counted (some (likes, comments)) s = record s { likes = likes; comments = comments }

  signal_at-found :
      (j : ℤ) (s : Signal F) (m : Map (Signal F)) → lookup j m ≡ some s → signal_at fl db j m ≡ s
  unfolding signal_at
  signal_at-found j s m at = rw (signal_at, at) refl

  lookup-add_engagement :
      (j : ℤ) (rows : Map (ℤ × ℤ)) (s : Signal F) (m : Map (Signal F))
      → Distinct (keys rows)
      → lookup j m ≡ some s
      → lookup j (add_engagement fl db rows m) ≡ some (counted (lookup j rows) s)
  unfolding add_engagement lookup
  lookup-add_engagement j [] s m h at = at
  lookup-add_engagement j ((k, (likes, comments)) ∷ rows) s m h at = elim (Bool-cases (eq_ℤ k j)) [
    | inl here ↦
        let same : k ≡ j = (eq_ℤ_iff k j).0 here in
        let absent : lookup j rows ≡ none = lookup-absent j rows (rw (sym same) h.0) in
        lookup-add_engagement j rows (counted (some (likes, comments)) s) _ h.1
          (rw (lookup-insert, here, same, signal_at-found j s m at) refl)
        ∙ rw (absent, here) refl
    | inr other ↦
        lookup-add_engagement j rows s _ h.1 (rw (lookup-insert, other) at) ∙ rw other refl
  ]

  -- Every post has the default at first.
  abbrev default : Signal F
  default = record { likes = pos 0; comments = pos 0; affinity = db.affinity_default }

  lookup-default_signals :
      (j : ℤ) (posts : List Post) (m : Map (Signal F))
      → lookup j (default_signals fl db posts m)
        ≡ (if has j (map (λ p. p.id) posts) then some default else lookup j m)
  unfolding default_signals has
  lookup-default_signals j [] m = refl
  lookup-default_signals j (p ∷ posts) m = elim (Bool-cases (eq_ℤ p.id j)) [
    | inl here ↦
        lookup-default_signals j posts (insert p.id default m)
        ∙ rw (lookup-insert, here) (ground arith)
    | inr other ↦
        lookup-default_signals j posts (insert p.id default m) ∙ rw (lookup-insert, other) refl
  ]

  -- The signal with the affinity of its post's author, if there is one.
  abbrev liked : Option F → Signal F → Signal F
  liked none s = s
  liked (some value) s = record s { affinity = value }

  module _ (affinity : Map F) where
    lookup-add_affinity-other :
        (j : ℤ) (posts : List Post) (m : Map (Signal F))
        → has j (map (λ p. p.id) posts) ≡ false
        → lookup j (add_affinity fl db affinity posts m) ≡ lookup j m
    unfolding add_affinity has
    lookup-add_affinity-other j [] m h = refl
    lookup-add_affinity-other j (p ∷ posts) m h =
        let other : eq_ℤ p.id j ≡ false = ground arith in
        let absent : has j (map (λ q. q.id) posts) ≡ false = ground arith in
        elim (Option-cases (lookup p.author_id affinity)) [
          | inl unknown ↦ rw (unknown, add_affinity) (lookup-add_affinity-other j posts m absent)
          | inr (value, known) ↦
              rw (known, add_affinity)
                (lookup-add_affinity-other j posts _ absent ∙ rw (lookup-insert, other) refl)
        ]

    lookup-add_affinity-head :
        (p : Post) (posts : List Post) (s : Signal F) (m : Map (Signal F))
        → has p.id (map (λ q. q.id) posts) ≡ false
        → lookup p.id m ≡ some s
        → lookup p.id (add_affinity fl db affinity (p ∷ posts) m)
          ≡ some (liked (lookup p.author_id affinity) s)
    unfolding add_affinity
    lookup-add_affinity-head p posts s m new at =
        elim (Option-cases (lookup p.author_id affinity)) [
          | inl unknown ↦
              rw (unknown, add_affinity) (lookup-add_affinity-other p.id posts m new ∙ at)
          | inr (value, known) ↦
              rw (known, add_affinity)
                (lookup-add_affinity-other p.id posts _ new
                  ∙ rw (lookup-insert, eq_ℤ_refl, signal_at-found p.id s m at) refl)
        ]

    lookup-add_affinity :
        (p : Post) (posts : List Post) (s : Signal F) (m : Map (Signal F))
        → Memᴰ p posts
        → Distinct (map (λ q. q.id) posts)
        → lookup p.id m ≡ some s
        → lookup p.id (add_affinity fl db affinity posts m)
          ≡ some (liked (lookup p.author_id affinity) s)
    unfolding add_affinity has
    lookup-add_affinity p [] s m h d at = elim h [ ]
    lookup-add_affinity p (q ∷ posts) s m (Memᴰ.head same) d at =
        subst
          (λ x.
            lookup x.id m ≡ some s
            → lookup x.id (add_affinity fl db affinity (q ∷ posts) m)
              ≡ some (liked (lookup x.author_id affinity) s))
          (sym same) (lookup-add_affinity-head q posts s m d.0) at
    lookup-add_affinity p (q ∷ posts) s m (Memᴰ.tail h) d at =
        let other : eq_ℤ q.id p.id ≡ false =
          ground (arith, d.0, has-Mem (λ q. q.id) p posts h, eq_ℤ_iff q.id p.id) in
        elim (Option-cases (lookup q.author_id affinity)) [
          | inl unknown ↦ rw (unknown, add_affinity) (lookup-add_affinity p posts s m h d.1 at)
          | inr (value, known) ↦
              rw (known, add_affinity)
                (lookup-add_affinity p posts s _ h d.1 (rw (lookup-insert, other) at))
        ]

  read_rows_same : {A : Type 0} (rows : List A) → read_rows (λ row. row) (all_rows rows) ≡ ok rows
  read_rows_same rows = read_rows_all (λ row. row) rows ∙ ap ok (map-id rows)

  abbrev ids : List Post → List ℤ
  ids posts = map (λ p. p.id) posts

  module _ (posts : List Post) (counts : Map (ℤ × ℤ)) (affinities : Map F) where
    loaded : Map (Signal F)
    loaded =
        add_affinity fl db (affinity_map fl db affinities []) posts
          (add_engagement fl db counts (default_signals fl db posts []))

    IsLoaded : Post → Type 0
    IsLoaded p =
        lookup p.id loaded
        ≡ some (liked (lookup p.author_id affinities) (counted (lookup p.id counts) default))

    post_signals :
        (p : Post)
        → Distinct (keys counts)
        → Distinct (keys affinities)
        → Distinct (ids posts)
        → Memᴰ p posts
        → IsLoaded p
    unfolding IsLoaded loaded lookup
    post_signals p dc da dp h =
        let listed : lookup p.id (default_signals fl db posts []) ≡ some default =
          lookup-default_signals p.id posts [] ∙ rw (has-Mem (λ q. q.id) p posts h) refl in
        let with_counts = lookup-add_engagement p.id counts default _ dc listed in
        let rows =
          lookup-affinity_map p.author_id affinities [] da
          ∙ or_else-none (lookup p.author_id affinities) in
        lookup-add_affinity (affinity_map fl db affinities []) p posts _ _ h dp with_counts
        ∙ rw rows refl

  -- If both queries are answered in full, with at most one row for each post and for each author, Load of
  -- posts with different IDs gives each post the counts of its row in the answer to the first, or 0,
  -- and the affinity of its author's row in the answer to the second, or the default.
  pub load_signals :
      (viewer_id : ℤ) (post : Post) (posts : List Post) (counts : Map (ℤ × ℤ)) (affinities : Map F)
      (w w₁ w₂ : W)
      → db.engagement_rows (ids (post ∷ posts)) w ≡ (ok (all_rows counts), w₁)
      → db.affinity_rows viewer_id (author_ids fl db (post ∷ posts)) (db.observe w₁)
        ≡ (ok (all_rows affinities), w₂)
      → Distinct (keys counts)
      → Distinct (keys affinities)
      → Distinct (ids (post ∷ posts))
      → (result : Map (Signal F)) × (load fl db viewer_id (post ∷ posts) w
          ≡ (ok result, db.observe w₂))
        × All
            (λ p.
              lookup p.id result
              ≡ some (liked (lookup p.author_id affinities) (counted (lookup p.id counts) default)))
            (post ∷ posts)
  unfolding load load_some IsLoaded loaded
  load_signals viewer_id post posts counts affinities w w₁ w₂ hc ha dc da dp =
      let all = post ∷ posts in
      (
        loaded all counts affinities,
        rw (hc, read_rows_same counts, ha, read_rows_same affinities) refl,
        All-imp (λ p. Memᴰ p all) (IsLoaded all counts affinities)
            (λ p m. post_signals all counts affinities p dc da dp m) all (All-Mem all),
      )
