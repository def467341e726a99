-- ===== src/Posts/Cache/RoundTrip.antt =====
-- services/post-service/internal/cache/redis.go: GetMany after SetMany.
use mathlib.Core.List.{Memᴰ}
use cascade_feed_ranking_eng.Common.{
  ℤ, eq_ℤ, eq_ℤ_refl, false, some, List, [], ◌∷◌, map, Map, lookup, insert, lookup-insert, has,
  Distinct, All, All-imp, All-zip, ok, ◌≡◌, refl, sym, ap, ◌∙◌, subst, arith, floor_div,
}
use cascade_feed_ranking_eng.Common.Decimal.{IsInt64}
use cascade_feed_ranking_eng.Database.Answers.{All-Mem}
use cascade_feed_ranking_eng.Redis.{set, text, post_key}
use cascade_feed_ranking_eng.Feed.{from_milli}
use cascade_feed_ranking_eng.Posts.{Post}
use cascade_feed_ranking_eng.Posts.Cache.{
  ValueJson, RedisCache, to_value, of_value, read_cached, set_many, get_many,
}
use cascade_feed_ranking_eng.Posts.Cache.Stored.{
  Strings, put_all, IsStrings, IsReadBack, raw_of, entries, raw_of-read, set_commands-entries,
  put_all-Mem,
}

module _ (json : ValueJson) where
  -- The entries of the map that GetMany makes.
  insert_all : List Post → Map Post → Map Post
  insert_all [] m = m
  insert_all (p ∷ posts) m = insert_all posts (insert p.id (of_value (to_value p)) m)

  read_cached-insert_all :
      (posts : List Post) (m : Map Post)
      → All (IsReadBack json) posts
      → read_cached json (map (λ p. p.id) posts) (map (λ p. text (raw_of json p)) posts) m
        ≡ ok (insert_all posts m)
  unfolding read_cached insert_all
  read_cached-insert_all [] m h = refl
  read_cached-insert_all (p ∷ posts) m h =
      rw ((raw_of-read json p h.0).1, read_cached)
        (read_cached-insert_all posts (insert p.id (of_value (to_value p)) m) h.1)

  lookup-insert_all-other :
      (i : ℤ) (posts : List Post) (m : Map Post)
      → has i (map (λ p. p.id) posts) ≡ false
      → lookup i (insert_all posts m) ≡ lookup i m
  unfolding insert_all has
  lookup-insert_all-other i [] m h = refl
  lookup-insert_all-other i (p ∷ posts) m h =
      let other : eq_ℤ p.id i ≡ false = ground arith in
      lookup-insert_all-other i posts (insert p.id (of_value (to_value p)) m) (ground arith)
      ∙ rw (lookup-insert, other) refl

  lookup-insert_all :
      (p : Post) (posts : List Post) (m : Map Post)
      → Memᴰ p posts
      → Distinct (map (λ p. p.id) posts)
      → lookup p.id (insert_all posts m) ≡ some (of_value (to_value p))
  unfolding insert_all
  lookup-insert_all p [] m h d = elim h [ ]
  lookup-insert_all p (q ∷ posts) m (Memᴰ.head same) d =
      subst (λ x. lookup x.id (insert_all (q ∷ posts) m) ≡ some (of_value (to_value x))) (sym same)
        (lookup-insert_all-other q.id posts (insert q.id (of_value (to_value q)) m) d.0
          ∙ rw (lookup-insert, eq_ℤ_refl) refl)
  lookup-insert_all p (q ∷ posts) m (Memᴰ.tail h) d =
      lookup-insert_all p posts (insert q.id (of_value (to_value q)) m) h d.1

values_same :
    (json : ValueJson) (s : Strings) (posts : List Post)
    → All (λ p. s (post_key p.id) ≡ text (raw_of json p)) posts
    → map s (map post_key (map (λ p. p.id) posts)) ≡ map (λ p. text (raw_of json p)) posts
values_same json s [] h = refl
values_same json s (p ∷ posts) h = rw (h.0, values_same json s posts h.1) refl

module _ {W : Type 0} (c : RedisCache W) (strings : W → Strings)
    (law : IsStrings c.client strings) where
  set_many-strings :
      (posts : List Post) (w : W)
      → All (IsReadBack c.json) posts
      → (set_many c posts w).0 ≡ ok tt
      → strings (set_many c posts w).1 ≡ put_all (entries c.json posts) (strings w)
  unfolding set_many entries
  set_many-strings [] w h done = refl
  set_many-strings (p ∷ posts) w h done =
      let sets = map (λ e. set e.0 e.1 c.ttl) (entries c.json (p ∷ posts)) in
      let run : set_many c (p ∷ posts) w ≡ c.client.pipeline sets w =
        rw (set_commands-entries c.json c.ttl (p ∷ posts) h) refl in
      ap (λ x. strings x.1) run
      ∙ law.stored (entries c.json (p ∷ posts)) c.ttl w (sym (ap (λ x. x.0) run) ∙ done)

  get_many-insert_all :
      (posts : List Post) (w : W)
      → All (IsReadBack c.json) posts
      → All (λ p. strings w (post_key p.id) ≡ text (raw_of c.json p)) posts
      → (get_many c (map (λ p. p.id) posts) w).0 ≡ ok (insert_all c.json posts [])
  unfolding get_many insert_all
  get_many-insert_all [] w h held = refl
  get_many-insert_all (p ∷ posts) w h held =
      let all = p ∷ posts in
      let answer =
        law.answers (map post_key (map (λ q. q.id) all)) w
        ∙ ap ok (values_same c.json (strings w) all held) in
      rw answer (read_cached-insert_all c.json all [] h)

  -- What SetMany has stored without an error GetMany reads back, while the keys of the posts are
  -- unchanged: each post with its time cut to whole milliseconds. The posts have different int64 IDs,
  -- and the JSON text of each is read back as it was written.
  pub get_many-set_many :
      (posts : List Post) (w w₁ : W)
      → All (IsReadBack c.json) posts
      → All (λ p. IsInt64 p.id) posts
      → Distinct (map (λ p. p.id) posts)
      → (set_many c posts w).0 ≡ ok tt
      → All (λ p. strings w₁ (post_key p.id) ≡ strings (set_many c posts w).1 (post_key p.id)) posts
      → (result : Map Post) × ((get_many c (map (λ p. p.id) posts) w₁).0 ≡ ok result)
        × All
            (λ p.
              lookup p.id result
              ≡ some (record p { created_at = from_milli (floor_div p.created_at 1000000) }))
            posts
  unfolding to_value of_value
  get_many-set_many posts w w₁ h b d done kept =
      let held =
        All-imp _ (λ p. strings w₁ (post_key p.id) ≡ text (raw_of c.json p))
          (λ p (same, m).
            same
            ∙ ap (λ s. s (post_key p.id)) (set_many-strings posts w h done)
            ∙ put_all-Mem c.json p posts (strings w) m b d)
          posts (All-zip _ (λ p. Memᴰ p posts) posts kept (All-Mem posts)) in
      (
        insert_all c.json posts [],
        get_many-insert_all posts w₁ h held,
        All-imp (λ p. Memᴰ p posts) _ (λ p m. lookup-insert_all c.json p posts [] m d) posts
            (All-Mem posts),
      )
