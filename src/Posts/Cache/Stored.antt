-- ===== src/Posts/Cache/Stored.antt =====
-- services/post-service/internal/cache/redis.go: what SetMany stores.
use mathlib.Core.List.{Memᴰ}
use cascade_feed_ranking_eng.Common.{
  ℤ, eq_ℤ, eq_ℤ_iff, false, none, some, List, [], ◌∷◌, map, has, Distinct, All, drop, Bytes,
  eq_bytes, eq_bytes_refl, eq_bytes→eq, ok, if◌then◌else◌, ◌≡◌, refl, sym, ap, ◌∙◌, subst,
  Bool-cases, inl, inr, arith,
}
use cascade_feed_ranking_eng.Common.Decimal.{format_int, parse_int, parse-format_int, IsInt64}
use cascade_feed_ranking_eng.Redis.{Client, set, Value, text, post_key, key_of}
use cascade_feed_ranking_eng.Posts.{Post}
use cascade_feed_ranking_eng.Posts.Cache.{ValueJson, to_value, encode_post, set_commands}

abbrev pub Strings : Type 0
Strings = Bytes → Value

-- SET of some keys, one after the other.
abbrev pub put : Bytes → Bytes → Strings → Strings
put key raw s = λ k. if eq_bytes key k then text raw else s k

abbrev pub put_all : List (Bytes × Bytes) → Strings → Strings
put_all [] s = s
put_all ((key, raw) ∷ entries) s = put_all entries (put key raw s)

-- What Redis documents of strings: a pipeline of SET that succeeds has stored the values in order, and
-- MGET answers with the values of its keys, in order.
pub record IsStrings {W : Type 0} (client : Client W) (strings : W → Strings) : Type 0 where
  pub stored :
      (entries : List (Bytes × Bytes)) (ttl : ℤ) (w : W)
      → (client.pipeline (map (λ e. set e.0 e.1 ttl) entries) w).0 ≡ ok tt
      → strings (client.pipeline (map (λ e. set e.0 e.1 ttl) entries) w).1
        ≡ put_all entries (strings w)
  pub answers : (keys : List Bytes) (w : W) → (client.mget keys w).0 ≡ ok (map (strings w) keys)

-- The text that Marshal makes of the post's value is read back as it was.
abbrev pub IsReadBack : ValueJson → Post → Type 0
IsReadBack json p =
    (raw : Bytes) × (json.marshal (to_value p) ≡ some raw)
    × (json.unmarshal raw ≡ some (to_value p))

post_key-differs :
    (i j : ℤ)
    → IsInt64 i
    → IsInt64 j
    → eq_ℤ i j ≡ false
    → eq_bytes (post_key i) (post_key j) ≡ false
unfolding post_key key_of
post_key-differs i j a b differ = elim (Bool-cases (eq_bytes (post_key i) (post_key j))) [
  | inl equal ↦
      let texts : format_int i ≡ format_int j =
        ap (λ s. drop 5 s) (eq_bytes→eq (post_key i) (post_key j) equal) in
      let parsed = sym (parse-format_int i a) ∙ ap parse_int texts ∙ parse-format_int j b in
      let same : i ≡ j = cc in absurd (ground (arith, eq_ℤ_iff i j))
  | inr other ↦ other
]

module _ (json : ValueJson) where
  unfoldable pub raw_of : Post → Bytes
  raw_of p = elim (json.marshal (to_value p)) [ none ↦ [] | some raw ↦ raw ]

  unfoldable pub entries : List Post → List (Bytes × Bytes)
  entries posts = map (λ p. (post_key p.id, raw_of p)) posts

  pub raw_of-read :
      (p : Post)
      → IsReadBack json p
      → (encode_post json p ≡ ok (raw_of p)) × (json.unmarshal (raw_of p) ≡ some (to_value p))
  unfolding raw_of encode_post
  raw_of-read p (raw, made, read) = (rw (made, encode_post, raw_of) refl, rw (raw_of, made) read)

  pub set_commands-entries :
      (ttl : ℤ) (posts : List Post)
      → All (IsReadBack json) posts
      → set_commands json ttl posts ≡ ok (map (λ e. set e.0 e.1 ttl) (entries posts))
  unfolding set_commands entries
  set_commands-entries ttl [] h = refl
  set_commands-entries ttl (p ∷ posts) h =
      rw ((raw_of-read p h.0).0, set_commands) (rw (set_commands-entries ttl posts h.1) refl)

  put_all-other :
      (i : ℤ) (posts : List Post) (s : Strings)
      → IsInt64 i
      → All (λ p. IsInt64 p.id) posts
      → has i (map (λ p. p.id) posts) ≡ false
      → put_all (entries posts) s (post_key i) ≡ s (post_key i)
  unfolding entries has
  put_all-other i [] s a b h = refl
  put_all-other i (p ∷ posts) s a b h =
      put_all-other i posts (put (post_key p.id) (raw_of p) s) a b.1 (ground arith)
      ∙ rw (post_key-differs p.id i b.0 a (ground arith)) refl

  pub put_all-Mem :
      (p : Post) (posts : List Post) (s : Strings)
      → Memᴰ p posts
      → All (λ p. IsInt64 p.id) posts
      → Distinct (map (λ p. p.id) posts)
      → put_all (entries posts) s (post_key p.id) ≡ text (raw_of p)
  unfolding entries
  put_all-Mem p [] s m b d = elim m [ ]
  put_all-Mem p (q ∷ posts) s (Memᴰ.head same) b d =
      subst (λ x. put_all (entries (q ∷ posts)) s (post_key x.id) ≡ text (raw_of x)) (sym same)
        (put_all-other q.id posts (put (post_key q.id) (raw_of q) s) b.0 b.1 d.0
          ∙ rw (eq_bytes_refl (post_key q.id)) refl)
  put_all-Mem p (q ∷ posts) s (Memᴰ.tail m) b d =
      put_all-Mem p posts (put (post_key q.id) (raw_of q) s) m b.1 d.1
