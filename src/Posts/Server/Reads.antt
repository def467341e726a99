-- ===== src/Posts/Server/Reads.antt =====
-- GetPosts of server.go against a description of what it answers.
use cascade_feed_ranking_eng.Common.{
  ℤ, eq_ℤ, eq_ℤ_iff, eq_ℤ_refl, Bool, true, false, Option, none, some, List, [], ◌∷◌, Map, lookup,
  insert, lookup-insert, pos, negsuc, floor_div, ◌⊎◌, has, has-append_unseen, is_empty, ok,
  Result-cases, Distinct, ◌&&◌, subst, Option-cases, Bool-cases, if◌then◌else◌, ◌≡◌, refl, sym, ap,
  ◌∙◌, inl, inr, arith,
}
use cascade_feed_ranking_eng.Common.MapKeys.{keys, lookup-absent}
use cascade_feed_ranking_eng.Feed.{from_milli}
use cascade_feed_ranking_eng.Posts.{Post}
use cascade_feed_ranking_eng.Posts.Server.{
  Server, ProtoPost, to_proto, unique, any_nonpos, missing_ids, add_hydrated, found_posts, or_empty,
  read_cache, hydrate_missing, best_effort, get_posts,
}

-- The posts of `db` for the requested IDs, in the order of the request: an ID that is asked for
-- twice is answered twice, and one without a post is left out.
unfoldable pub stored_posts : (ℤ → Option Post) → List ℤ → List ProtoPost
stored_posts db [] = []
stored_posts db (id ∷ ids) =
    let rest = stored_posts db ids in elim (db id) [ none ↦ rest | some p ↦ to_proto p ∷ rest ]

abbrev is_none : Option Post → Bool
is_none none = true
is_none (some p) = false

-- A cached post: the stored one, or that with its time cut to whole milliseconds, as the cache keeps
-- it.
abbrev pub IsCopy : Post → Post → Type 0
IsCopy p stored =
    (p ≡ stored)
    ⊎ (p ≡ record stored { created_at = from_milli (floor_div stored.created_at 1000000) })

-- The repository holds the posts of `db`. The cache may fail and may lack posts, but those that it
-- has are copies of those of `db`. A map has each key once.
pub record IsStore {W : Type 0} (s : Server W) (db : ℤ → Option Post) : Type 0 where
  pub cached :
      (ids : List ℤ) (w : W) (m : Map Post) (i : ℤ) (p : Post)
      → (s.get_many ids w).0 ≡ ok m
      → lookup i m ≡ some p
      → (q : Post) × (db i ≡ some q) × IsCopy p q
  pub stored :
      (ids : List ℤ) (w : W)
      → (m : Map Post) × ((s.get_by_ids ids w).0 ≡ ok m)
        × Distinct (keys m)
        × ((i : ℤ) → lookup i m ≡ (if has i ids then db i else none))

-- What a map that overlays another one has.
unfoldable pub overlay : Option Post → Option Post → Option Post
overlay none below = below
overlay (some p) below = some p

pub overlay-none : (o : Option Post) → overlay o none ≡ o
unfolding overlay
overlay-none none = refl
overlay-none (some p) = refl

pub lookup-add_hydrated :
    (i : ℤ) (m base : Map Post)
    → Distinct (keys m)
    → lookup i (add_hydrated m base) ≡ overlay (lookup i m) (lookup i base)
unfolding add_hydrated lookup overlay
lookup-add_hydrated i [] base d = refl
lookup-add_hydrated i ((k, p) ∷ m) base d = elim (Bool-cases (eq_ℤ k i)) [
  | inl here ↦
      let same : k ≡ i = (eq_ℤ_iff k i).0 here in
      let gone : lookup i m ≡ none = subst (λ x. lookup x m ≡ none) same (lookup-absent k m d.0) in
      rw (lookup-add_hydrated i m (insert k p base) d.1, gone, lookup-insert k i p base, here) refl
  | inr below ↦
      rw (lookup-add_hydrated i m (insert k p base) d.1, lookup-insert k i p base, below) refl
]

has-missing_ids :
    (i : ℤ) (cached : Map Post) (ids : List ℤ)
    → has i (missing_ids cached ids) ≡ (has i ids && is_none (lookup i cached))
unfolding has missing_ids
has-missing_ids i cached [] = refl
has-missing_ids i cached (id ∷ ids) = elim (Option-cases (lookup id cached)) [
  | inl missing ↦
      rw (missing, missing_ids) (ground (arith, has-missing_ids i cached ids, eq_ℤ_iff id i))
  | inr (p, found) ↦
      rw (found, missing_ids) (ground (arith, has-missing_ids i cached ids, eq_ℤ_iff id i))
]

-- What the answer holds of a post.
abbrev as_proto : Option Post → Option ProtoPost
as_proto none = none
as_proto (some p) = some (to_proto p)

milli_back : (ms : ℤ) → floor_div (from_milli ms) 1000000 ≡ ms
unfolding floor_div from_milli
milli_back (pos n) = ap pos (omega arith)
milli_back (negsuc n) = ap negsuc (omega arith)

IsCopy-to_proto : (p stored : Post) → IsCopy p stored → to_proto p ≡ to_proto stored
unfolding to_proto
IsCopy-to_proto p stored (inl same) = ap to_proto same
IsCopy-to_proto p stored (inr cut) =
    ap to_proto cut ∙ rw (milli_back (floor_div stored.created_at 1000000)) refl

some_proto :
    (o : Option Post) (q : ProtoPost)
    → as_proto o ≡ some q
    → (p : Post) × (o ≡ some p) × (to_proto p ≡ q)
some_proto none q h = cc
some_proto (some p) q h = (p, refl, cc)

no_proto : (o : Option Post) → as_proto o ≡ none → o ≡ none
no_proto none h = refl
no_proto (some p) h = cc

found-stored :
    (db : ℤ → Option Post) (m : Map Post) (ids : List ℤ)
    → ((i : ℤ) → has i ids ≡ true → as_proto (lookup i m) ≡ as_proto (db i))
    → found_posts m ids ≡ stored_posts db ids
unfolding found_posts stored_posts has
found-stored db m [] h = refl
found-stored db m (id ∷ ids) h =
    let rest = found-stored db m ids (λ i k. h i (ground arith)) in
    let same = h id (ground (arith, eq_ℤ_refl id)) in
    elim (Option-cases (db id)) [
      | inl none_there ↦
          let missing = no_proto (lookup id m) (same ∙ ap as_proto none_there) in
          rw (missing, none_there, found_posts, stored_posts) rest
      | inr (p, there) ↦
          let (q, found, alike) =
            some_proto (lookup id m) (to_proto p) (same ∙ ap as_proto there) in
          rw (found, there, found_posts, stored_posts) (rw alike (ap (λ ps. to_proto p ∷ ps) rest))
    ]

nothing : (i : ℤ) (p : Post) → lookup i [] ≡ some p → ⊥
unfolding lookup
nothing i p h = cc

module _ {W : Type 0} (s : Server W) (db : ℤ → Option Post) (store : IsStore s db) where
  -- The post of every requested ID is a copy of that in `db` once the misses are filled.
  Filled : List ℤ → Map Post → Type 0
  Filled ids m = (i : ℤ) → has i ids ≡ true → as_proto (lookup i m) ≡ as_proto (db i)

  cached_ok :
      (ids : List ℤ) (w : W) (i : ℤ) (p : Post)
      → lookup i (or_empty (s.get_many ids w).0) ≡ some p
      → as_proto (db i) ≡ some (to_proto p)
  unfolding or_empty lookup
  cached_ok ids w i p h = elim (Result-cases (s.get_many ids w).0) [
    | inl (m, good) ↦
        let (q, stored, copy) =
          store.cached ids w m i p good (ap (λ r. lookup i (or_empty r)) (sym good) ∙ h) in
        ap as_proto stored ∙ ap some (sym (IsCopy-to_proto p q copy))
    | inr (e, bad) ↦ absurd (nothing i p (ap (λ r. lookup i (or_empty r)) (sym bad) ∙ h))
  ]

  filled :
      (ids missing : List ℤ) (cached : Map Post) (w : W)
      → ((i : ℤ) (p : Post) → lookup i cached ≡ some p → as_proto (db i) ≡ some (to_proto p))
      → ((i : ℤ) → has i missing ≡ (has i ids && is_none (lookup i cached)))
      → (all : Map Post) × ((hydrate_missing s cached missing w).0 ≡ ok all) × Filled ids all
  unfolding hydrate_missing Filled has best_effort overlay
  filled ids [] cached w c h = (
    cached,
    refl,
    λ i asked. elim (Option-cases (lookup i cached)) [
      | inl absent ↦ absurd (ground (arith, h i))
      | inr (p, found) ↦ ap as_proto found ∙ sym (c i p found)
    ],
  )
  filled ids (x ∷ xs) cached w c h =
      let (m, good, distinct, entries) = store.stored (x ∷ xs) w in
      (
        add_hydrated m cached,
        rw good refl,
        λ i asked.
            ap as_proto (lookup-add_hydrated i m cached distinct)
            ∙ elim (Option-cases (lookup i cached)) [
              | inl absent ↦
                  let wanted : has i (x ∷ xs) ≡ true = h i ∙ rw (asked, absent) refl in
                  rw (entries i ∙ ap (λ b. if b then db i else none) wanted, absent)
                    (ap as_proto (overlay-none (db i)))
              | inr (p, found) ↦
                  let known : has i (x ∷ xs) ≡ false = h i ∙ rw (asked, found) refl in
                  rw (entries i ∙ ap (λ b. if b then db i else none) known, found)
                    (sym (c i p found))
            ],
      )

  -- GetPosts answers a list of positive IDs with the stored posts in the order of the request,
  -- whether the cache works, fails, or lacks posts, and whatever becomes of the write-back: the
  -- repository answers, and the posts that the cache has are copies of those of the repository, whose
  -- times may be cut to milliseconds.
  pub get_posts_lem :
      (ids : List ℤ) (w : W)
      → is_empty ids ≡ false
      → any_nonpos ids ≡ false
      → (get_posts s ids w).0 ≡ ok (stored_posts db ids)
  unfolding get_posts read_cache unique Filled
  get_posts_lem ids w e n =
      let read = s.get_many (unique ids) w in
      let cached = or_empty read.0 in
      let (all, good, full) =
        filled (unique ids) (missing_ids cached (unique ids)) cached read.1
          (λ i p h. cached_ok (unique ids) w i p h) (λ i. has-missing_ids i cached (unique ids)) in
      rw (e, n, good)
        (ap ok (found-stored db all ids (λ i h. full i (has-append_unseen ids i ∙ h))))
