-- ===== src/Database/Answers.antt =====
-- What the loops over rows return, and what a join and a filter hold.
use mathlib.Core.List.{Memᴰ, map-id}
use cascade_feed_ranking_eng.Common.{
  lift, continue, ◌↔◌, All-imp, Bool, true, Option, none, some, List, [], ◌∷◌, ◌++◌, append_assoc,
  append-nil, map, Error, Result, ok, err, Bool-cases, inl, inr, All, All-append, ◌≡◌, refl, sym,
  ◌∙◌, ap, arith,
}
use cascade_feed_ranking_eng.Database.{
  Rows, read_scans, read_rows, filter, join_one, join, all_rows,
}

module _ {A B : Type 0} (f : A → B) where
  read_scans_all :
      (rows : List A) (out : List B) → read_scans f (map ok rows) none out ≡ ok (out ++ map f rows)
  unfolding read_scans
  read_scans_all [] out = rw append-nil
  read_scans_all (row ∷ rows) out =
      read_scans_all rows (out ++ f row ∷ []) ∙ ap ok (append_assoc out (f row ∷ []) (map f rows))

  -- The loop over the rows of a query that succeeds.
  pub read_rows_all : (rows : List A) → read_rows f (all_rows rows) ≡ ok (map f rows)
  unfolding read_rows
  read_rows_all rows = read_scans_all rows []

  read_scans-ok :
      (scans : List (Result Error A)) (last : Option Error) (out xs : List B)
      → read_scans f scans last out ≡ ok xs
      → (last ≡ none) × ((rows : List A) × (scans ≡ map ok rows) × (xs ≡ out ++ map f rows))
  unfolding read_scans
  read_scans-ok [] none out xs h = (refl, ([], refl, rw append-nil (ground arith)))
  read_scans-ok [] (some e) out xs h = cc
  read_scans-ok (err e ∷ scans) last out xs h = cc
  read_scans-ok (ok row ∷ scans) last out xs h =
      let (done, (rows, same, result)) = read_scans-ok scans last (out ++ f row ∷ []) xs h in
      (done, (row ∷ rows, rw same, result ∙ append_assoc out (f row ∷ []) (map f rows)))

  -- A list that was read is complete: every row was scanned, and the iteration ended without error.
  pub read_rows-ok :
      (rows : Rows A) (xs : List B)
      → read_rows f rows ≡ ok xs
      → (rows.last ≡ none) × ((all : List A) × (rows.scans ≡ map ok all) × (xs ≡ map f all))
  unfolding read_rows
  read_rows-ok rows xs h = read_scans-ok rows.scans rows.last [] xs h

-- Rows that are read as they are.
pub read_rows-same :
    {A : Type 0} (rows : Rows A) (xs : List A)
    → read_rows (λ x. x) rows ≡ ok xs
    → rows ≡ all_rows xs
read_rows-same rows xs h =
    let (done, (all, scanned, made)) = read_rows-ok (λ x. x) rows xs h in
    let same : all ≡ xs = sym (map-id all) ∙ sym made in
    let rows_all : rows ≡ all_rows all = cc in rows_all ∙ ap all_rows same

-- A query was answered, all of its rows were scanned without an error at their end, and `xs` is
-- made of all of them.
unfoldable pub IsComplete : {A B : Type 0} → (A → B) → Result Error (Rows A) → List B → Type 0
IsComplete {A} f answer xs = (all : List A) × (answer ≡ ok (all_rows all)) × (xs ≡ map f all)

module _ {W A B : Type 0} (f : A → B) where
  pub read-IsComplete :
      (answer : Result Error (Rows A)) (xs : List B) (w : W)
      → ((continue answer (λ rows. lift (read_rows f rows)) w).0 ≡ ok xs) ↔ IsComplete f answer xs
  unfolding IsComplete
  read-IsComplete (err e) xs w = (λ h. cc, λ h. absurd (let (all, bad, _) = h in cc))
  read-IsComplete (ok rows) xs w = (
    λ h.
        let (done, (all, scanned, result)) = read_rows-ok f rows xs h in
        (all, ap ok (cc (done, scanned)), result),
    λ h.
        let (all, same, result) = h in
        let rows_all : rows ≡ all_rows all = cc in
        rw rows_all (read_rows_all f all ∙ ap ok (sym result)),
  )

module _ {A : Type 0} where
  -- What a filter keeps passed its test, and is of the list.
  pub filter-All :
      (P : A → Type 0) (p : A → Bool) (l : List A)
      → All P l
      → All (λ x. P x × (p x ≡ true)) (filter p l)
  unfolding filter
  filter-All P p [] h = tt
  filter-All P p (x ∷ xs) h = elim (Bool-cases (p x)) [
    | inl hit ↦ rw (hit, filter) ((h.0, hit), filter-All P p xs h.1)
    | inr miss ↦ rw (miss, filter) (filter-All P p xs h.1)
  ]

pub All-Mem : {A : Type 0} (l : List A) → All (λ x. Memᴰ x l) l
All-Mem [] = tt
All-Mem (x ∷ xs) = (
  Memᴰ.head refl,
  All-imp (λ y. Memᴰ y xs) (λ y. Memᴰ y (x ∷ xs)) (λ y m. Memᴰ.tail m) xs (All-Mem xs),
)

pub All-map :
    {A B : Type 0} (P : B → Type 0) (f : A → B) (l : List A)
    → All (λ x. P (f x)) l
    → All P (map f l)
All-map P f [] h = tt
All-map P f (x ∷ xs) h = (h.0, All-map P f xs h.1)

module _ {A B : Type 0} (P : A → Type 0) (Q : B → Type 0) (on : A → B → Bool) where
  abbrev IsJoined : A × B → Type 0
  IsJoined r = P r.0 × Q r.1 × (on r.0 r.1 ≡ true)

  All-join_one : (x : A) (ys : List B) → P x → All Q ys → All IsJoined (join_one x (on x) ys)
  unfolding join_one
  All-join_one x [] px qs = tt
  All-join_one x (y ∷ ys) px qs = elim (Bool-cases (on x y)) [
    | inl hit ↦ rw (hit, join_one) ((px, qs.0, hit), All-join_one x ys px qs.1)
    | inr miss ↦ rw (miss, join_one) (All-join_one x ys px qs.1)
  ]

  -- A row of a join is made of a row of each table, which it is joined on.
  pub All-join :
      (xs : List A) (ys : List B)
      → All P xs
      → All Q ys
      → All (λ r. P r.0 × Q r.1 × (on r.0 r.1 ≡ true)) (join xs ys on)
  unfolding join
  All-join [] ys h k = tt
  All-join (x ∷ xs) ys h k =
      All-append IsJoined (join_one x (on x) ys) (join xs ys on) (All-join_one x ys h.0 k)
        (All-join xs ys h.1 k)
