-- ===== src/Database.antt =====
-- PostgreSQL as the services use it through pgx: the rows of a query, and the tables of migrations/
-- with the operations of the SELECT statements. A statement itself is run by a parameter.
pub mod Answers
use cascade_feed_ranking_eng.Common.{
  ℤ, Bool, true, false, Option, none, some, List, [], ◌∷◌, ◌++◌, map, Bytes, Error, Result, ok, err,
}
use cascade_feed_ranking_eng.Feed.{Time}

-- What `rows.Next` and `rows.Scan` give one after the other, and `rows.Err` at the end.
pub record Rows (A : Type 0) : Type 0 where
  pub scans : List (Result Error A)
  pub last : Option Error

module _ {A B : Type 0} (f : A → B) where
  -- `for rows.Next() { if err := rows.Scan(...); err != nil { return err }; out = append(out, f) }`
  unfoldable pub read_scans : List (Result Error A) → Option Error → List B → Result Error (List B)
  read_scans [] none out = ok out
  read_scans [] (some e) out = err e
  read_scans (err e ∷ scans) last out = err e
  read_scans (ok row ∷ scans) last out = read_scans scans last (out ++ f row ∷ [])

  unfoldable pub read_rows : Rows A → Result Error (List B)
  read_rows rows = read_scans rows.scans rows.last []

pub record UserRow : Type 0 where
  pub id : ℤ
  pub follower_count : ℤ
  pub is_celebrity : Bool

pub record FollowRow : Type 0 where
  pub follower_id : ℤ
  pub followee_id : ℤ

-- `is_deleted`: `deleted_at IS NOT NULL`
pub record PostRow : Type 0 where
  pub id : ℤ
  pub author_id : ℤ
  pub content : Bytes
  pub media_url : Option Bytes
  pub created_at : Time
  pub is_deleted : Bool

pub record Tables : Type 0 where
  pub users : List UserRow
  pub follows : List FollowRow
  pub posts : List PostRow

module _ {A : Type 0} where
  -- WHERE
  unfoldable pub filter : (A → Bool) → List A → List A
  filter p [] = []
  filter p (x ∷ xs) = let rest = filter p xs in elim (p x) [ true ↦ x ∷ rest | false ↦ rest ]

  -- JOIN ... ON
  unfoldable pub join_one : {B : Type 0} → A → (B → Bool) → List B → List (A × B)
  join_one x on [] = []
  join_one x on (y ∷ ys) =
      let rest = join_one x on ys in elim (on y) [ true ↦ (x, y) ∷ rest | false ↦ rest ]

  unfoldable pub join : {B : Type 0} → List A → List B → (A → B → Bool) → List (A × B)
  unfolding join_one
  join [] ys on = []
  join (x ∷ xs) ys on = join_one x (on x) ys ++ join xs ys on

-- COALESCE(value, '')
unfoldable pub coalesce : Option Bytes → Bytes
coalesce none = []
coalesce (some value) = value

-- The rows of a query that succeeds.
abbrev pub all_rows : {A : Type 0} → List A → Rows A
all_rows rows = record { scans = map ok rows; last = none }
