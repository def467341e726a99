-- ===== src/Examples/Baseline.antt =====
-- The services of the benchmark that bypass the cache, on tables with one post by user 8, whom user 6
-- follows.
use mathlib.Core.List.{Memᴰ, map-id}
use cascade_feed_ranking_eng.Common.{
  append_unseen, ℕ, pos, nonpos, lt_ℤ, eq_ℤ, false, none, List, [], ◌∷◌, map, lookup, insert, has,
  codes, Result, ok, err, Error, pure, ◌≡◌, refl, sym, ap, ◌∙◌,
}
use cascade_feed_ranking_eng.Common.Sort.{sort_slice, insert_sorted}
use cascade_feed_ranking_eng.Database.{
  Rows, all_rows, read_rows, read_scans, Tables, PostRow, filter, join, join_one, coalesce,
}
use cascade_feed_ranking_eng.Database.Answers.{read_rows_all}
use cascade_feed_ranking_eng.Feed.{CandidateSet}
use cascade_feed_ranking_eng.Feed.Candidate.Postgres as Candidates
use cascade_feed_ranking_eng.Feed.Candidate.Listed.{IsLive, IsFollower, IsAnswering}
use cascade_feed_ranking_eng.Feed.Hydrator.Postgres.{
  Postgres, hydrate, hydrate_unique, load, observe, post_map, to_post, select_posts_by_id,
}
use cascade_feed_ranking_eng.Feed.Hydrator.{unique}
use cascade_feed_ranking_eng.Feed.Bypass.{IsPostQuery, bypass_sound}
use cascade_feed_ranking_eng.Feed.Select.{
  merge_ids, select_posts, selected, select_normal, seen_normal, select_celebrity, newer, truncate,
}

abbrev row : PostRow
row = record {
  id = pos 1;
  author_id = pos 8;
  content = codes "hello";
  media_url = none;
  created_at = pos 5000000;
  is_deleted = false;
}

abbrev tables : Tables
tables = record {
  users =
      record { id = pos 6; follower_count = pos 0; is_celebrity = false }
      ∷ record { id = pos 8; follower_count = pos 1; is_celebrity = false }
      ∷ [];
  follows = record { follower_id = pos 6; followee_id = pos 8 } ∷ [];
  posts = row ∷ [];
}

abbrev candidates : Candidates.Postgres ℕ
candidates = record {
  query_normal =
      λ user_id limit. pure (all_rows (Candidates.select_normal_ids tables user_id limit));
  query_celebrities = λ limit. pure (all_rows (Candidates.select_celebrity_ids tables limit));
  query_followed = λ user_id. pure (all_rows (Candidates.select_followed_ids tables user_id));
  on_query = none;
}

abbrev posts : Postgres ℕ
posts = record {
  query_posts = λ asked. pure (all_rows (select_posts_by_id tables asked));
  on_query = none;
}

rows_of : {A : Type 0} → Result Error (Rows A) → Result Error (List A)
rows_of (ok rows) = read_rows (λ x. x) rows
rows_of (err e) = err e

same_rows :
    {A : Type 0} (xs ys : List A)
    → ◌≡◌ {A = Result Error (Rows A)} (ok (all_rows xs)) (ok (all_rows ys))
    → ys ≡ xs
unfolding rows_of
same_rows xs ys h =
    let read : ◌≡◌ {A = Result Error (List _)} (ok (map (λ x. x) xs)) (ok (map (λ x. x) ys)) =
      sym (read_rows_all (λ x. x) xs) ∙ ap rows_of h ∙ read_rows_all (λ x. x) ys in
    let same : map (λ x. x) xs ≡ map (λ x. x) ys = cc in sym (map-id ys) ∙ sym same ∙ map-id xs

candidates-IsAnswering : IsAnswering candidates tables
candidates-IsAnswering = record {
  normal = λ user_id limit rows w h. same_rows _ rows h;
  celebrities = λ limit rows w h. same_rows _ rows h;
  followed = λ user_id rows w h. same_rows _ rows h;
}

posts-IsPostQuery : IsPostQuery posts tables
posts-IsPostQuery = record { answers = λ asked rows w h. same_rows _ rows h }

only_row : (a : PostRow) → Memᴰ a (row ∷ []) → a ≡ row
only_row a (Memᴰ.head e) = e
only_row a (Memᴰ.tail below) = elim below [ ]

-- The candidates and posts of user 6, with a limit of 10.
abbrev chosen : CandidateSet
chosen = record { normal_ids = pos 1 ∷ []; celebrity_ids = []; followed_celebrities = [] }

bypass_sound_example :
    (p : PostRow) × IsLive tables p
    × (p.id ≡ pos 1)
    × (to_post row ≡ to_post p)
    × IsFollower tables (pos 6) p.author_id
unfolding lt_ℤ eq_ℤ nonpos has lookup insert filter join join_one read_rows read_scans sort_slice
    insert_sorted Candidates.load Candidates.query Candidates.ids Candidates.observe
    Candidates.select_normal_ids Candidates.newest_ids Candidates.newer_row Candidates.normal_rows
    Candidates.select_celebrity_ids Candidates.celebrity_rows Candidates.select_followed_ids
    Candidates.followed_rows hydrate hydrate_unique load observe post_map to_post coalesce
    select_posts_by_id unique append_unseen merge_ids select_posts selected select_normal
    seen_normal select_celebrity newer truncate
bypass_sound_example =
    bypass_sound posts tables posts-IsPostQuery candidates candidates-IsAnswering
      (λ a b in_a in_b _. only_row a in_a ∙ sym (only_row b in_b)) (pos 6) (pos 10) chosen
      ((pos 1, to_post row) ∷ []) 0 1 0 0 refl refl refl (pos 1) (to_post row) refl refl
