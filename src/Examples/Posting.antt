-- ===== src/Examples/Posting.antt =====
-- A Post Service with one post, whose cache fails at every call, and the events that it publishes.
use cascade_feed_ranking_eng.Common.{
  sym, ap, ◌∙◌, ℕ, zero, suc, ◌++◌, map, ℤ, pos, nonpos, eq_ℤ, eq_ℤ_iff, Option, none, some, List,
  [], ◌∷◌, Map, lookup, has, Distinct, Bytes, codes, length, floor_div, other, ok, err, raise, pure,
  Bool-cases, if◌then◌else◌, ◌≡◌, refl, subst, inl, inr, arith,
}
use cascade_feed_ranking_eng.Common.Decimal.{format_int}
use cascade_feed_ranking_eng.Common.MapKeys.{keys}
use cascade_feed_ranking_eng.Examples.Codec.{sign, size, number as to_number, number_back}
use cascade_feed_ranking_eng.Fanout.Consumer.{Record}
use cascade_feed_ranking_eng.Fanout.Events.{EventJson, event_json, has_nonpos, parse_post}
use cascade_feed_ranking_eng.Json.{JsonValue, Object, text, number, null_value, other_value}
use cascade_feed_ranking_eng.Feed.{from_milli}
use cascade_feed_ranking_eng.Posts.{Post}
use cascade_feed_ranking_eng.Posts.Repository.{
  Sql, with_rollback, mark_and_commit, delete_owned, delete_in_tx, delete,
}
use cascade_feed_ranking_eng.Posts.Repository.Owner.{delete-owner}
use cascade_feed_ranking_eng.Posts.Server.{
  Server, CreatePostRequest, DeletePostRequest, to_proto, any_nonpos, create_post, get_posts,
  delete_post,
}
use cascade_feed_ranking_eng.Posts.Server.Reads.{stored_posts, IsCopy, IsStore, get_posts_lem}
use cascade_feed_ranking_eng.Posts.Server.Effects.{
  with_effects, answers_best_effort, Deleted, delete_post-Deleted,
}
use cascade_feed_ranking_eng.Posts.Events.{Kafka, deleted_object, deleted_event, new_record}
use cascade_feed_ranking_eng.Posts.Events.Accepted.{
  deleted_of, IsReadable, IsPublished, parse_post-published,
}

abbrev pub hello : Post
hello = record {
  id = pos 1;
  author_id = pos 8;
  content = codes "hello";
  media_url = [];
  created_at = pos 5000000;
}

-- The post as PostgreSQL holds it, to the microsecond; the cache has it with whole milliseconds.
abbrev precise : Post
precise = record hello { created_at = pos 5000250 }

abbrev db : ℤ → Option Post
db i = if eq_ℤ (pos 1) i then some precise else none

abbrev rows : List ℤ → Map Post
rows ids = if has (pos 1) ids then (pos 1, precise) ∷ [] else []

-- The world counts the calls of the side effects.
abbrev server : Server ℕ
server = record {
  create = λ author_id content media_url. pure hello;
  get_by_ids = λ ids. pure (rows ids);
  delete = λ post_id user_id. pure (pos 8, pos 7000000);
  set = λ p w. (err other, suc w);
  set_many = λ posts w. (err other, suc w);
  get_many = λ ids. pure ((pos 1, hello) ∷ []);
  delete_and_tombstone = λ id w. (err other, suc w);
  publish_created = λ p w. (ok tt, suc w);
  publish_deleted = λ id author_id at w. (ok tt, suc w);
  record_query = λ w. w;
  text = record { trim_space = λ s. s; rune_count = length; parse_request_uri = λ s. none };
}

rows-Distinct : (ids : List ℤ) → Distinct (keys (rows ids))
unfolding has
rows-Distinct ids = elim (Bool-cases (has (pos 1) ids)) [
  | inl here ↦ rw here (refl, tt)
  | inr absent ↦ rw absent tt
]

lookup-rows : (ids : List ℤ) (i : ℤ) → lookup i (rows ids) ≡ (if has i ids then db i else none)
unfolding lookup
lookup-rows ids i = elim (Bool-cases (eq_ℤ (pos 1) i)) [
  | inl same ↦
      subst (λ x. lookup x (rows ids) ≡ (if has x ids then db x else none))
        ((eq_ℤ_iff (pos 1) i).0 same) (ground (arith, eq_ℤ_iff (pos 1) (pos 1)))
  | inr differ ↦ rw differ (ground arith)
]

cached-IsCopy :
    (i : ℤ) (p : Post)
    → lookup i ((pos 1, hello) ∷ []) ≡ some p
    → (q : Post) × (db i ≡ some q) × IsCopy p q
unfolding lookup floor_div from_milli
cached-IsCopy i p h = elim (Bool-cases (eq_ℤ (pos 1) i)) [
  | inl here ↦ let same : hello ≡ p = ground arith in (precise, rw here refl, inr (sym same))
  | inr differ ↦ absurd (ground arith)
]

server-IsStore : IsStore server db
server-IsStore = record {
  cached = λ ids w m i p h k.
      let same : (pos 1, hello) ∷ [] ≡ m = cc in cached-IsCopy i p (ap (lookup i) same ∙ k);
  stored = λ ids w. (rows ids, refl, rows-Distinct ids, lookup-rows ids);
}

get_posts_lem_example :
    (get_posts server (pos 1 ∷ pos 2 ∷ pos 1 ∷ []) 0).0 ≡ ok (to_proto hello ∷ to_proto hello ∷ [])
unfolding any_nonpos nonpos eq_ℤ stored_posts to_proto floor_div
get_posts_lem_example =
    get_posts_lem server db server-IsStore (pos 1 ∷ pos 2 ∷ pos 1 ∷ []) 0 refl refl

abbrev request : CreatePostRequest
request = record { author_id = pos 8; content = codes "hello"; media_url = [] }

abbrev deletion : DeletePostRequest
deletion = record { post_id = pos 1; requesting_user_id = pos 8 }

-- The same service with a publisher that fails.
abbrev unpublished : Server ℕ
unpublished =
    with_effects server (λ p. pure tt) (λ p. raise other) (λ id. pure tt)
      (λ id author_id at. raise other)

answers_best_effort_example :
    ((create_post unpublished (some request) 0).0 ≡ (create_post server (some request) 0).0)
    × ((delete_post unpublished (some deletion) 0).0 ≡ (delete_post server (some deletion) 0).0)
answers_best_effort_example =
    answers_best_effort server (λ p. pure tt) (λ p. raise other) (λ id. pure tt)
      (λ id author_id at. raise other) (some request) (some deletion) 0

delete_post-Deleted_example : Deleted server deletion 0 (delete_post server (some deletion) 0)
delete_post-Deleted_example = delete_post-Deleted server deletion 0

-- Words in the place of JSON text: each byte is one more, and 0 ends a word. A member is two words.
abbrev join : List Bytes → Bytes
join [] = []
join (word ∷ words) = map (λ c. suc c) word ++ 0 ∷ join words

abbrev push : ℕ → List Bytes → List Bytes
push c [] = (c ∷ []) ∷ []
push c (word ∷ words) = (c ∷ word) ∷ words

abbrev split : Bytes → List Bytes
split [] = []
split (zero ∷ raw) = [] ∷ split raw
split (suc c ∷ raw) = push c (split raw)

split_word : (word raw : Bytes) → split (map (λ c. suc c) word ++ 0 ∷ raw) ≡ word ∷ split raw
split_word [] raw = refl
split_word (c ∷ word) raw = rw (split_word word raw) refl

split-join : (words : List Bytes) → split (join words) ≡ words
split-join [] = refl
split-join (word ∷ words) = rw (split_word word (join words), split-join words) refl

abbrev word_of : JsonValue → Bytes
word_of (text s) = 0 ∷ s
word_of (number n) = 1 ∷ sign n ∷ size n ∷ []
word_of null_value = 2 ∷ []
word_of other_value = 3 ∷ []

abbrev value_of : Bytes → JsonValue
value_of (zero ∷ s) = text s
value_of (suc zero ∷ a ∷ b ∷ []) = number (to_number a b)
value_of (suc (suc zero) ∷ []) = null_value
value_of _ = other_value

value-word : (v : JsonValue) → value_of (word_of v) ≡ v
value-word (text s) = refl
value-word (number n) = rw (number_back n) refl
value-word null_value = refl
value-word other_value = refl

abbrev words_of : Object → List Bytes
words_of [] = []
words_of ((name, value) ∷ members) = name ∷ word_of value ∷ words_of members

abbrev members_of : List Bytes → Object
members_of (name ∷ value ∷ words) = (name, value_of value) ∷ members_of words
members_of _ = []

members-words : (members : Object) → members_of (words_of members) ≡ members
members-words [] = refl
members-words ((name, value) ∷ members) = rw (value-word value, members-words members) refl

abbrev pub write : Object → Bytes
write members = join (words_of members)

abbrev read : Bytes → Option Object
read raw = some (members_of (split raw))

abbrev pub kafka : Kafka ℕ
kafka = record {
  topic = codes "post-events";
  marshal = λ members. some (write members);
  produce = λ r w. (ok tt, suc w);
}

abbrev pub json : EventJson
json = event_json read

pub kafka-IsReadable : IsReadable kafka json
kafka-IsReadable = record {
  unmarshal = read;
  decodes = refl;
  back = λ members raw ascii h.
      let same : write members ≡ raw = cc in
      rw (← same) (rw (split-join (words_of members), members-words members) refl);
}

abbrev pub event_record : Bytes → Record
event_record value = record {
  topic = codes "post-events";
  partition = pos 0;
  offset = pos 0;
  key = format_int (pos 8);
  value = value;
  headers = [];
}

-- The text of the event for the deletion of post 1 by user 8.
abbrev pub deletion_text : Bytes
deletion_text = write (deleted_object (deleted_event (pos 1) (pos 8) (pos 7000000)))

parse_post-published_example :
    parse_post json deletion_text ≡ ok (deleted_of (pos 1) (pos 8) (pos 7000000))
unfolding new_record has_nonpos nonpos floor_div
parse_post-published_example =
    parse_post-published kafka json kafka-IsReadable (pos 8)
      (deleted_object (deleted_event (pos 1) (pos 8) (pos 7000000)))
      (deleted_of (pos 1) (pos 8) (pos 7000000)) (event_record deletion_text)
      (IsPublished.deleted (pos 1) (pos 8) (pos 7000000) refl) refl

-- A database in which post 1 belongs to user 8; the world counts the commits.
abbrev sql : Sql ℕ
sql = record {
  begin_tx = pure tt;
  commit = λ w. (ok tt, suc w);
  rollback = λ w. w;
  insert_post = λ author_id content media_url. pure hello;
  select_author = λ id. pure (if eq_ℤ id (pos 1) then some (pos 8) else none);
  soft_delete = λ id. pure (pos 7000000);
  query_posts = λ ids. pure (hello ∷ []);
}

delete-owner_example :
    (pos 8 ≡ pos 8)
    × ((sql.select_author (pos 1) 0).0 ≡ ok (some (pos 8)))
    × ((sql.soft_delete (pos 1) 0).0 ≡ ok (pos 7000000))
    × ((sql.commit 0).0 ≡ ok tt)
unfolding delete with_rollback delete_in_tx delete_owned mark_and_commit eq_ℤ
delete-owner_example = delete-owner sql (pos 1) (pos 8) (pos 8) (pos 7000000) 0 refl
