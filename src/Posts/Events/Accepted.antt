-- ===== src/Posts/Events/Accepted.antt =====
-- The Fanout Worker reads the events that the Post Service publishes.
use cascade_feed_ranking_eng.Common.{
  ℤ, false, true, some, Bytes, codes, eq_bytes, floor_div, ok, Option-cases, ◌≡◌, refl, ap, ◌∙◌,
  Option, inl, inr, arith,
}
use cascade_feed_ranking_eng.Json.{
  Object, lower, same_name, set_text, set_number, field, text_field, number_field, is_ascii_text,
  is_ascii_value, is_ascii,
}
use cascade_feed_ranking_eng.Fanout.{Event, post_created, post_deleted}
use cascade_feed_ranking_eng.Fanout.Consumer.{Record}
use cascade_feed_ranking_eng.Fanout.Events.{
  EventJson, event_json, decode_post_created, decode_post_deleted, has_nonpos, parse_post,
  parse_post_created, parse_post_deleted,
}
use cascade_feed_ranking_eng.Posts.{Post}
use cascade_feed_ranking_eng.Posts.Events.{
  Kafka, created_object, deleted_object, created_event, deleted_event, new_record,
}

-- What the worker is to read: the post that was created, by whom and in which millisecond.
abbrev pub created_of : Post → Event
created_of p = post_created (record {
  event_type = codes "PostCreated";
  post_id = p.id;
  author_id = p.author_id;
  created_at_unix_ms = floor_div p.created_at 1000000;
})

-- The same for a post that was deleted.
abbrev pub deleted_of : ℤ → ℤ → ℤ → Event
deleted_of post_id author_id deleted_at = post_deleted (record {
  event_type = codes "PostDeleted";
  post_id = post_id;
  author_id = author_id;
  deleted_at_unix_ms = floor_div deleted_at 1000000;
})

-- What the Post Service publishes: the author of the post, the value that is marshalled, and what the
-- worker is to read. IDs are positive and the time is after 1970.
pub data IsPublished : ℤ → Object → Event → Type 0 where
  created :
      (p : Post)
      → has_nonpos p.id p.author_id (floor_div p.created_at 1000000) ≡ false
      → IsPublished p.author_id (created_object (created_event p)) (created_of p)
  deleted :
      (post_id author_id deleted_at : ℤ)
      → has_nonpos post_id author_id (floor_div deleted_at 1000000) ≡ false
      → IsPublished author_id
          (deleted_object (deleted_event post_id author_id deleted_at))
          (deleted_of post_id author_id deleted_at)

-- The worker decodes its structs, by their own tags, with a reader of JSON text for which the text
-- that Marshal makes of an object of ASCII has the members of that object.
pub record IsReadable {W : Type 0} (k : Kafka W) (json : EventJson) : Type 0 where
  pub unmarshal : Bytes → Option Object
  pub decodes : json ≡ event_json unmarshal
  pub back :
      (members : Object) (raw : Bytes)
      → is_ascii members ≡ true
      → k.marshal members ≡ some raw
      → unmarshal raw ≡ some members

module _ {W : Type 0} (k : Kafka W) where
  -- The record carries the text of the event.
  new_record-value :
      (author_id : ℤ) (members : Object) (r : Record)
      → new_record k author_id members ≡ ok r
      → k.marshal members ≡ some r.value
  unfolding new_record
  new_record-value author_id members r h = elim (Option-cases (k.marshal members)) [
    | inl bad ↦ absurd (ground arith)
    | inr (raw, good) ↦ ground arith
  ]

parse-created :
    (unmarshal : Bytes → Option Object) (raw : Bytes) (p : Post)
    → unmarshal raw ≡ some (created_object (created_event p))
    → has_nonpos p.id p.author_id (floor_div p.created_at 1000000) ≡ false
    → parse_post (event_json unmarshal) raw ≡ ok (created_of p)
unfolding event_json decode_post_created created_object created_event text_field number_field field
    same_name lower set_text set_number eq_bytes parse_post parse_post_created
parse-created unmarshal raw p read valid =
    let type : (event_json unmarshal).envelope raw ≡ some (codes "PostCreated") = rw read refl in
    let event : (event_json unmarshal).post_created raw
        ≡ some (record {
          event_type = codes "PostCreated";
          post_id = p.id;
          author_id = p.author_id;
          created_at_unix_ms = floor_div p.created_at 1000000;
        }) =
      rw read refl in
    rw (type, parse_post) (rw (event, parse_post_created) (rw valid refl))

parse-deleted :
    (unmarshal : Bytes → Option Object) (raw : Bytes) (post_id author_id deleted_at : ℤ)
    → unmarshal raw ≡ some (deleted_object (deleted_event post_id author_id deleted_at))
    → has_nonpos post_id author_id (floor_div deleted_at 1000000) ≡ false
    → parse_post (event_json unmarshal) raw ≡ ok (deleted_of post_id author_id deleted_at)
unfolding event_json decode_post_deleted deleted_object deleted_event text_field number_field field
    same_name lower set_text set_number eq_bytes parse_post parse_post_deleted
parse-deleted unmarshal raw post_id author_id deleted_at read valid =
    let type : (event_json unmarshal).envelope raw ≡ some (codes "PostDeleted") = rw read refl in
    let event : (event_json unmarshal).post_deleted raw
        ≡ some (record {
          event_type = codes "PostDeleted";
          post_id = post_id;
          author_id = author_id;
          deleted_at_unix_ms = floor_div deleted_at 1000000;
        }) =
      rw read refl in
    rw (type, parse_post) (rw (event, parse_post_deleted) (rw valid refl))

module _ {W : Type 0} (k : Kafka W) (json : EventJson) (readable : IsReadable k json) where
  -- The record that is published for a stored post or for a deletion, with positive IDs and a time
  -- after 1970, is accepted by the Fanout Worker as the event of that post, author and millisecond:
  -- the names that the two services give to the fields agree. It is assumed that JSON text is read
  -- back with the members that were written.
  pub parse_post-published :
      (author_id : ℤ) (members : Object) (event : Event) (r : Record)
      → IsPublished author_id members event
      → new_record k author_id members ≡ ok r
      → parse_post json r.value ≡ ok event
  unfolding is_ascii is_ascii_text is_ascii_value created_object deleted_object created_event
      deleted_event
  parse_post-published author_id members event r (IsPublished.created p valid) h =
      ap (λ j. parse_post j r.value) readable.decodes
      ∙ parse-created readable.unmarshal r.value p
          (readable.back members r.value refl (new_record-value k author_id members r h)) valid
  parse_post-published author_id members event r (IsPublished.deleted post_id _ deleted_at valid)
        h =
      ap (λ j. parse_post j r.value) readable.decodes
      ∙ parse-deleted readable.unmarshal r.value post_id author_id deleted_at
          (readable.back members r.value refl (new_record-value k author_id members r h)) valid
