-- ===== src/Fanout/Consumer/DeadLetter.antt =====
-- The records of the dead letter queues, consumer.go's newDLQRecord and PublishDLQ.
use cascade_feed_ranking_eng.Common.{
  ℕ, ◌+◌, ◌-◌, ℤ, Option, none, some, List, [], ◌∷◌, ◌++◌, length, length-append, take, Bytes,
  codes, eq_bytes, if◌then◌else◌, ◌≡◌, refl, ◌∙◌, ap, arith,
}
use cascade_feed_ranking_eng.Common.Decimal.{parse_int, format_int, parse-format_int, IsInt64}
use cascade_feed_ranking_eng.Fanout.Consumer.{Record, Header, new_dlq_record, failure_headers}

-- The value of the last header with a key, as a reader finds it who puts the headers into a map.
unfoldable or_else : Option Bytes → Option Bytes → Option Bytes
or_else (some v) o = some v
or_else none o = o

unfoldable last_header : Bytes → List Header → Option Bytes
last_header key [] = none
last_header key (header ∷ headers) =
    or_else (last_header key headers) (if eq_bytes header.key key then some header.value else none)

unfoldable last_int : Bytes → List Header → Option ℤ
last_int key headers = elim (last_header key headers) [ none ↦ none | some value ↦ parse_int value ]

-- The record that a DLQ record stands for: its topic, partition and offset are in the headers, of
-- which the last six are those of the DLQ.
unfoldable restore_from : Record → Option Bytes → Option ℤ → Option ℤ → Option Record
restore_from r (some topic) (some partition) (some offset) = some (record {
  topic = topic;
  partition = partition;
  offset = offset;
  key = r.key;
  value = r.value;
  headers = take (length r.headers - 6) r.headers;
})
restore_from r _ _ _ = none

pub restore : Record → Option Record
restore r =
    restore_from r (last_header (codes "x-original-topic") r.headers)
      (last_int (codes "x-original-partition") r.headers)
      (last_int (codes "x-original-offset") r.headers)

last_header-append :
    (key value : Bytes) (xs ys : List Header)
    → last_header key ys ≡ some value
    → last_header key (xs ++ ys) ≡ some value
unfolding last_header or_else
last_header-append key value [] ys h = h
last_header-append key value (x ∷ xs) ys h = rw (last_header-append key value xs ys h) refl

take_zero : (ys : List Header) → take 0 ys ≡ []
take_zero [] = refl
take_zero (y ∷ ys) = refl

take-append : (xs ys : List Header) → take (length xs) (xs ++ ys) ≡ xs
take-append [] ys = take_zero ys
take-append (x ∷ xs) ys = ap (λ zs. x ∷ zs) (take-append xs ys)

kept : (n : ℕ) → n + 6 - 6 ≡ n
kept n = omega arith

module _ (topic : Bytes) (original : Record) (failure : Bytes) (attempts : ℕ) (failed_at : ℤ) where
  added : List Header
  added = failure_headers original failure attempts failed_at

  last-topic :
      last_header (codes "x-original-topic") (original.headers ++ added) ≡ some original.topic
  unfolding last_header or_else eq_bytes added
  last-topic =
      last_header-append (codes "x-original-topic") original.topic original.headers added refl

  last-partition :
      IsInt64 original.partition
      → last_int (codes "x-original-partition") (original.headers ++ added)
        ≡ some original.partition
  unfolding last_int last_header or_else eq_bytes added
  last-partition p =
      rw
        (
          last_header-append (codes "x-original-partition") (format_int original.partition)
              original.headers added refl,
          last_int,
        )
        (parse-format_int original.partition p)

  last-offset :
      IsInt64 original.offset
      → last_int (codes "x-original-offset") (original.headers ++ added) ≡ some original.offset
  unfolding last_int last_header or_else eq_bytes added
  last-offset o =
      rw
        (
          last_header-append (codes "x-original-offset") (format_int original.offset)
              original.headers added refl,
          last_int,
        )
        (parse-format_int original.offset o)

  own_headers :
      take (length (original.headers ++ added) - 6) (original.headers ++ added) ≡ original.headers
  unfolding added
  own_headers =
      ap (λ n. take n (original.headers ++ added))
        (ap (λ n. n - 6) (length-append original.headers added) ∙ kept (length original.headers))
      ∙ take-append original.headers added

  -- A DLQ record loses nothing of the record that failed: its topic, partition and offset can be
  -- read back from the headers, whatever headers the record had before, and its key, its payload
  -- and its own headers are kept. The partition and the offset are int64.
  pub restore-new_dlq_record :
      IsInt64 original.partition
      → IsInt64 original.offset
      → restore (new_dlq_record topic original failure attempts failed_at) ≡ some original
  unfolding restore restore_from new_dlq_record added
  restore-new_dlq_record p o =
      rw (last-topic, last-partition p, last-offset o)
        (ap
          (λ (hs : List Header). some (record {
            topic = original.topic;
            partition = original.partition;
            offset = original.offset;
            key = original.key;
            value = original.value;
            headers = hs;
          }))
          own_headers)
