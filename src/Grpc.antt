-- ===== src/Grpc.antt =====
-- internal/observability/grpc.go of the Post Service and, but for the name of the context key, of the
-- Feed Service: the interceptor around every handler. Prometheus, the random bytes and the clock are
-- parameters; a log line is left out.
pub mod Method
use cascade_feed_ranking_eng.Common.{
  ℕ, ◌+◌, ◌/◌, ◌%◌, ltb, ◌==◌, Bool, Option, none, some, List, [], ◌∷◌, ◌++◌, Bytes, codes,
  is_empty, Result, Exec, if◌then◌else◌,
}

-- The two parts around the last slash.
unfoldable pub last_slash : Bytes → Option (Bytes × Bytes)
last_slash [] = none
last_slash (c ∷ s) = elim (last_slash s) [
  | some parts ↦ some (c ∷ parts.0, parts.1)
  | none ↦ if c == b'/' then some ([], s) else none
]

-- `if trimmed[0] == '/' { trimmed = trimmed[1:] }`
unfoldable pub without_slash : Bytes → Bytes
without_slash [] = []
without_slash (c ∷ s) = if c == b'/' then s else c ∷ s

-- The service and the method of a full method name.
unfoldable pub split_method : Bytes → Bytes × Bytes
split_method full_method =
    if is_empty full_method
    then (codes "unknown", codes "unknown")
    else elim (last_slash (without_slash full_method)) [
      | some parts ↦ parts
      | none ↦ (without_slash full_method, codes "unknown")
    ]

abbrev hex_digit : ℕ → ℕ
hex_digit n = if ltb n 10 then b'0' + n else 87 + n

-- `hex.EncodeToString`
unfoldable pub encode_to_string : Bytes → Bytes
encode_to_string [] = []
encode_to_string (c ∷ s) = hex_digit (c / 16) ∷ hex_digit (c % 16) ∷ encode_to_string s

-- The counter of requests and the histogram of durations by service and method; `rand.Read` of 16
-- bytes, where `none` is an error; and the text of a status code.
pub record Observer (W E A : Type 0) : Type 0 where
  pub handled : Bytes → Bytes → Bytes → W → W
  pub observe_duration : Bytes → Bytes → W → W
  pub random : W → Option Bytes × W
  pub code : Result E A → Bytes

module _ {W E A : Type 0} (o : Observer W E A) where
  unfoldable pub new_request_id : W → Bytes × W
  new_request_id w = elim (o.random w).0 [
    | none ↦ (codes "missing-request-id", (o.random w).1)
    | some buf ↦ (encode_to_string buf, (o.random w).1)
  ]

  -- The values of x-request-id in the incoming metadata, if there is any metadata.
  unfoldable pub incoming_request_id : Option (List Bytes) → W → Bytes × W
  incoming_request_id none w = new_request_id w
  incoming_request_id (some []) w = new_request_id w
  incoming_request_id (some (value ∷ values)) w =
      if is_empty value then new_request_id w else (value, w)

  -- What is counted of an answer.
  unfoldable pub count_request : Bytes → Result E A → W → W
  count_request full_method answer w =
      let (service, method) = split_method full_method in
      o.observe_duration service method (o.handled service method (o.code answer) w)

  -- The handler gets the request ID with its context.
  unfoldable pub unary_server_interceptor :
      Option (List Bytes) → Bytes → (Bytes → Exec W E A) → Exec W E A
  unary_server_interceptor metadata full_method handler w =
      let (request_id, w₁) = incoming_request_id metadata w in
      let answer = handler request_id w₁ in (answer.0, count_request full_method answer.0 answer.1)
