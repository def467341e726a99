-- ===== src/Feed/Cursor.antt =====
-- services/feed-service/internal/cursor/cursor.go: page tokens. base64 and JSON are operations of
-- the parameter `Codec`; what the service does around them is the code below.
pub mod RoundTrip
use cascade_feed_ranking_eng.Common.{
  ℤ, pos, nonpos, eq_ℤ, ltb, Bool, true, false, not, ◌&&◌, ◌||◌, Option, none, some, Bytes,
  is_empty, length, if◌then◌else◌,
}
use cascade_feed_ranking_eng.Feed.Float.{Float64}

abbrev pub version : ℤ
version = pos 1

pub record Cursor (F : Type 0) : Type 0 where
  pub score : F
  pub created_at_unix_ms : ℤ
  pub post_id : ℤ
  pub version : ℤ

-- What a second `Decode` on the stream meets: its end, one more value, or something malformed.
pub data Extra : Type 0 where
  eof value malformed : Extra

-- `base64.RawURLEncoding`, `json.Marshal` and a `json.Decoder` that refuses unknown fields:
-- `decode_value` gives the value and what follows it.
pub record Codec (F : Type 0) : Type 0 where
  pub encode_to_string : Bytes → Bytes
  pub decode_string : Bytes → Option Bytes
  pub marshal : Cursor F → Option Bytes
  pub decode_value : Bytes → Option (Cursor F × Bytes)
  pub decode_extra : Bytes → Extra

module _ (fl : Float64) (codec : Codec fl.F) where
  open fl use {F, is_nan, is_inf}

  unfoldable pub valid : F → ℤ → ℤ → Bool
  valid score created_at_unix_ms post_id =
      not (is_nan score)
      && not (is_inf score)
      && not (nonpos created_at_unix_ms)
      && not (nonpos post_id)

  unfoldable pub encode : F → ℤ → ℤ → Option Bytes
  encode score created_at_unix_ms post_id =
      if not (valid score created_at_unix_ms post_id)
      then none
      else elim (codec.marshal (record {
        score = score;
        created_at_unix_ms = created_at_unix_ms;
        post_id = post_id;
        version = version;
      })) [ none ↦ none | some encoded ↦ some (codec.encode_to_string encoded) ]

  unfoldable pub ensure_eof : Bytes → Bool
  ensure_eof rest = elim (codec.decode_extra rest) [
    | eof ↦ true
    | value ↦ false
    | malformed ↦ false
  ]

  unfoldable pub accept : Cursor F → Bytes → Option (Cursor F)
  accept v rest =
      if not (ensure_eof rest)
      then none
      else if not (eq_ℤ v.version version) || not (valid v.score v.created_at_unix_ms v.post_id)
      then none
      else some v

  unfoldable pub decode_json : Bytes → Option (Cursor F)
  decode_json raw = elim (codec.decode_value raw) [ none ↦ none | some (v, rest) ↦ accept v rest ]

  unfoldable pub decode : Bytes → Option (Cursor F)
  decode token =
      if is_empty token || ltb 1024 (length token)
      then none
      else elim (codec.decode_string token) [ none ↦ none | some raw ↦ decode_json raw ]
