-- ===== src/Feed/Cursor/RoundTrip.antt =====
-- The page tokens of cursor.go: what `Encode` writes, `Decode` reads back.
use cascade_feed_ranking_eng.Common.{
  ℤ, ◌≤◌, ◌<◌, nonpos, pos, lt_ℤ, eq_ℤ, true, false, none, some, [], Bytes, length, is_empty, ◌≡◌,
  ◌∙◌, eq_ℤ_iff, ◌↔◌, arith, Bool-cases, Option-cases, inl, inr, subst, ap, refl, ltb,
}
use cascade_feed_ranking_eng.Feed.Float.{Float64}
use cascade_feed_ranking_eng.Feed.Cursor.{
  Cursor, Codec, eof, version, valid, encode, decode, decode_json, accept, ensure_eof,
}

-- base64 decodes what it encoded; a cursor with a finite score has a JSON text, of less than 700
-- bytes, that a decoder reads back with nothing left; the end of a stream is its end.
pub record IsCodec (fl : Float64) (codec : Codec fl.F) : Type 0 where
  pub string_back : (raw : Bytes) → codec.decode_string (codec.encode_to_string raw) ≡ some raw
  pub marshal_back :
      (c : Cursor fl.F)
      → fl.is_nan c.score ≡ false
      → fl.is_inf c.score ≡ false
      → (raw : Bytes) × (codec.marshal c ≡ some raw)
        × (codec.decode_value raw ≡ some (c, []))
        × (0 < length (codec.encode_to_string raw))
        × (length (codec.encode_to_string raw) ≤ 1024)
  pub extra_end : codec.decode_extra [] ≡ eof

module _ (fl : Float64) (codec : Codec fl.F) where
  abbrev pub cursor_of : fl.F → ℤ → ℤ → Cursor fl.F
  cursor_of score ms id = record {
    score = score;
    created_at_unix_ms = ms;
    post_id = id;
    version = version;
  }

  valid_parts :
      (score : fl.F) (ms id : ℤ)
      → valid fl codec score ms id ≡ true
      → (fl.is_nan score ≡ false)
        × (fl.is_inf score ≡ false)
        × (nonpos ms ≡ false)
        × (nonpos id ≡ false)
  unfolding valid
  valid_parts score ms id h = ground arith

  accept_lem :
      (score : fl.F) (ms id : ℤ)
      → IsCodec fl codec
      → valid fl codec score ms id ≡ true
      → accept fl codec (cursor_of score ms id) [] ≡ some (cursor_of score ms id)
  unfolding accept ensure_eof eq_ℤ
  accept_lem score ms id k h = ground (arith, k.extra_end)

  decode-encoded :
      (raw : Bytes) (c : Cursor fl.F)
      → IsCodec fl codec
      → codec.decode_value raw ≡ some (c, [])
      → 0 < length (codec.encode_to_string raw)
      → length (codec.encode_to_string raw) ≤ 1024
      → decode fl codec (codec.encode_to_string raw) ≡ accept fl codec c []
  unfolding decode decode_json
  decode-encoded raw c k d p q = ground (arith, k.string_back raw)

  -- A valid cursor has a token, which is not empty and decodes to that cursor.
  pub decode-encode :
      (score : fl.F) (ms id : ℤ)
      → IsCodec fl codec
      → valid fl codec score ms id ≡ true
      → (token : Bytes) × (encode fl codec score ms id ≡ some token)
        × (is_empty token ≡ false)
        × (decode fl codec token ≡ some (cursor_of score ms id))
  unfolding encode
  decode-encode score ms id k h =
      let (nan, inf, _, _) = valid_parts score ms id h in
      let (raw, written, read, nonempty, short) = k.marshal_back (cursor_of score ms id) nan inf in
      (
        codec.encode_to_string raw,
        ground arith,
        ground arith,
        decode-encoded raw (cursor_of score ms id) k read nonempty short
            ∙ accept_lem score ms id k h,
      )

  -- `Encode` refuses exactly the values that are not valid.
  encode-none_iff :
      (score : fl.F) (ms id : ℤ)
      → IsCodec fl codec
      → (encode fl codec score ms id ≡ none) ↔ (valid fl codec score ms id ≡ false)
  unfolding encode
  encode-none_iff score ms id k = (
    λ e. elim (Bool-cases (valid fl codec score ms id)) [
      | inl v ↦ let (token, written, _, _) = decode-encode score ms id k v in cc
      | inr v ↦ v
    ],
    λ v. rw v,
  )

  -- A cursor that a client may send: of this version, with a finite score, and a positive time and ID.
  pub record IsSound (c : Cursor fl.F) : Type 0 where
    pub this_version : c.version ≡ pos 1
    pub number : fl.is_nan c.score ≡ false
    pub finite : fl.is_inf c.score ≡ false
    pub time : lt_ℤ (pos 0) c.created_at_unix_ms ≡ true
    pub id : lt_ℤ (pos 0) c.post_id ≡ true

  -- Base64 of the JSON text of the cursor, with nothing after it, in 1 to 1024 bytes.
  abbrev pub IsTokenOf : Bytes → Cursor fl.F → Type 0
  IsTokenOf token c =
      (is_empty token ≡ false)
      × (length token ≤ 1024)
      × ((raw : Bytes) × (rest : Bytes) × (codec.decode_string token ≡ some raw)
          × (codec.decode_value raw ≡ some (c, rest))
          × (codec.decode_extra rest ≡ eof))

  positive : (n : ℤ) → (nonpos n ≡ false) ↔ (lt_ℤ (pos 0) n ≡ true)
  unfolding nonpos lt_ℤ
  positive n = ground arith

  valid-IsSound :
      (v : Cursor fl.F)
      → eq_ℤ v.version version ≡ true
      → valid fl codec v.score v.created_at_unix_ms v.post_id ≡ true
      → IsSound v
  valid-IsSound v e h =
      let (nan, inf, time, id) = valid_parts v.score v.created_at_unix_ms v.post_id h in
      record {
        this_version = (eq_ℤ_iff v.version version).0 e;
        number = nan;
        finite = inf;
        time = (positive v.created_at_unix_ms).0 time;
        id = (positive v.post_id).0 id;
      }

  IsSound-valid :
      (c : Cursor fl.F) → IsSound c → valid fl codec c.score c.created_at_unix_ms c.post_id ≡ true
  unfolding valid
  IsSound-valid c s =
      rw (s.number, s.finite, (positive c.created_at_unix_ms).1 s.time, (positive c.post_id).1 s.id)
        refl

  accepted :
      (v : Cursor fl.F) (rest : Bytes) (c : Cursor fl.F)
      → accept fl codec v rest ≡ some c
      → (codec.decode_extra rest ≡ eof)
        × (v ≡ c)
        × (eq_ℤ v.version version ≡ true)
        × (valid fl codec v.score v.created_at_unix_ms v.post_id ≡ true)
  unfolding accept ensure_eof
  accepted v rest c h = ground arith

  accept-IsSound :
      (v : Cursor fl.F) (rest : Bytes) (c : Cursor fl.F)
      → (accept fl codec v rest ≡ some c) ↔ ((v ≡ c) × (codec.decode_extra rest ≡ eof) × IsSound c)
  unfolding accept ensure_eof
  accept-IsSound v rest c = (
    λ h.
        let (at_end, same, now, good) = accepted v rest c h in
        (same, at_end, subst IsSound same (valid-IsSound v now good)),
    λ (same, at_end, sound).
        let good = IsSound-valid c sound in
        let now = (eq_ℤ_iff c.version version).1 sound.this_version in
        rw (same, ensure_eof, at_end, now, good) refl,
  )

  decoded_parts :
      (token : Bytes) (c : Cursor fl.F)
      → decode fl codec token ≡ some c
      → (is_empty token ≡ false)
        × (length token ≤ 1024)
        × ((raw : Bytes) × (codec.decode_string token ≡ some raw)
            × (decode_json fl codec raw ≡ some c))
  unfolding decode
  decoded_parts token c h = elim (Option-cases (codec.decode_string token)) [
    | inl bad ↦ absurd (ground arith)
    | inr (raw, got) ↦ (ground arith, ground arith, (raw, got, ground arith))
  ]

  json_parts :
      (raw : Bytes) (c : Cursor fl.F)
      → decode_json fl codec raw ≡ some c
      → (v : Cursor fl.F) × (rest : Bytes) × (codec.decode_value raw ≡ some (v, rest))
        × (accept fl codec v rest ≡ some c)
  unfolding decode_json
  json_parts raw c h = elim (Option-cases (codec.decode_value raw)) [
    | inl bad ↦ absurd (ground arith)
    | inr ((v, rest), got) ↦ (v, rest, got, ground arith)
  ]

  -- Decode accepts exactly the tokens of at most 1024 bytes that hold a cursor and nothing else, whose
  -- version is 1, whose score is finite, and whose time and post ID are positive; and it gives that
  -- cursor.
  pub decode-some_iff :
      (token : Bytes) (c : Cursor fl.F)
      → (decode fl codec token ≡ some c) ↔ (IsTokenOf token c × IsSound c)
  unfolding decode decode_json
  decode-some_iff token c = (
    λ h.
        let (filled, short, (raw, got, parsed)) = decoded_parts token c h in
        let (v, rest, read, taken) = json_parts raw c parsed in
        let (same, at_end, sound) = (accept-IsSound v rest c).0 taken in
        ((filled, short, (raw, rest, got, read ∙ ap (λ x. some (x, rest)) same, at_end)), sound),
    λ ((filled, short, (raw, rest, got, read, at_end)), sound).
        let taken = (accept-IsSound c rest c).1 (refl, at_end, sound) in
        let within : ltb 1024 (length token) ≡ false = ground arith in
        rw (filled, within, got, decode) (rw (read, decode_json) taken),
  )
