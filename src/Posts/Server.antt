-- ===== src/Posts/Server.antt =====
-- services/post-service/internal/postserver/server.go: the three handlers over their repository,
-- cache and publisher, which act on the world `W`. Log lines are not modelled; a status is its code.
-- A side effect runs to its end or to its timeout, and either way its error is only logged.
pub mod Reads
pub mod Effects
use cascade_feed_ranking_eng.Common.{
  ℕ, ltb, ℤ, nonpos, Bool, true, false, not, ◌&&◌, ◌||◌, Option, none, some, List, [], ◌∷◌, map,
  Map, lookup, insert, append_unseen, Bytes, codes, eq_bytes, is_empty, length, floor_div, Error,
  canceled, deadline_exceeded, not_found, forbidden, pg_error, other, permanent, Result, ok, err,
  Exec, pure, raise, lift, reject, on_error, ◌>>=◌, ◌>>◌, if◌then◌else◌,
}
use cascade_feed_ranking_eng.Posts.{Post}

pub data Code : Type 0 where
  code_canceled code_invalid_argument code_deadline_exceeded code_not_found code_permission_denied
        code_internal :
      Code

pub record CreatePostRequest : Type 0 where
  pub author_id : ℤ
  pub content : Bytes
  pub media_url : Bytes

pub record CreatePostResponse : Type 0 where
  pub post_id : ℤ
  pub created_at_unix_ms : ℤ

pub record DeletePostRequest : Type 0 where
  pub post_id : ℤ
  pub requesting_user_id : ℤ

-- The Post of the gRPC interface.
pub record ProtoPost : Type 0 where
  pub id : ℤ
  pub author_id : ℤ
  pub content : Bytes
  pub media_url : Bytes
  pub created_at_unix_ms : ℤ

-- A parsed URL: its scheme and host.
pub record Url : Type 0 where
  pub scheme : Bytes
  pub host : Bytes

-- `strings.TrimSpace`, `len([]rune(s))` and `url.ParseRequestURI`.
pub record Text : Type 0 where
  pub trim_space : Bytes → Bytes
  pub rune_count : Bytes → ℕ
  pub parse_request_uri : Bytes → Option Url

-- The interfaces Repository, Cache and EventPublisher, and the query counter.
pub record Server (W : Type 0) : Type 0 where
  pub create : ℤ → Bytes → Bytes → Exec W Error Post
  pub get_by_ids : List ℤ → Exec W Error (Map Post)
  pub delete : ℤ → ℤ → Exec W Error (ℤ × ℤ)
  pub set : Post → Exec W Error (Unit {0})
  pub set_many : List Post → Exec W Error (Unit {0})
  pub get_many : List ℤ → Exec W Error (Map Post)
  pub delete_and_tombstone : ℤ → Exec W Error (Unit {0})
  pub publish_created : Post → Exec W Error (Unit {0})
  pub publish_deleted : ℤ → ℤ → ℤ → Exec W Error (Unit {0})
  pub record_query : W → W
  pub text : Text

unfoldable pub rpc_error : Error → Code
rpc_error canceled = code_canceled
rpc_error deadline_exceeded = code_deadline_exceeded
rpc_error _ = code_internal

-- "23503" is a foreign key that is missing: the author's.
unfoldable pub create_error : Error → Code
create_error (pg_error code) =
    if eq_bytes code (codes "23503") then code_not_found else code_internal
create_error canceled = code_canceled
create_error deadline_exceeded = code_deadline_exceeded
create_error _ = code_internal

unfoldable pub delete_error : Error → Code
delete_error not_found = code_not_found
delete_error forbidden = code_permission_denied
delete_error canceled = code_canceled
delete_error deadline_exceeded = code_deadline_exceeded
delete_error _ = code_internal

abbrev pub max_content_length : ℕ
max_content_length = 5000

abbrev pub max_media_url_length : ℕ
max_media_url_length = 2048

unfoldable pub is_http_url : Option Url → Bool
is_http_url none = false
is_http_url (some url) =
    (eq_bytes url.scheme (codes "http") || eq_bytes url.scheme (codes "https"))
    && not (is_empty url.host)

unfoldable pub validate_create : Text → CreatePostRequest → Result Code (Unit {0})
validate_create t req =
    let content = t.trim_space req.content in
    let media_url = t.trim_space req.media_url in
    if nonpos req.author_id
    then err code_invalid_argument
    else if is_empty content
    then err code_invalid_argument
    else if ltb max_content_length (t.rune_count content)
    then err code_invalid_argument
    else if ltb max_media_url_length (length media_url)
    then err code_invalid_argument
    else if not (is_empty media_url) && not (is_http_url (t.parse_request_uri media_url))
    then err code_invalid_argument
    else ok tt

unfoldable pub unique : List ℤ → List ℤ
unique ids = append_unseen [] [] ids

unfoldable pub to_proto : Post → ProtoPost
to_proto p = record {
  id = p.id;
  author_id = p.author_id;
  content = p.content;
  media_url = p.media_url;
  created_at_unix_ms = floor_div p.created_at 1000000;
}

unfoldable pub any_nonpos : List ℤ → Bool
any_nonpos [] = false
any_nonpos (id ∷ ids) = nonpos id || any_nonpos ids

-- The IDs without an entry in the map.
unfoldable pub missing_ids : Map Post → List ℤ → List ℤ
missing_ids cached [] = []
missing_ids cached (id ∷ ids) =
    let rest = missing_ids cached ids in
    elim (lookup id cached) [ none ↦ id ∷ rest | some p ↦ rest ]

-- `for id, p := range hydrated { cached[id] = p }`
unfoldable pub add_hydrated : Map Post → Map Post → Map Post
add_hydrated [] cached = cached
add_hydrated ((id, p) ∷ hydrated) cached = add_hydrated hydrated (insert id p cached)

-- The loop of the response.
unfoldable pub found_posts : Map Post → List ℤ → List ProtoPost
found_posts cached [] = []
found_posts cached (id ∷ ids) =
    let rest = found_posts cached ids in
    elim (lookup id cached) [ none ↦ rest | some p ↦ to_proto p ∷ rest ]

-- The cache, or an empty map if it fails.
unfoldable pub or_empty : Result Error (Map Post) → Map Post
or_empty (ok cached) = cached
or_empty (err e) = []

module _ {W : Type 0} where
  -- A side effect whose error is logged.
  unfoldable pub best_effort : Exec W Error (Unit {0}) → Exec W Code (Unit {0})
  best_effort m w = (ok tt, (m w).1)

  unfoldable pub read_cache : Server W → List ℤ → Exec W Code (Map Post)
  read_cache s ids w = (ok (or_empty (s.get_many ids w).0), (s.get_many ids w).1)

  unfoldable pub hydrate_missing : Server W → Map Post → List ℤ → Exec W Code (Map Post)
  hydrate_missing s cached [] = pure cached
  hydrate_missing s cached (id ∷ ids) = do
    hydrated ← on_error rpc_error (s.get_by_ids (id ∷ ids))
    λ w. (ok tt, s.record_query w)
    best_effort (s.set_many (map (λ e. e.1) hydrated))
    pure (add_hydrated hydrated cached)

  unfoldable pub create_post : Server W → Option CreatePostRequest → Exec W Code CreatePostResponse
  create_post s none = raise code_invalid_argument
  create_post s (some req) = do
    lift (validate_create s.text req)
    p ←
        on_error create_error
          (s.create req.author_id (s.text.trim_space req.content) (s.text.trim_space req.media_url))
    best_effort (s.set p)
    best_effort (s.publish_created p)
    pure (record { post_id = p.id; created_at_unix_ms = floor_div p.created_at 1000000 })

  -- A missing request has no IDs.
  unfoldable pub get_posts : Server W → List ℤ → Exec W Code (List ProtoPost)
  get_posts s post_ids = do
    reject (is_empty post_ids) code_invalid_argument
    reject (any_nonpos post_ids) code_invalid_argument
    cached ← read_cache s (unique post_ids)
    all ← hydrate_missing s cached (missing_ids cached (unique post_ids))
    pure (found_posts all post_ids)

  unfoldable pub delete_post : Server W → Option DeletePostRequest → Exec W Code Bool
  delete_post s none = raise code_invalid_argument
  delete_post s (some req) = do
    reject (nonpos req.post_id || nonpos req.requesting_user_id) code_invalid_argument
    (author_id, deleted_at) ← on_error delete_error (s.delete req.post_id req.requesting_user_id)
    best_effort (s.delete_and_tombstone req.post_id)
    best_effort (s.publish_deleted req.post_id author_id deleted_at)
    pure true
