-- ===== src/Grpc/Method.antt =====
-- splitMethod of grpc.go.
use cascade_feed_ranking_eng.Common.{false, none, some, [], ◌∷◌, ◌++◌, Bytes, ◌≡◌, refl, arith}
use cascade_feed_ranking_eng.Common.Env.Csv.{has_byte}
use cascade_feed_ranking_eng.Grpc.{last_slash, without_slash, split_method}

last_slash-none : (s : Bytes) → has_byte b'/' s ≡ false → last_slash s ≡ none
unfolding last_slash
last_slash-none [] h = refl
last_slash-none (c ∷ s) h = rw (last_slash-none s (ground arith), last_slash) (ground arith)

last_slash-some : (s t : Bytes) → has_byte b'/' t ≡ false → last_slash (s ++ b'/' ∷ t) ≡ some (s, t)
unfolding last_slash
last_slash-some [] t h = rw (last_slash-none t h, last_slash) refl
last_slash-some (c ∷ s) t h = rw (last_slash-some s t h, last_slash) refl

-- A full method name is split at its last slash: the service may hold slashes and the method none.
split_method_lem :
    (service method : Bytes)
    → has_byte b'/' method ≡ false
    → split_method (b'/' ∷ service ++ b'/' ∷ method) ≡ (service, method)
unfolding split_method without_slash
split_method_lem service method h = rw (last_slash-some service method h) refl
