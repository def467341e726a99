-- ===== src/Fanout/Timeline/Replay.antt =====
-- Redelivery of a post event: redis.go's FanoutPost, run again after a failure or a success.
use cascade_feed_ranking_eng.Common.{
  ℕ, zero, suc, ◌<◌, ℤ, lt_ℤ, pos, eq_ℤ, eq_ℤ_iff, true, false, List, [], ◌∷◌, ◌++◌, has, take,
  drop, take_all, length, All, All-zip, Bytes, Error, ok, err, Result-cases, continue-ok, each,
  Bool-cases, inl, inr, ◌≡◌, ◌≢◌, refl, sym, ap, ◌∙◌, subst, arith,
}
use cascade_feed_ranking_eng.Common.Decimal.{format_int, parse_int, parse-format_int, IsInt64}
use cascade_feed_ranking_eng.Common.SortKeys.{All-has}
use cascade_feed_ranking_eng.Redis.{Client, Command, zadd, zremrangebyrank, timeline_key, key_of}
use cascade_feed_ranking_eng.Fanout.{Post}
use cascade_feed_ranking_eng.Fanout.Timeline.{
  Redis, entry, trim, fanout_commands, fanout_batch, fanout_post,
}
use cascade_feed_ranking_eng.Fanout.Timeline.Batches.{concat, fanout_post-IsCut}

pub apply_all : {S : Type 0} → (Command → S → S) → List Command → S → S
apply_all apply [] s = s
apply_all apply (c ∷ cs) s = apply_all apply cs (apply c s)

-- A command on the sorted set of a key.
abbrev pub IsOn : Bytes → Command → Type 0
IsOn key (zadd k entries) = k ≡ key
IsOn key (zremrangebyrank k first last) = k ≡ key
IsOn key _ = ⊥

-- What Redis documents of its sorted sets: `state` is the data of a world, and `apply` what one
-- command does to it. A pipeline that succeeds has applied its commands in order, and one that
-- fails some first part of them. Commands on different keys do not interfere. Adding a member again
-- with the same score changes nothing, and if the set was cut to its newest `n` in between, it is
-- after another cut as it was.
pub record IsSortedSets {W S : Type 0} (client : Client W) (state : W → S) (apply : Command → S → S)
    : Type 0 where
  pub pipeline_ok :
      (cs : List Command) (w : W)
      → (client.pipeline cs w).0 ≡ ok tt
      → state (client.pipeline cs w).1 ≡ apply_all apply cs (state w)
  pub pipeline_err :
      (cs : List Command) (w : W) (e : Error)
      → (client.pipeline cs w).0 ≡ err e
      → (n : ℕ) × (state (client.pipeline cs w).1 ≡ apply_all apply (take n cs) (state w))
  pub apart :
      (j k : Bytes) (c d : Command) (s : S)
      → IsOn j c
      → IsOn k d
      → j ≢ k
      → apply c (apply d s) ≡ apply d (apply c s)
  pub add_again :
      (k : Bytes) (e : Bytes × ℤ) (s : S)
      → apply (zadd k (e ∷ [])) (apply (zadd k (e ∷ [])) s) ≡ apply (zadd k (e ∷ [])) s
  pub add_trimmed :
      (k : Bytes) (e : Bytes × ℤ) (n : ℤ) (s : S)
      → lt_ℤ n (pos 0) ≡ false
      → apply (trim k n) (apply (zadd k (e ∷ [])) (apply (trim k n) (apply (zadd k (e ∷ [])) s)))
        ≡ apply (trim k n) (apply (zadd k (e ∷ [])) s)

-- Different users have different timelines.
timeline_key-injective : (i j : ℤ) → IsInt64 i → IsInt64 j → timeline_key i ≡ timeline_key j → i ≡ j
unfolding timeline_key key_of
timeline_key-injective i j a b e =
    let texts : format_int i ≡ format_int j = ap (λ s. drop 9 s) e in
    let parsed = sym (parse-format_int i a) ∙ ap parse_int texts ∙ parse-format_int j b in cc

apart_ids : (i j : ℤ) → eq_ℤ i j ≡ false → i ≢ j
apart_ids i j differ e = ground (arith, eq_ℤ_iff i j)

apply_all-append :
    {S : Type 0} (apply : Command → S → S) (xs ys : List Command) (s : S)
    → apply_all apply (xs ++ ys) s ≡ apply_all apply ys (apply_all apply xs s)
unfolding apply_all
apply_all-append apply [] ys s = refl
apply_all-append apply (x ∷ xs) ys s = apply_all-append apply xs ys (apply x s)

fanout_commands-append :
    (post : Post) (n : ℤ) (xs ys : List ℤ)
    → fanout_commands post n (xs ++ ys) ≡ fanout_commands post n xs ++ fanout_commands post n ys
unfolding fanout_commands
fanout_commands-append post n [] ys = refl
fanout_commands-append post n (x ∷ xs) ys = rw (fanout_commands-append post n xs ys) refl

All-unappend : (P : ℤ → Type 0) (xs ys : List ℤ) → All P (xs ++ ys) → All P xs × All P ys
All-unappend P [] ys a = (tt, a)
All-unappend P (x ∷ xs) ys a = let (b, c) = All-unappend P xs ys a.1 in ((a.0, b), c)

All-batches :
    (P : ℤ → Type 0) (batches : List (List ℤ)) → All P (concat batches) → All (All P) batches
unfolding concat
All-batches P [] a = tt
All-batches P (b ∷ batches) a =
    let (here, below) = All-unappend P b (concat batches) a in (here, All-batches P batches below)

module _ {W S : Type 0} (r : Redis W) (state : W → S) (apply : Command → S → S)
    (sets : IsSortedSets r.client state apply) (post : Post) (n : ℤ)
    (bounded : lt_ℤ n (pos 0) ≡ false) where
  -- One follower, and a list of them.
  add : ℤ → S → S
  add i = apply (zadd (timeline_key i) (entry post ∷ []))

  cut : ℤ → S → S
  cut i = apply (trim (timeline_key i) n)

  all : List ℤ → S → S
  all ids = apply_all apply (fanout_commands post n ids)

  all-cons : (i : ℤ) (ids : List ℤ) (s : S) → all (i ∷ ids) s ≡ all ids (cut i (add i s))
  unfolding all apply_all fanout_commands cut add
  all-cons i ids s = refl

  swap :
      (i j : ℤ) (c : Command) (s : S)
      → IsInt64 i
      → IsInt64 j
      → eq_ℤ i j ≡ false
      → IsOn (timeline_key j) c
      → cut i (add i (apply c s)) ≡ apply c (cut i (add i s))
  unfolding cut add trim
  swap i j c s a b differ on =
      let keys : timeline_key i ≢ timeline_key j =
        λ e. apart_ids i j differ (timeline_key-injective i j a b e) in
      let added =
        sets.apart (timeline_key i) (timeline_key j) (zadd (timeline_key i) (entry post ∷ [])) c s
          refl on keys in
      ap (cut i) added
      ∙ sets.apart (timeline_key i) (timeline_key j) (trim (timeline_key i) n) c (add i s) refl on
          keys

  -- A command pair, or the first half of it, that was run before for a follower of the list leaves
  -- no trace after the whole list.
  all-add :
      (i : ℤ) (ids : List ℤ) (s : S)
      → IsInt64 i
      → All IsInt64 ids
      → has i ids ≡ true
      → all ids (add i s) ≡ all ids s
  unfolding has add
  all-add i [] s a b h = cc
  all-add i (j ∷ ids) s a b h = elim (Bool-cases (eq_ℤ j i)) [
    | inl here ↦
        let again =
          subst (λ x. add j (add x s) ≡ add j s) ((eq_ℤ_iff j i).0 here)
            (sets.add_again (timeline_key j) (entry post) s) in
        all-cons j ids (add i s) ∙ ap (λ x. all ids (cut j x)) again ∙ sym (all-cons j ids s)
    | inr differ ↦
        all-cons j ids (add i s)
        ∙ ap (all ids) (swap j i (zadd (timeline_key i) (entry post ∷ [])) s b.0 a differ refl)
        ∙ all-add i ids (cut j (add j s)) a b.1 (ground arith)
        ∙ sym (all-cons j ids s)
  ]

  all-cut :
      (i : ℤ) (ids : List ℤ) (s : S)
      → IsInt64 i
      → All IsInt64 ids
      → has i ids ≡ true
      → all ids (cut i (add i s)) ≡ all ids s
  unfolding has add cut trim
  all-cut i [] s a b h = cc
  all-cut i (j ∷ ids) s a b h = elim (Bool-cases (eq_ℤ j i)) [
    | inl here ↦
        let again =
          subst (λ x. cut j (add j (cut x (add x s))) ≡ cut j (add j s)) ((eq_ℤ_iff j i).0 here)
            (sets.add_trimmed (timeline_key j) (entry post) n s bounded) in
        all-cons j ids (cut i (add i s)) ∙ ap (all ids) again ∙ sym (all-cons j ids s)
    | inr differ ↦
        all-cons j ids (cut i (add i s))
        ∙ ap (all ids) (
            swap j i (trim (timeline_key i) n) (add i s) b.0 a differ refl
            ∙ ap (cut i) (swap j i (zadd (timeline_key i) (entry post ∷ [])) s b.0 a differ refl))
        ∙ all-cut i ids (cut j (add j s)) a b.1 (ground arith)
        ∙ sym (all-cons j ids s)
  ]

  -- So does any first part of the commands for some of the followers.
  all-part :
      (m : ℕ) (part ids : List ℤ) (s : S)
      → All IsInt64 ids
      → All (λ i. IsInt64 i × (has i ids ≡ true)) part
      → all ids (apply_all apply (take m (fanout_commands post n part)) s) ≡ all ids s
  unfolding apply_all fanout_commands add cut
  all-part zero [] ids s b h = refl
  all-part (suc m) [] ids s b h = refl
  all-part zero (i ∷ part) ids s b h = refl
  all-part (suc zero) (i ∷ part) ids s b h = all-add i ids s h.0.0 b h.0.1
  all-part (suc (suc m)) (i ∷ part) ids s b h =
      all-part m part ids (cut i (add i s)) b h.1 ∙ all-cut i ids s h.0.0 b h.0.1

  -- Whatever became of the pipelines for some of the followers.
  pipeline_effect :
      (cs : List Command) (w : W)
      → (m : ℕ) × (state (r.client.pipeline cs w).1 ≡ apply_all apply (take m cs) (state w))
  pipeline_effect cs w = elim (Result-cases (r.client.pipeline cs w).0) [
    | inl (tt, good) ↦ (
      length cs,
      sets.pipeline_ok cs w good
          ∙ ap (λ x. apply_all apply x (state w)) (sym (take_all (length cs) cs (omega arith))),
    )
    | inr (e, bad) ↦ sets.pipeline_err cs w e bad
  ]

  part_effect :
      (part ids : List ℤ) (w : W)
      → All IsInt64 ids
      → All (λ i. IsInt64 i × (has i ids ≡ true)) part
      → all ids (state (fanout_batch r post n part w).1) ≡ all ids (state w)
  unfolding fanout_batch
  part_effect part ids w b h =
      let (m, after) = pipeline_effect (fanout_commands post n part) w in
      ap (all ids) after ∙ all-part m part ids (state w) b h

  all-batches :
      (batches : List (List ℤ)) (ids : List ℤ) (w : W)
      → All IsInt64 ids
      → All (All (λ i. IsInt64 i × (has i ids ≡ true))) batches
      → all ids (state (each (fanout_batch r post n) batches w).1) ≡ all ids (state w)
  unfolding each
  all-batches [] ids w b h = refl
  all-batches (part ∷ batches) ids w b h =
      let done = fanout_batch r post n part w in
      elim (Result-cases done.0) [
        | inl (tt, good) ↦
            rw good (all-batches batches ids done.1 b h.1 ∙ part_effect part ids w b h.0)
        | inr (e, bad) ↦ rw bad (part_effect part ids w b h.0)
      ]

  -- A delivery that succeeds applies the commands of all followers.
  batches-ok :
      (batches : List (List ℤ)) (w : W)
      → (each (fanout_batch r post n) batches w).0 ≡ ok tt
      → state (each (fanout_batch r post n) batches w).1 ≡ all (concat batches) (state w)
  unfolding each fanout_batch concat all fanout_commands apply_all
  batches-ok [] w h = refl
  batches-ok (part ∷ batches) w h =
      let done = fanout_batch r post n part w in
      let (tt, good, rest) = continue-ok done (λ _. each (fanout_batch r post n) batches) tt h in
      let cs = fanout_commands post n part in
      rw good (
        batches-ok batches done.1 rest
        ∙ ap (all (concat batches)) (sets.pipeline_ok cs w good)
        ∙ sym (apply_all-append apply cs (fanout_commands post n (concat batches)) (state w))
        ∙ ap (λ x. apply_all apply x (state w))
            (sym (fanout_commands-append post n part (concat batches))))

  -- Kafka delivers a post event at least once. Once a delivery has succeeded, the timelines in Redis
  -- are what they would be if it had been the only one, applied to the data before an earlier
  -- delivery `first` that failed anywhere or succeeded: the followers are int64, the batch size is
  -- positive, the limit of a timeline is not negative, and Redis keeps its sorted sets as documented.
  pub fanout_post_replayed :
      (follower_ids : List ℤ) (batch_size : ℕ) (first second : W)
      → All IsInt64 follower_ids
      → 0 < batch_size
      → state second ≡ state (fanout_post r follower_ids post n batch_size first).1
      → (fanout_post r follower_ids post n batch_size second).0 ≡ ok tt
      → state (fanout_post r follower_ids post n batch_size second).1
        ≡ apply_all apply (fanout_commands post n follower_ids) (state first)
  unfolding all
  fanout_post_replayed follower_ids batch_size first second ints positive again good =
      let (batches, cuts, same) = fanout_post-IsCut r follower_ids post n batch_size positive in
      let members : All (All (λ i. IsInt64 i × (has i follower_ids ≡ true))) batches =
        All-batches (λ i. IsInt64 i × (has i follower_ids ≡ true)) batches
          (subst (All (λ i. IsInt64 i × (has i follower_ids ≡ true))) (sym cuts.whole) (
            All-zip IsInt64 (λ i. has i follower_ids ≡ true) follower_ids ints
              (All-has follower_ids follower_ids (λ i h. h)))) in
      ap (λ x. state x.1) (same second)
      ∙ batches-ok batches second (sym (ap (λ x. x.0) (same second)) ∙ good)
      ∙ ap (λ x. all x (state second)) cuts.whole
      ∙ ap (all follower_ids) (again ∙ ap (λ x. state x.1) (same first))
      ∙ all-batches batches follower_ids first ints members
