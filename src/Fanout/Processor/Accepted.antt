-- ===== src/Fanout/Processor/Accepted.antt =====
-- What processor.go does with a record: which payloads it refuses, and which events it handles.
use cascade_feed_ranking_eng.Common.{
  true, false, Bytes, eq_bytes, Error, permanent, Result, Result-cases, ok, err, Bool-cases, ◌≡◌,
  sym, ◌∙◌, inl, inr,
}
use cascade_feed_ranking_eng.Fanout.{Event}
use cascade_feed_ranking_eng.Fanout.Events.{parse_post, parse_follow}
use cascade_feed_ranking_eng.Fanout.Events.Readings.{
  IsPostEvent, IsFollowEvent, parse_post-IsPostEvent, parse_post-permanent,
  parse_follow-IsFollowEvent, parse_follow-permanent,
}
use cascade_feed_ranking_eng.Fanout.Processor.{Processor, process_post, process_follow, process}

module _ {W : Type 0} (p : Processor W) (topic payload : Bytes) where
  -- What a record means to the worker: an event of posts in the topic of posts, or an event of follows
  -- in the topic of follows, if that is another one.
  pub data IsMeant : Event → Type 0 where
    as_post :
        (e : Event)
        → eq_bytes topic p.settings.post_topic ≡ true
        → IsPostEvent p.json payload e
        → IsMeant e
    as_follow :
        (e : Event)
        → eq_bytes topic p.settings.post_topic ≡ false
        → eq_bytes topic p.settings.follow_topic ≡ true
        → IsFollowEvent p.json payload e
        → IsMeant e

  -- What becomes of a record in a world.
  pub data Accepted (w : W) : Result Error (Unit {0}) × W → Type 0 where
    refused : ((e : Event) → IsMeant e → ⊥) → Accepted w (err permanent, w)
    post :
        (e : Event)
        → eq_bytes topic p.settings.post_topic ≡ true
        → IsPostEvent p.json payload e
        → Accepted w (process_post p e w)
    follow :
        (e : Event)
        → eq_bytes topic p.settings.post_topic ≡ false
        → eq_bytes topic p.settings.follow_topic ≡ true
        → IsFollowEvent p.json payload e
        → Accepted w (process_follow p e w)

  not_post :
      (x : Error)
      → eq_bytes topic p.settings.post_topic ≡ true
      → parse_post p.json payload ≡ err x
      → (e : Event) → IsMeant e
      → ⊥
  not_post x t bad e (IsMeant.as_post _ _ read) =
      let good = (parse_post-IsPostEvent p.json payload e).1 read in
      let clash : ◌≡◌ {A = Result Error Event} (ok e) (err x) = sym good ∙ bad in cc
  not_post x t bad e (IsMeant.as_follow _ n _ _) = cc

  not_follow :
      (x : Error)
      → eq_bytes topic p.settings.post_topic ≡ false
      → parse_follow p.json payload ≡ err x
      → (e : Event) → IsMeant e
      → ⊥
  not_follow x n bad e (IsMeant.as_post _ t _) = cc
  not_follow x n bad e (IsMeant.as_follow _ _ _ read) =
      let good = (parse_follow-IsFollowEvent p.json payload e).1 read in
      let clash : ◌≡◌ {A = Result Error Event} (ok e) (err x) = sym good ∙ bad in cc

  no_topic :
      eq_bytes topic p.settings.post_topic ≡ false
      → eq_bytes topic p.settings.follow_topic ≡ false
      → (e : Event) → IsMeant e
      → ⊥
  no_topic n m e (IsMeant.as_post _ t _) = cc
  no_topic n m e (IsMeant.as_follow _ _ t _) = cc

  -- A record of another topic, or whose payload holds no event of its topic with positive IDs and a
  -- positive time, is refused with the permanent error before anything is done; every other record is
  -- handled as the event of its own topic that its payload holds.
  pub process-Accepted : (w : W) → Accepted w (process p topic payload w)
  unfolding process
  process-Accepted w = elim (Bool-cases (eq_bytes topic p.settings.post_topic)) [
    | inl t ↦ elim (Result-cases (parse_post p.json payload)) [
      | inl (e, good) ↦ rw (t, good) (post e t ((parse_post-IsPostEvent p.json payload e).0 good))
      | inr (x, bad) ↦
          rw (t, bad, parse_post-permanent p.json payload x bad) (refused (not_post x t bad))
    ]
    | inr n ↦ elim (Bool-cases (eq_bytes topic p.settings.follow_topic)) [
      | inl t ↦ elim (Result-cases (parse_follow p.json payload)) [
        | inl (e, good) ↦
            rw (n, t, good) (follow e n t ((parse_follow-IsFollowEvent p.json payload e).0 good))
        | inr (x, bad) ↦
            rw (n, t, bad, parse_follow-permanent p.json payload x bad)
              (refused (not_follow x n bad))
      ]
      | inr m ↦ rw (n, m) (refused (no_topic n m))
    ]
  ]
