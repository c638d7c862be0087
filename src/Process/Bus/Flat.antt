-- ===== src/Process/Bus/Flat.antt =====
-- The two loops of `ConsumeTasks` against one loop over the messages of the reply.
use shortcut.Prelude.{ℕ, codes, itoa, List, [], ◌∷◌, ◌++◌, ◌⊎◌, inl, inr, ◌≡◌, refl, sym, ◌∙◌}
use shortcut.Runtime.{
  Call, Env, Error, World, Outcome, ok, err, panic, blocked, redis_nil, Exec, continue, ◌>>=◌, ◌>>◌,
  XMessage, XStream,
}
use shortcut.Process.Bus.Consume.{
  Consumer, Handler, Decoder, consume_message, consume_messages, consume_streams, consume_tasks,
  group_name, stream_name,
}

-- The messages of the streams, in the order of the reply.
unfoldable pub messages_of : List XStream → List XMessage
messages_of [] = []
messages_of (s ∷ ss) = s.messages ++ messages_of ss

continue_assoc :
    {A B C : Type 0} (r : Outcome A) (f : A → Exec B) (g : B → Exec C) (w : World)
    → (let (q, w') = continue r f w in continue q g w') ≡ continue r (λ a. f a >>= g) w
continue_assoc (ok a) f g w = refl
continue_assoc (err e) f g w = refl
continue_assoc (panic m) f g w = refl
continue_assoc blocked f g w = refl

continue_same :
    {A B : Type 0} (r : Outcome A) (f g : A → Exec B) (w : World)
    → ((a : A) → f a w ≡ g a w)
    → continue r f w ≡ continue r g w
continue_same (ok a) f g w e = e a
continue_same (err x) f g w e = refl
continue_same (panic m) f g w e = refl
continue_same blocked f g w e = refl

module _ (env : Env) (unmarshal : Decoder) (handler : Handler) (c : Consumer) (worker_id : ℕ) where
  consume_messages-append :
      (ms ns : List XMessage) (w : World)
      → consume_messages env unmarshal handler c worker_id (ms ++ ns) w
        ≡ (consume_messages env unmarshal handler c worker_id ms
              >> consume_messages env unmarshal handler c worker_id ns)
            w
  unfolding consume_messages
  consume_messages-append [] ns w = refl
  consume_messages-append (m ∷ ms) ns w =
      let (r, w₁) = consume_message env unmarshal handler c worker_id m w in
      continue_same r _ _ w₁ (λ _. consume_messages-append ms ns w₁)
      ∙ sym (
          continue_assoc r (λ _. consume_messages env unmarshal handler c worker_id ms)
            (λ _. consume_messages env unmarshal handler c worker_id ns) w₁)

  consume_streams-flat :
      (ss : List XStream) (w : World)
      → consume_streams env unmarshal handler c worker_id ss w
        ≡ consume_messages env unmarshal handler c worker_id (messages_of ss) w
  unfolding consume_streams messages_of consume_messages
  consume_streams-flat [] w = refl
  consume_streams-flat (s ∷ ss) w =
      let (r, w₁) = consume_messages env unmarshal handler c worker_id s.messages w in
      continue_same r _ _ w₁ (λ _. consume_streams-flat ss w₁)
      ∙ sym (consume_messages-append s.messages (messages_of ss) w)

  -- The calls behind the read of `ConsumeTasks`.
  abbrev pub behind_read : World → List Call
  behind_read w =
      Call.x_read_group group_name (codes "worker-" ++ itoa worker_id) 1 (stream_name ∷ ">" ∷ [])
      ∷ w.history

  -- What a read comes to: one batch of all its messages, or its error, unless that is `redis.Nil`.
  unfoldable pub as_one_batch : Error ⊎ List XStream → World → Outcome (Unit {0}) × World
  as_one_batch (inl redis_nil) w = (ok tt, w)
  as_one_batch (inl e) w = (err e, w)
  as_one_batch (inr ss) w = consume_messages env unmarshal handler c worker_id (messages_of ss) w

  -- `ConsumeTasks` does what one loop would do over all messages of all streams of the reply, in
  -- the order of the reply: the error of a message ends both loops, an empty read is a success, and
  -- any other error of the read is returned with nothing consumed.
  pub consume_tasks_flat :
      (w : World)
      → consume_tasks env unmarshal handler c worker_id w
        ≡ as_one_batch (env.read_reply (behind_read w)) (record w { history = behind_read w })
  unfolding consume_tasks as_one_batch
  consume_tasks_flat w = by_reply (env.read_reply (behind_read w)) refl
    where
      by_reply :
          (r : Error ⊎ List XStream)
          → env.read_reply (behind_read w) ≡ r
          → consume_tasks env unmarshal handler c worker_id w
            ≡ as_one_batch r (record w { history = behind_read w })
      by_reply (inl redis_nil) e = rw e refl
      by_reply (inl x) e = rw e refl
      by_reply (inr ss) e = rw e (consume_streams-flat ss (record w { history = behind_read w }))
