-- ===== src/Process/Bus/Acks.antt =====
-- Which messages of a batch are acknowledged.
use shortcut.Prelude.{
  ℕ, Bytes, String, List, [], ◌∷◌, ◌++◌, map, append_assoc, Option, none, some, ◌≡◌, ◌≢◌, refl, ap,
  sym, ◌∙◌, ◌⊎◌, inl, inr, arith,
}
use mathlib.Core.List.{reverse, reverse-append}
use shortcut.Runtime.{
  Call, Env, World, Outcome, ok, err, panic, blocked, Exec, ◌>>=◌, continue, Uuid, XMessage, Value,
}
use shortcut.Process.Domain.{Task}
use shortcut.Process.Dlq.{MinIo, send_invalid_payload}
use shortcut.Process.Bus.Ids.{field, extract_task_uuid}
use shortcut.Process.Bus.Consume.{
  Consumer, Handler, Decoder, StatusHook, payload_bytes, ack_message, send_to_dlq, mark,
  handle_invalid_payload, consume_message, consume_messages,
}
use shortcut.Process.Bus.Settled.{
  treat, treat_decoded, treat_payload, treat_field, consume_message-treat,
}

-- The ids that were acknowledged, the newest first.
unfoldable pub acks : List Call → List Bytes
acks [] = []
acks (Call.x_ack _ _ id ∷ h) = id ∷ acks h
acks (_ ∷ h) = acks h

-- A method that acknowledges nothing.
abbrev pub Quiet : {A : Type 0} → Exec A → Type 0
Quiet m = (w : World) → acks (m w).1.history ≡ acks w.history

-- The messages acknowledged are a prefix of the batch, in its order, and the whole of it if
-- the batch was consumed without an error.
abbrev pub AcksPrefix : List XMessage → World → Outcome (Unit {0}) × World → Type 0
AcksPrefix ms w (r, w') =
    (taken : List XMessage) × (rest : List XMessage) × (ms ≡ taken ++ rest)
    × (acks w'.history ≡ reverse (map (λ m. m.id) taken) ++ acks w.history)
    × (r ≡ ok tt → rest ≡ [])

continue-Quiet :
    {A B : Type 0} (r : Outcome A) (f : A → Exec B)
    → ((a : A) → Quiet (f a))
    → (w : World) → acks (continue r f w).1.history ≡ acks w.history
continue-Quiet (ok a) f q w = q a w
continue-Quiet (err e) f q w = refl
continue-Quiet (panic m) f q w = refl
continue-Quiet blocked f q w = refl

>>=-Quiet :
    {A B : Type 0} (m : Exec A) (f : A → Exec B)
    → Quiet m
    → ((a : A) → Quiet (f a))
    → Quiet (m >>= f)
>>=-Quiet m f qm qf w = let (r, w') = m w in continue-Quiet r f qf w' ∙ qm w

module _ (env : Env) where
  send_invalid_payload-Quiet :
      (s : Option MinIo) (id : Bytes) (payload : Option Bytes) (reason : String)
      → Quiet (send_invalid_payload env s id payload reason)
  unfolding send_invalid_payload acks
  send_invalid_payload-Quiet none id payload reason w = refl
  send_invalid_payload-Quiet (some m) id payload reason w = ground arith

  -- A consumer, a decoder and a handler, of which the hook and the handler acknowledge nothing.
  module _ (unmarshal : Decoder) (handler : Handler) (c : Consumer) (worker_id : ℕ)
      (handler_quiet : (n : ℕ) (task : Task) → Quiet (handler n task))
      (hook_quiet : (hook : StatusHook) (id : Uuid) (p : Option Bytes) (reason : String)
        → c.status_hook ≡ some hook
        → Quiet (hook id p reason)) where
    mark-Quiet :
        (id : Option Uuid) (hook : Option StatusHook) (p : Option Bytes) (reason : String)
        → c.status_hook ≡ hook
        → Quiet (mark env id hook p reason)
    unfolding mark
    mark-Quiet none hook p reason e w = refl
    mark-Quiet (some u) none p reason e w = refl
    mark-Quiet (some u) (some hook) p reason e w = hook_quiet hook u p reason e w

    send_to_dlq-Quiet :
        (writer : Option (Option MinIo)) (id : Bytes) (p : Option Bytes) (reason : String)
        → c.dlq_writer ≡ writer
        → Quiet (send_to_dlq env c id p reason)
    unfolding send_to_dlq
    send_to_dlq-Quiet none id p reason e w = rw e refl
    send_to_dlq-Quiet (some s) id p reason e w = rw e (send_invalid_payload-Quiet s id p reason w)

    handle_invalid_payload-Quiet :
        (m : XMessage) (id : Option Uuid) (p : Option Bytes) (reason : String)
        → Quiet (handle_invalid_payload env c m id p reason)
    unfolding handle_invalid_payload
    handle_invalid_payload-Quiet m id p reason =
        >>=-Quiet (mark env id c.status_hook p reason) (λ _. send_to_dlq env c m.id p reason)
          (mark-Quiet id c.status_hook p reason refl)
          (λ _. send_to_dlq-Quiet c.dlq_writer m.id p reason refl)

    treat_decoded-Quiet :
        (m : XMessage) (payload : Bytes) (d : String ⊎ Task)
        → Quiet (treat_decoded env unmarshal handler c worker_id m payload d)
    unfolding treat_decoded
    treat_decoded-Quiet m payload (inl reason) =
        handle_invalid_payload-Quiet m (extract_task_uuid env m) (some payload) reason
    treat_decoded-Quiet m payload (inr task) = handler_quiet worker_id _

    treat_field-Quiet :
        (m : XMessage) (raw : Option Value)
        → Quiet (treat_field env unmarshal handler c worker_id m raw)
    unfolding treat_field
    treat_field-Quiet m none =
        handle_invalid_payload-Quiet m (extract_task_uuid env m) none "missing payload field"
    treat_field-Quiet m (some raw) = by_payload (payload_bytes raw)
      where
        by_payload :
            (p : Bytes ⊎ Bytes) → Quiet (treat_payload env unmarshal handler c worker_id m p)
        by_payload (inl text) =
            handle_invalid_payload-Quiet m (extract_task_uuid env m) (some text)
              "unsupported payload type"
        by_payload (inr payload) = treat_decoded-Quiet m payload (unmarshal payload)

    treat-Quiet : (m : XMessage) → Quiet (treat env unmarshal handler c worker_id m)
    unfolding treat
    treat-Quiet m = treat_field-Quiet m (field "payload" m.values)

    -- One message adds its id, unless its treatment did not return.
    abbrev Adds : XMessage → World → Outcome (Unit {0}) × World → Type 0
    Adds m w (r, w') =
        (acks w'.history ≡ m.id ∷ acks w.history)
        ⊎ ((acks w'.history ≡ acks w.history) × (r ≢ ok tt))

    after_treatment :
        (m : XMessage) (w w₁ : World) (r : Outcome (Unit {0}))
        → acks w₁.history ≡ acks w.history
        → Adds m w (continue r (λ _. ack_message env m.id) w₁)
    unfolding ack_message acks
    after_treatment m w w₁ (ok tt) q = inl (ap (λ h. m.id ∷ h) q)
    after_treatment m w w₁ (err e) q = inr (q, λ e. cc)
    after_treatment m w w₁ (panic x) q = inr (q, λ e. cc)
    after_treatment m w w₁ blocked q = inr (q, λ e. cc)

    consume_message-Adds :
        (m : XMessage) (w : World)
        → Adds m w (consume_message env unmarshal handler c worker_id m w)
    consume_message-Adds m w =
        let (r, w₁) = treat env unmarshal handler c worker_id m w in
        rw consume_message-treat (after_treatment m w w₁ r (treat-Quiet m w))

    none_taken :
        (ms : List XMessage) (w : World) (r : Outcome (Unit {0})) (w' : World)
        → acks w'.history ≡ acks w.history
        → r ≢ ok tt
        → AcksPrefix ms w (r, w')
    none_taken ms w r w' q n = ([], ms, refl, q, λ e. absurd (n e))

    one_taken :
        (m : XMessage) (ms : List XMessage) (w : World) (r : Outcome (Unit {0})) (w' : World)
        → acks w'.history ≡ m.id ∷ acks w.history
        → r ≢ ok tt
        → AcksPrefix (m ∷ ms) w (r, w')
    one_taken m ms w r w' q n = (m ∷ [], ms, refl, q, λ e. absurd (n e))

    more_taken :
        (m : XMessage) (ms : List XMessage) (w w₁ : World) (p : Outcome (Unit {0}) × World)
        → acks w₁.history ≡ m.id ∷ acks w.history
        → AcksPrefix ms w₁ p
        → AcksPrefix (m ∷ ms) w p
    more_taken m ms w w₁ p q (taken, rest, split, acked, whole) = (
      m ∷ taken,
      rest,
      ap (λ l. m ∷ l) split,
      acked
          ∙ ap (λ a. reverse (map (λ m. m.id) taken) ++ a) q
          ∙ sym (append_assoc (reverse (map (λ m. m.id) taken)) (m.id ∷ []) (acks w.history))
          ∙ ap (λ a. a ++ acks w.history)
              (sym (reverse-append (m.id ∷ []) (map (λ m. m.id) taken))),
      whole,
    )

    after_message :
        (m : XMessage) (ms : List XMessage) (w w₁ : World) (r : Outcome (Unit {0}))
        → ((w : World) → AcksPrefix ms w (consume_messages env unmarshal handler c worker_id ms w))
        → Adds m w (r, w₁)
        → AcksPrefix
            (m ∷ ms)
            w
            (continue r (λ _. consume_messages env unmarshal handler c worker_id ms) w₁)
    after_message m ms w w₁ (ok tt) ih (inl q) =
        more_taken m ms w w₁ (consume_messages env unmarshal handler c worker_id ms w₁) q (ih w₁)
    after_message m ms w w₁ (ok tt) ih (inr q) = absurd (q.1 refl)
    after_message m ms w w₁ (err e) ih (inl q) = one_taken m ms w _ w₁ q (λ e. cc)
    after_message m ms w w₁ (err e) ih (inr q) = none_taken (m ∷ ms) w _ w₁ q.0 (λ e. cc)
    after_message m ms w w₁ (panic x) ih (inl q) = one_taken m ms w _ w₁ q (λ e. cc)
    after_message m ms w w₁ (panic x) ih (inr q) = none_taken (m ∷ ms) w _ w₁ q.0 (λ e. cc)
    after_message m ms w w₁ blocked ih (inl q) = one_taken m ms w _ w₁ q (λ e. cc)
    after_message m ms w w₁ blocked ih (inr q) = none_taken (m ∷ ms) w _ w₁ q.0 (λ e. cc)

    pub consume_messages-AcksPrefix :
        (ms : List XMessage) (w : World)
        → AcksPrefix ms w (consume_messages env unmarshal handler c worker_id ms w)
    unfolding consume_messages
    consume_messages-AcksPrefix [] w = ([], [], refl, refl, λ _. refl)
    consume_messages-AcksPrefix (m ∷ ms) w =
        let (r, w₁) = consume_message env unmarshal handler c worker_id m w in
        after_message m ms w w₁ r (consume_messages-AcksPrefix ms) (consume_message-Adds m w)
