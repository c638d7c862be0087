-- ===== src/Process/Dlq/Put.antt =====
-- What has been kept when a payload is sent without an error.
use shortcut.Prelude.{
  ℕ, Bytes, String, Bool, true, false, List, ◌∷◌, Option, none, ◌⊎◌, inl, inr, ◌≡◌, refl, arith,
}
use shortcut.Runtime.{Call, Env, Error, World, ok, >>=-eq-ok}
use shortcut.Process.Dlq.Names.{object_name}
use shortcut.Process.Dlq.Store.{
  DlqRecord, MinIo, fields, payload_text, ensure_bucket, put_record, send_to,
}

module _ (env : Env) (m : MinIo) where
  -- Between `h` and `h'` the bucket was found, or it was missing and was made.
  abbrev pub BucketReady : List Call → List Call → Type 0
  BucketReady h h' =
      ((h' ≡ Call.bucket_exists m.bucket ∷ h) × (env.exists_reply h' ≡ inr true))
      ⊎ ((h' ≡ Call.make_bucket m.bucket ∷ Call.bucket_exists m.bucket ∷ h)
          × (env.exists_reply (Call.bucket_exists m.bucket ∷ h) ≡ inr false)
          × (env.minio_reply h' ≡ none))

  reply-cases : (r : Error ⊎ Bool) → ((e : Error) × (r ≡ inl e)) ⊎ (r ≡ inr true) ⊎ (r ≡ inr false)
  reply-cases (inl e) = inl (e, refl)
  reply-cases (inr true) = inr (inl refl)
  reply-cases (inr false) = inr (inr refl)

  ensure_bucket-ready :
      (w w' : World) → ensure_bucket env m w ≡ (ok tt, w') → BucketReady w.history w'.history
  unfolding ensure_bucket
  ensure_bucket-ready w w' e =
      elim (reply-cases (env.exists_reply (Call.bucket_exists m.bucket ∷ w.history))) [
        | inl (x, f) ↦ absurd (ground arith)
        | inr (inl f) ↦ inl (ground arith, ground arith)
        | inr (inr f) ↦ inr (ground arith, f, ground arith)
      ]

  -- The record of a payload at a time.
  abbrev pub record_of : Bytes → Option Bytes → String → ℕ → DlqRecord
  record_of id payload reason t = record {
    message_id = id;
    reason = reason;
    payload = payload_text payload;
    created_at = t;
  }

  -- The calls made between `w` and `w'` end in a put of the record that MinIO accepted, and the
  -- bucket was there before it.
  abbrev pub Stored : Bytes → Option Bytes → String → World → World → Type 0
  Stored id payload reason w w' =
      (h : List Call) × (body : Bytes) × BucketReady w.history h
      × (env.marshal (fields (record_of id payload reason (env.now h))) ≡ inr body)
      × (w'.history ≡ Call.put_object m.bucket (object_name (env.now h) id) body ∷ h)
      × (env.minio_reply w'.history ≡ none)

  marshal-cases : (r : Error ⊎ Bytes) → ((e : Error) × (r ≡ inl e)) ⊎ ((b : Bytes) × (r ≡ inr b))
  marshal-cases (inl e) = inl (e, refl)
  marshal-cases (inr b) = inr (b, refl)

  put_record-put :
      (id : Bytes) (payload : Option Bytes) (reason : String) (w w' : World)
      → put_record env m id payload reason w ≡ (ok tt, w')
      → (body : Bytes) × (env.marshal (fields (record_of id payload reason (env.now w.history)))
          ≡ inr body)
        × (w'.history
            ≡ Call.put_object m.bucket (object_name (env.now w.history) id) body ∷ w.history)
        × (env.minio_reply w'.history ≡ none)
  unfolding put_record
  put_record-put id payload reason w w' e =
      elim (marshal-cases
        (env.marshal (fields (record_of id payload reason (env.now w.history))))) [
          | inl (x, f) ↦ absurd (cc (rw f at e))
          | inr (body, f) ↦ (body, f, ground arith, ground arith)
        ]

  -- When a payload was sent without an error, the bucket was found, or was missing and was made,
  -- and then MinIO accepted the record of the payload in it, as the last call.
  pub send_to-Stored :
      (id : Bytes) (payload : Option Bytes) (reason : String) (w w' : World)
      → send_to env m id payload reason w ≡ (ok tt, w')
      → Stored id payload reason w w'
  unfolding send_to
  send_to-Stored id payload reason w w' e =
      let (a, w₁, ready, rest) =
        >>=-eq-ok (ensure_bucket env m) (λ _. put_record env m id payload reason) w e in
      let (body, f, put, taken) = put_record-put id payload reason w₁ w' rest in
      (w₁.history, body, ensure_bucket-ready w w₁ ready, f, put, taken)
