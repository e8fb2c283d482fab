-- ===== src/Adapters/Queue/Disposal.antt =====
-- What becomes of a message that was not handled.
use fsamp_processor.Prelude.{
  ℕ, String, ◌≡◌, refl, ◌∙◌, ap, sym, subst, inl, inr, Bool, true, false, Option, none, some,
  Result, ok, raised, Exec, ◌>>=◌, raise, except, continue, if◌then◌else◌, truthy, Bool-cases,
}
use fsamp_processor.Domain.Errors.{Exn}
use fsamp_processor.Domain.Events.{Runtime, FileEvent}
use fsamp_processor.Domain.Wire.{Wire}
use fsamp_processor.Adapters.Queue.{
  RawMessage, Sqs, event_of, is_final, message_failure, with_handle, acknowledge, reject, deliver,
  process_message,
}

module _ (R : Runtime) (W : Wire) {World : Type 0} (Q : Sqs World)
    (handler : FileEvent → Exec Exn World (Unit {0})) where
  -- The message has no event, or its handler raised: the exception, and the world then.
  pub data IsUnhandled (m : RawMessage) (w : World) (x : Exn) : World → Type 0 where
    invalid : event_of R W m ≡ raised x → IsUnhandled m w x w
    failed :
        (e : FileEvent) (v : World)
        → event_of R W m ≡ ok e
        → handler e w ≡ (raised x, v)
        → IsUnhandled m w x v

  abbrev handled : RawMessage → FileEvent → Exec Exn World (Unit {0})
  handled m e v = continue (handler e v) (λ _. acknowledge R W Q handler m.receipt_handle)

  deliver-raised :
      (m : RawMessage) (w v : World) (x : Exn)
      → IsUnhandled m w x v
      → deliver R W Q handler m w ≡ (raised x, v)
  unfolding deliver ◌>>=◌
  deliver-raised m w _ x (invalid p) = ap (λ r. continue (r, w) (handled m)) p
  deliver-raised m w v x (failed e _ p q) =
      ap (λ r. continue (r, w) (handled m)) p
      ∙ ap (λ o. continue o (λ _. acknowledge R W Q handler m.receipt_handle)) q

  process_message-raised :
      (m : RawMessage) (w v : World) (x : Exn)
      → IsUnhandled m w x v
      → process_message R W Q handler m w
        ≡ reject R W Q handler m.receipt_handle (if is_final x then false else true) v
  unfolding process_message
  process_message-raised m w v x h =
      ap
        (λ o.
          except o
            (λ y. reject R W Q handler m.receipt_handle (if is_final y then false else true)))
        (deliver-raised m w v x h)

  rejected-false :
      (handle : Option String) (v : World) → reject R W Q handler handle false v ≡ (ok tt, v)
  unfolding reject with_handle
  rejected-false none v = refl
  rejected-false (some h) v = elim (Bool-cases (truthy h)) [
    | inl p ↦ rw (p, with_handle) refl
    | inr p ↦ rw (p, with_handle) refl
  ]

  -- A message whose event is invalid, or whose handler raised an EventValidationError or a
  -- NonRetryableError, stays in the queue for its redrive policy: nothing is called for it after that.
  pub process_message-final :
      (m : RawMessage) (w v : World) (x : Exn)
      → IsUnhandled m w x v
      → is_final x ≡ true
      → process_message R W Q handler m w ≡ (ok tt, v)
  process_message-final m w v x h f =
      process_message-raised m w v x h
      ∙ ap (λ b. reject R W Q handler m.receipt_handle (if b then false else true) v) f
      ∙ rejected-false m.receipt_handle v

  except-keeps :
      (P : World → Type 0) (out : Result Exn (Unit {0}) × World) (f : Exn → Exn)
      → P out.1
      → P (except out (λ x. raise (f x))).1
  except-keeps P (ok a, w) f p = p
  except-keeps P (raised x, w) f p = p

  rejected-keeps :
      (P : World → Type 0)
      → ((h : String) (n : ℕ) (w : World) → P w → P (Q.change_message_visibility h n w).1)
      → (handle : Option String) (v : World) → P v
      → P (reject R W Q handler handle true v).1
  unfolding reject with_handle
  rejected-keeps P visible none v p = p
  rejected-keeps P visible (some h) v p = elim (Bool-cases (truthy h)) [
    | inl q ↦
        rw (q, with_handle)
          (except-keeps P _ (message_failure "Failed to reject message") (visible h 0 v p))
    | inr q ↦ rw (q, with_handle) p
  ]

  -- A message that was not handled is not deleted: what a change of visibility keeps still holds
  -- after it, if it held when the event was refused or the handler raised.
  pub process_message-keeps :
      (P : World → Type 0)
      → ((h : String) (n : ℕ) (w : World) → P w → P (Q.change_message_visibility h n w).1)
      → (m : RawMessage) (w v : World) (x : Exn) → IsUnhandled m w x v
      → P v
      → P (process_message R W Q handler m w).1
  process_message-keeps P visible m w v x h p =
      subst (λ o. P o.1) (sym (process_message-raised m w v x h)) (kept (is_final x))
    where
      kept : (b : Bool) → P (reject R W Q handler m.receipt_handle (if b then false else true) v).1
      kept true = subst (λ o. P o.1) (sym (rejected-false m.receipt_handle v)) p
      kept false = rejected-keeps P visible m.receipt_handle v p
