-- ===== src/Adapters/Queue/Endurance.antt =====
-- The consumer's loop under exceptions.
use fsamp_processor.Prelude.{
  ℕ, zero, suc, String, ◌≡◌, refl, ◌∙◌, ap, inl, inr, Bool, true, false, Option, none, some, List,
  [], ◌∷◌, Result, ok, raised, Exec, ◌>>=◌, raise, except, continue, if◌then◌else◌, truthy,
  Bool-cases, arith,
}
use fsamp_processor.Domain.Errors.{Exn, client}
use fsamp_processor.Domain.Events.{Runtime, FileEvent}
use fsamp_processor.Domain.Wire.{Wire}
use fsamp_processor.Adapters.Queue.{
  RawMessage, Sqs, is_final, message_failure, with_handle, reject, deliver, process_message,
  process_messages, attempts, receive_messages, after_pass, pass, consume_loop,
}

abbrev is_client_error : Exn → Bool
is_client_error (client e) = true
is_client_error _ = false

abbrev is_client {ℓ} : {A : Type ℓ} → Result Exn A → Bool
is_client (raised x) = is_client_error x
is_client (ok a) = false

message_failure-client :
    (prefix : String) (x : Exn) → is_client_error (message_failure prefix x) ≡ false
unfolding message_failure
message_failure-client prefix (client e) = refl
message_failure-client prefix x = refl

module _ (R : Runtime) (W : Wire) {World : Type 0} (Q : Sqs World)
    (handler : FileEvent → Exec Exn World (Unit {0})) where
  except-client :
      (prefix : String) (out : Result Exn (Unit {0}) × World)
      → is_client (except out (λ x. raise (message_failure prefix x))).0 ≡ false
  except-client prefix (ok u, w) = refl
  except-client prefix (raised x, w) = message_failure-client prefix x

  reject-client :
      (handle : Option String) (requeue : Bool) (w : World)
      → is_client (reject R W Q handler handle requeue w).0 ≡ false
  unfolding reject with_handle
  reject-client none requeue w = refl
  reject-client (some h) requeue w = elim (Bool-cases (truthy h)) [
    | inl p ↦ rw (p, with_handle) (except-client "Failed to reject message" _)
    | inr p ↦ rw (p, with_handle) refl
  ]

  handled-client :
      (m : RawMessage) (out : Result Exn (Unit {0}) × World)
      → is_client
          (except out
            (λ x. reject R W Q handler m.receipt_handle (if is_final x then false else true))).0
        ≡ false
  handled-client m (ok u, w) = refl
  handled-client m (raised x, w) = reject-client m.receipt_handle _ w

  process_message-client :
      (m : RawMessage) (w : World) → is_client (process_message R W Q handler m w).0 ≡ false
  unfolding process_message
  process_message-client m w = handled-client m (deliver R W Q handler m w)

  continue-client {ℓ} :
      {A : Type ℓ} (out : Result Exn A × World) (f : A → Exec Exn World (Unit {0}))
      → is_client out.0 ≡ false
      → ((a : A) (v : World) → is_client (f a v).0 ≡ false)
      → is_client (continue out f).0 ≡ false
  continue-client (ok a, v) f h k = k a v
  continue-client (raised x, v) f h k = h

  process_messages-client :
      (messages : List RawMessage) (w : World)
      → is_client (process_messages R W Q handler messages w).0 ≡ false
  unfolding process_messages ◌>>=◌
  process_messages-client [] w = refl
  process_messages-client (m ∷ messages) w = elim (Bool-cases (Q.is_stopped w)) [
    | inl p ↦ rw (p, process_messages) refl
    | inr p ↦
        rw (p, process_messages)
          (continue-client (process_message R W Q handler m w) _ (process_message-client m w)
            (λ u v. process_messages-client messages v))
  ]

  attempts-client :
      (left : ℕ) (out : Result Exn (List RawMessage) × World)
      → is_client (attempts R W Q handler left out).0 ≡ false
  unfolding attempts
  attempts-client zero (ok a, w) = refl
  attempts-client (suc left) (ok a, w) = refl
  attempts-client zero (raised (client e), w) = refl
  attempts-client (suc left) (raised (client e), w) = attempts-client left (Q.receive_message w)
  attempts-client zero (raised x, w) = refl
  attempts-client (suc left) (raised x, w) = refl

  pass-client : (w : World) → is_client (pass R W Q handler w).0 ≡ false
  unfolding pass receive_messages ◌>>=◌
  pass-client w =
      continue-client (receive_messages R W Q handler w) _ (attempts-client 2 (Q.receive_message w))
        (λ messages v. process_messages-client messages v)

  -- A pass without a ClientError leaves the loop running.
  after_pass-runs :
      (out : Result Exn (Unit {0}) × World)
      → is_client out.0 ≡ false
      → (after_pass R W Q handler 0 out).0 ≡ (true, 0)
  unfolding after_pass
  after_pass-runs (ok u, w) h = refl
  after_pass-runs (raised (client e), w) h = absurd (ground arith)
  after_pass-runs (raised x, w) h = refl

  -- The loop counts no error and never stops by itself: after any number of passes, whatever SQS and
  -- the handler raised in them, the consumer runs with a count of 0.
  pub consume_loop-runs :
      (fuel : ℕ) (w : World) → (consume_loop R W Q handler fuel (true, 0) w).0 ≡ (true, 0)
  unfolding consume_loop
  consume_loop-runs zero w = refl
  consume_loop-runs (suc fuel) w = elim (Bool-cases (Q.is_stopped w)) [
    | inl p ↦ rw (p, consume_loop) refl
    | inr p ↦
        let out = after_pass R W Q handler 0 (pass R W Q handler w) in
        rw (p, consume_loop)
          (ap (λ s. (consume_loop R W Q handler fuel s out.1).0)
              (after_pass-runs (pass R W Q handler w) (pass-client w))
            ∙ consume_loop-runs fuel out.1)
  ]
