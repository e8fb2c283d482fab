-- ===== src/Processor/Failure/Report.antt =====
-- What the caller of `handle` sees of an exception, and what is persisted of it.
use fsamp_processor.Prelude.{
  ◌≡◌, refl, String, ◌<>◌, Bool, true, false, Option, none, some, Result, ok, raised, Exec,
  text_take, text_length, pure, raise, except, ◌>>=◌, ◌>>◌, arith,
}
use fsamp_processor.Domain.Errors.{
  Exn, DomainError, Kind, domain, caused, claim_unavailable, non_retryable, storage, processing,
  make_error, str_exn, validation,
}
use fsamp_processor.Domain.Events.{Instant, Runtime, FileEvent}
use fsamp_processor.Domain.Validation.{make_failure, valid_failure}
use fsamp_processor.Domain.Wire.{Wire}
use fsamp_processor.Domain.Models.{ProcessingClaim}
use fsamp_processor.Processor.Ports.{Ports, Config}
use fsamp_processor.Processor.Failure.{
  failure_details, record_failure, handle_failure, recover_domain, recover,
}

-- What leaves the `except` clauses for an exception, by the kind of error alone.
abbrev pub unexpected : Exn → Exn
unexpected error =
    caused (make_error processing ("Unexpected error: " <> str_exn error) none true) error

abbrev pub reported_domain : DomainError → Exn → Exn
reported_domain d error = elim d.kind [
  | claim_unavailable ↦ error
  | non_retryable ↦ error
  | processing ↦ error
  | storage ↦ caused (make_error processing d.text none true) error
  | _ ↦ unexpected error
]

abbrev pub reported : Exn → Exn
reported (domain d) = reported_domain d (domain d)
reported (caused d c) = reported_domain d (caused d c)
reported error = unexpected error

module _ (R : Runtime) (W : Wire) (P : Ports) (S : Config) where
  settled :
      (o : Result Exn (Unit {0}) × P.World) → (w : P.World) × (except o (λ _. pure tt) ≡ (ok tt, w))
  settled (ok u, w) = (w, refl)
  settled (raised x, w) = (w, refl)

  -- `_handle_failure` never raises.
  handle_failure-ok :
      (e : FileEvent) (message code : String) (retryable : Bool) (claim : Option ProcessingClaim)
      (w : P.World)
      → (w' : P.World) × (handle_failure R W P S e message code retryable claim w ≡ (ok tt, w'))
  unfolding handle_failure
  handle_failure-ok e message code retryable none w = (w, refl)
  handle_failure-ok e message code retryable (some c) w =
      settled (record_failure R W P S e message code retryable c w)

  raised_after :
      {A : Type 0} (m : Exec Exn P.World (Unit {0})) (x : Exn) (w : P.World)
      → (w' : P.World) × (m w ≡ (ok tt, w'))
      → (w' : P.World) × ((m >> raise {A = A} x) w ≡ (raised x, w'))
  unfolding ◌>>=◌
  raised_after m x w (w', p) = (w', rw p)

  recover_domain-reported :
      {A : Type 0} (e : FileEvent) (claim : Option ProcessingClaim) (k : Kind) (t c : String)
      (b : Bool) (error : Exn) (w : P.World)
      → (w' : P.World) × (recover_domain R W P S {A = A} e claim
            (record { kind = k; text = t; error_code = c; retryable = b })
            error
            w
          ≡ (
            raised (
                reported_domain
                  (record { kind = k; text = t; error_code = c; retryable = b })
                  error),
            w',
          ))
  unfolding recover_domain
  recover_domain-reported e claim claim_unavailable t c b error w = (w, refl)
  recover_domain-reported e claim non_retryable t c b error w =
      raised_after _ _ w (handle_failure-ok e t c false claim w)
  recover_domain-reported e claim storage t c b error w =
      raised_after _ _ w (handle_failure-ok e t "STORAGE_ERROR" true claim w)
  recover_domain-reported e claim processing t c b error w =
      raised_after _ _ w (handle_failure-ok e t c b claim w)
  recover_domain-reported e claim _ t c b error w =
      raised_after _ _ w (handle_failure-ok e (str_exn error) "UNEXPECTED_ERROR" true claim w)

  -- An exception that the `except` clauses of `handle` get leaves them as the one that its kind says,
  -- whatever happens while the failure is persisted: a `NonRetryableError`, a `ProcessingError` and a
  -- missing lease as they are, a `StorageError` as a retryable `ProcessingError`, and all else as an
  -- unexpected one. An exception raised before the `try` statement does not come to them.
  pub recover-reported :
      {A : Type 0} (e : FileEvent) (claim : Option ProcessingClaim) (error : Exn) (w : P.World)
      → (w' : P.World) × (recover R W P S {A = A} e claim error w ≡ (raised (reported error), w'))
  unfolding recover
  recover-reported e claim (domain d) w =
      recover_domain-reported e claim d.kind d.text d.error_code d.retryable (domain d) w
  recover-reported e claim (caused d c) w =
      recover_domain-reported e claim d.kind d.text d.error_code d.retryable (caused d c) w
  recover-reported e claim error w =
      raised_after _ _ w (handle_failure-ok e (str_exn error) "UNEXPECTED_ERROR" true claim w)

  no_details :
      (t : Instant) (code : String) (retryable : Bool)
      → make_failure (failure_details t "" code retryable) ≡ raised (validation "FailureDetails")
  unfolding make_failure valid_failure failure_details text_take text_length
  no_details t code retryable = ground arith

  -- An exception without a message leaves no failure record, no event and no release of the lease:
  -- handling it only reads the clock.
  pub handle_failure-empty_message :
      (e : FileEvent) (code : String) (retryable : Bool) (claim : ProcessingClaim) (w : P.World)
      → handle_failure R W P S e "" code retryable (some claim) w ≡ (ok tt, (P.now w).1)
  unfolding handle_failure ◌>>=◌
  handle_failure-empty_message e code retryable claim w = rw no_details
