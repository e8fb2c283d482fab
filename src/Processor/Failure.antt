-- ===== src/Processor/Failure.antt =====
-- Persisting an outcome, and the `except` clauses of `FileProcessorService.handle`.
pub mod Report
use fsamp_processor.Prelude.{
  ℕ, String, ◌<>◌, Bool, true, false, Option, none, some, Result, ok, raised, Exec, ◌>>=◌, ◌>>◌,
  pure, raise, try_except, if◌then◌else◌, text_take,
}
use fsamp_processor.Prelude.Decimal.{str_nat}
use fsamp_processor.Domain.Errors.{
  Exn, DomainError, Kind, domain, caused, claim_unavailable, non_retryable, storage, processing,
  make_error, str_exn,
}
use fsamp_processor.Domain.Events.{Instant, Runtime, FileEvent, EventType, FailureDetails}
use fsamp_processor.Domain.Validation.{make_failure, with_new_event_type}
use fsamp_processor.Domain.Wire.{Wire}
use fsamp_processor.Domain.Models.{MetadataRecord, OutboxEvent, ProcessingStatus, ProcessingClaim}
use fsamp_processor.Domain.Models.Outbox.{from_file_event}
use fsamp_processor.Processor.Ports.{Ports, Config}
use fsamp_processor.Processor.Checks.{create_metadata_record, lift}

-- `str(retryable).lower()`
abbrev lower_bool : Bool → String
lower_bool true = "true"
lower_bool false = "false"

-- The record of a failed attempt. Only a terminal failure marks the event as processed.
unfoldable pub failure_record : FileEvent → Instant → String → String → Bool → MetadataRecord
unfolding create_metadata_record
failure_record e failed_at message code retryable =
    record (create_metadata_record e failed_at.iso) {
      status = ProcessingStatus.failed;
      error_message = some (text_take 2000 message);
      error_code = some (text_take 100 code);
      processed_at = some failed_at.iso;
      last_processed_event_id = if retryable then none else some e.event_id.text;
    }

unfoldable pub failure_details : Instant → String → String → Bool → FailureDetails
failure_details failed_at message code retryable = record {
  code = text_take 100 code;
  message = text_take 2000 message;
  failed_at = failed_at;
  retryable = retryable;
}

unfoldable pub discriminator : ProcessingClaim → String → Bool → String
discriminator c code retryable =
    "claim:" <> str_nat c.version <> ":" <> text_take 100 code <> ":" <> lower_bool retryable

module _ (R : Runtime) (W : Wire) (P : Ports) (S : Config) where
  -- `_persist_and_publish`; without an outbox the event is published after the save.
  unfoldable pub persist_and_publish :
      MetadataRecord → FileEvent → OutboxEvent → ProcessingClaim → Exec Exn P.World (Unit {0})
  persist_and_publish r e row claim =
      if S.use_outbox
      then P.save_with_outbox r row (some claim)
      else (do P.save r (some claim); _ ← P.publish e; pure tt)

  -- The body of `_handle_failure` under its `try`.
  unfoldable pub record_failure :
      FileEvent → String → String → Bool → ProcessingClaim → Exec Exn P.World (Unit {0})
  unfolding persist_and_publish failure_record failure_details discriminator
  record_failure e message code retryable claim w =
      let (failed_at, w1) = P.now w in
      (do
        details ← lift (make_failure (failure_details failed_at message code retryable))
        failure_event ← λ v.
            let (now, v1) = P.now v in
            (
              with_new_event_type R now e EventType.processing_failed none (some details) none
                  (some (discriminator claim code retryable)),
              v1,
            )
        row ← lift (from_file_event R W failure_event "FileProcessing")
        persist_and_publish (failure_record e failed_at message code retryable) failure_event row
            claim)
        w1

  -- `_handle_failure`: any exception of the body is logged and dropped.
  unfoldable pub handle_failure :
      FileEvent → String → String → Bool → Option ProcessingClaim → Exec Exn P.World (Unit {0})
  unfolding record_failure
  handle_failure e message code retryable none = pure tt
  handle_failure e message code retryable (some claim) =
      try_except (record_failure e message code retryable claim) (λ _. pure tt)

  -- The `except` clauses for a `DomainError`, raised again as `error`.
  unfoldable pub recover_domain {ℓ} :
      {A : Type ℓ} → FileEvent → Option ProcessingClaim → DomainError → Exn → Exec Exn P.World A
  unfolding handle_failure
  recover_domain e claim d error = elim d.kind [
    | claim_unavailable ↦ raise error
    | non_retryable ↦ do handle_failure e d.text d.error_code false claim; raise error
    | storage ↦ do
      handle_failure e d.text "STORAGE_ERROR" true claim
      raise (caused (make_error processing d.text none true) error)
    | processing ↦ do handle_failure e d.text d.error_code d.retryable claim; raise error
    | _ ↦ do
      handle_failure e (str_exn error) "UNEXPECTED_ERROR" true claim
      raise (caused (make_error processing ("Unexpected error: " <> str_exn error) none true) error)
  ]

  unfoldable pub recover {ℓ} :
      {A : Type ℓ} → FileEvent → Option ProcessingClaim → Exn → Exec Exn P.World A
  unfolding recover_domain
  recover e claim (domain d) = recover_domain e claim d (domain d)
  recover e claim (caused d c) = recover_domain e claim d (caused d c)
  recover e claim error = do
    handle_failure e (str_exn error) "UNEXPECTED_ERROR" true claim
    raise (caused (make_error processing ("Unexpected error: " <> str_exn error) none true) error)
