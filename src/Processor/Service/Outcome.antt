-- ===== src/Processor/Service/Outcome.antt =====
-- What `handle` does with an event that was seen before, and what its success means.
use fsamp_processor.Prelude.{
  ℕ, String, ◌≡◌, refl, true, false, none, some, ◌∷◌, [], ok, raised, ◌>>=◌, text_take, eq_refl,
  truthy, suc,
}
use fsamp_processor.Domain.Errors.{non_retryable_error}
use fsamp_processor.Domain.Events.{Instant, Runtime, FileEvent, StorageLocation}
use fsamp_processor.Domain.Wire.{Wire}
use fsamp_processor.Domain.Models.{
  ProcessingResult, ProcessingStatus, with_completion, FileContent, AnalysisResult,
}
use fsamp_processor.Domain.Attributes.{text_value, number_value, bool_value}
use fsamp_processor.Domain.Models.Metadata.{text_or}
use fsamp_processor.Processor.Ports.{Ports, Config}
use fsamp_processor.Processor.Failure.{failure_record}
use fsamp_processor.Processor.Service.{
  count_texts, completed_record, duplicate_metadata, duplicate_of,
}

module _ (R : Runtime) (W : Wire) (P : Ports) (S : Config) (e : FileEvent) where
  completed_again :
      (result : ProcessingResult) (started processed : Instant) (content : FileContent)
      (a : AnalysisResult) (l : StorageLocation) (w : P.World)
      → let r = completed_record e started processed content a l in
        let now = P.now w in
        duplicate_of R W P S e result (some r) w ≡ (
          ok (
              some (
                with_completion now.0 result ProcessingStatus.completed none none
                  (duplicate_metadata r))),
          now.1,
        )
  unfolding completed_record duplicate_of ◌>>=◌
  completed_again result started processed content a l w = rw (eq_refl e.event_id.text)

  text_or-take :
      (n : ℕ) (s d : String)
      → truthy s ≡ true
      → text_or (some (text_take (suc n) s)) d ≡ text_take (suc n) s
  unfolding text_take
  text_or-take n String.[] d h = cc
  text_or-take n (String.◌∷◌ c s) d h = refl

  rejected_again :
      (result : ProcessingResult) (t : Instant) (message code : String) (w : P.World)
      → truthy message ≡ true
      → truthy code ≡ true
      → duplicate_of R W P S e result (some (failure_record e t message code false)) w
        ≡ (raised (non_retryable_error (text_take 2000 message) (text_take 100 code)), w)
  unfolding failure_record duplicate_of
  rejected_again result t message code w hm hc = rw (
    eq_refl e.event_id.text,
    text_or-take 1999 message "Previously rejected input event" hm,
    text_or-take 99 code "PREVIOUSLY_REJECTED" hc,
  )

  retried :
      (result : ProcessingResult) (t : Instant) (message code : String) (w : P.World)
      → duplicate_of R W P S e result (some (failure_record e t message code true)) w ≡ (ok none, w)
  unfolding failure_record duplicate_of
  retried result t message code w = refl

  -- A redelivered event, by what its earlier delivery persisted. A committed upload is acknowledged
  -- as completed with the hash, verdict and findings count of the commit and reads only the clock; a
  -- terminal failure with a message and a code is raised again as a `NonRetryableError` with both,
  -- truncated; a retryable failure leaves the event to be processed again.
  pub redelivery :
      (result : ProcessingResult) (started processed : Instant) (content : FileContent)
      (a : AnalysisResult) (l : StorageLocation) (message code : String) (w : P.World)
      → truthy message ≡ true
      → truthy code ≡ true
      → (duplicate_of R W P S e result (some (completed_record e started processed content a l)) w
          ≡ (
            ok (
                some (
                  with_completion (P.now w).0 result ProcessingStatus.completed none none (
                    ("duplicate", bool_value true)
                    ∷ ("file_hash", text_value a.file_hash_sha256)
                    ∷ ("is_safe", bool_value a.is_safe)
                    ∷ ("findings_count", number_value (count_texts a.findings))
                    ∷ []))),
            (P.now w).1,
          ))
        × (duplicate_of R W P S e result (some (failure_record e processed message code false)) w
            ≡ (raised (non_retryable_error (text_take 2000 message) (text_take 100 code)), w))
        × (duplicate_of R W P S e result (some (failure_record e processed message code true)) w
            ≡ (ok none, w))
  unfolding duplicate_metadata completed_record
  redelivery result started processed content a l message code w hm hc = (
    completed_again result started processed content a l w,
    rejected_again result processed message code w hm hc,
    retried result processed message code w,
  )
