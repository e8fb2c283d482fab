-- ===== src/Publisher/Settings.antt =====
-- The settings of the outbox publisher, with the ranges that its getters check.
use fsamp_processor.Prelude.{
  ℕ, String, Bool, true, false, ◌&&◌, ◌||◌, Result, ok, raised, if◌then◌else◌, leb, truthy, or_text,
  ◌==◌,
}
use fsamp_processor.Domain.Errors.{Exn, value_error}
use fsamp_processor.Domain.Models.{OutboxEvent, OutboxEventType}

-- What `_setting` gives for each name, from the settings object or the environment.
pub record Config : Type 0 where
  pub table : String
  pub sns_topic_arn : String
  pub file_events_topic_arn : String
  pub processing_events_topic_arn : String
  pub max_retry_count : ℕ
  pub claim_ttl_seconds : ℕ
  pub retention_seconds : ℕ

-- A value in a closed range.
abbrev pub in_range : ℕ → ℕ → String → ℕ → Result Exn ℕ
in_range lo hi message n = if leb lo n && leb n hi then ok n else raised (value_error message)

unfoldable pub get_max_retry_count : Config → Result Exn ℕ
get_max_retry_count G = in_range 1 100 "MAX_RETRY_COUNT must be between 1 and 100" G.max_retry_count

unfoldable pub get_claim_ttl_seconds : Config → Result Exn ℕ
get_claim_ttl_seconds G =
    in_range 30 3600 "PUBLISH_CLAIM_TTL_SECONDS must be between 30 and 3600" G.claim_ttl_seconds

unfoldable pub get_retention_seconds : Config → Result Exn ℕ
get_retention_seconds G =
    in_range 86400 31536000 "OUTBOX_RETENTION_SECONDS must be between 1 and 365 days"
      G.retention_seconds

abbrev is_upload : OutboxEventType → Bool
is_upload OutboxEventType.file_uploaded = true
is_upload _ = false

-- `specific or fallback`, which must not be empty
abbrev topic_or : String → String → String → Result Exn String
topic_or specific fallback message =
    if truthy (or_text specific fallback)
    then ok (or_text specific fallback)
    else raised (value_error message)

unfoldable pub get_topic_arn_for_event : Config → OutboxEvent → Result Exn String
get_topic_arn_for_event G e =
    if is_upload e.event_type || e.aggregate_type == "FileUpload"
    then topic_or G.file_events_topic_arn G.sns_topic_arn "FILE_EVENTS_TOPIC_ARN is required"
    else topic_or G.processing_events_topic_arn G.sns_topic_arn
        "PROCESSING_EVENTS_TOPIC_ARN is required"
