-- ===== src/Deployment/Publishing.antt =====
-- The publisher under accepted settings, which its `_setting` reads.
use fsamp_processor.Prelude.{◌≤◌, String, ◌≡◌, ap, sym, ◌∙◌, Bool, true, ok, arith}
use fsamp_processor.Publisher.Settings.{
  Config, get_max_retry_count, get_claim_ttl_seconds, get_retention_seconds,
}
use fsamp_processor.Deployment.{Settings, valid_fields, detect_lambda_runtime, make_settings}
use fsamp_processor.Deployment.Fips.{make_settings-ok}

-- `_setting`, when the publisher was given settings.
abbrev pub publisher_config : Settings → Config
publisher_config s = record {
  table = s.outbox_table_name;
  sns_topic_arn = s.sns_topic_arn;
  file_events_topic_arn = s.file_events_topic_arn;
  processing_events_topic_arn = s.processing_events_topic_arn;
  max_retry_count = s.outbox_max_retry_count;
  claim_ttl_seconds = s.publish_claim_ttl_seconds;
  retention_seconds = s.outbox_retention_seconds;
}

getters_of_valid :
    (matches : String → Bool) (s : Settings)
    → valid_fields matches s ≡ true
    → (get_max_retry_count (publisher_config s) ≡ ok s.outbox_max_retry_count)
      × (get_claim_ttl_seconds (publisher_config s) ≡ ok s.publish_claim_ttl_seconds)
      × (get_retention_seconds (publisher_config s) ≡ ok s.outbox_retention_seconds)
unfolding valid_fields get_max_retry_count get_claim_ttl_seconds get_retention_seconds
getters_of_valid matches s h = (ground (arith, h), ground (arith, h), ground (arith, h))

-- Under accepted settings the publisher's getters return the settings: none of its range checks
-- raises, and the retry limit is at least 1 and at most 100.
pub make_settings-getters :
    (matches : String → Bool) (s t : Settings)
    → make_settings matches s ≡ ok t
    → (get_max_retry_count (publisher_config t) ≡ ok t.outbox_max_retry_count)
      × (get_claim_ttl_seconds (publisher_config t) ≡ ok t.publish_claim_ttl_seconds)
      × (get_retention_seconds (publisher_config t) ≡ ok t.outbox_retention_seconds)
      × (1 ≤ t.outbox_max_retry_count)
      × (t.outbox_max_retry_count ≤ 100)
unfolding valid_fields detect_lambda_runtime
make_settings-getters matches s t h =
    let (valid, same, baseline) = make_settings-ok matches s t h in
    let kept : valid_fields matches t ≡ true = ap (valid_fields matches) (sym same) ∙ valid in
    let (retries, ttl, retention) = getters_of_valid matches t kept in
    (retries, ttl, retention, ground (arith, kept), ground (arith, kept))
