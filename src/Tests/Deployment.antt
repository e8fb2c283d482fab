-- ===== src/Tests/Deployment.antt =====
-- The settings of a deployment, and the theorems on them at concrete data.
use fsamp_processor.Prelude.{◌≤◌, ◌≡◌, ◌↔◌, refl, true, false, none, ok, text_length}
use fsamp_processor.Publisher.Settings.{
  get_max_retry_count, get_claim_ttl_seconds, get_retention_seconds,
}
use fsamp_processor.Deployment.{
  Settings, Environment, valid_fields, detect_lambda_runtime, validate_deployment_baseline,
  make_settings, should_use_fips, should_require_fips, validate_processor_runtime,
}
use fsamp_processor.Deployment.Fips.{make_settings-fips}
use fsamp_processor.Deployment.Publishing.{publisher_config, make_settings-getters}
use fsamp_processor.Deployment.Resources.{HasResources, validate_processor_runtime_iff}

abbrev production : Settings
production = record {
  environment = Environment.prod;
  aws_lambda_function_name = "";
  is_lambda = false;
  aws_region = "us-west-2";
  aws_endpoint_url = none;
  use_fips_endpoint = true;
  fips_required = none;
  sqs_queue_url = "https://queue";
  sns_topic_arn = "";
  file_events_topic_arn = "";
  processing_events_topic_arn = "arn:processing";
  s3_bucket_name = "uploads";
  dynamodb_table_name = "files";
  outbox_table_name = "outbox";
  kms_key_id = "key-1";
  sqs_max_messages = 10;
  sqs_wait_time_seconds = 20;
  sqs_visibility_timeout = 300;
  processing_max_retries = 3;
  processing_retry_delay_seconds = 5;
  processing_claim_ttl_seconds = 330;
  max_file_size_bytes = 1000;
  outbox_max_retry_count = 5;
  publish_claim_ttl_seconds = 300;
  outbox_retention_seconds = 2592000;
  quarantine_prefix = "quarantine";
}

make_settings-fips_example :
    (should_use_fips production ≡ ok true) × (should_require_fips production ≡ true)
unfolding make_settings valid_fields detect_lambda_runtime validate_deployment_baseline text_length
make_settings-fips_example = make_settings-fips (λ t. true) production production refl refl

make_settings-getters_example :
    (get_max_retry_count (publisher_config production) ≡ ok 5)
    × (get_claim_ttl_seconds (publisher_config production) ≡ ok 300)
    × (get_retention_seconds (publisher_config production) ≡ ok 2592000)
    × (1 ≤ 5)
    × (5 ≤ 100)
unfolding make_settings valid_fields detect_lambda_runtime validate_deployment_baseline text_length
make_settings-getters_example = make_settings-getters (λ t. true) production production refl

validate_processor_runtime_iff_example :
    (validate_processor_runtime production ≡ ok tt) ↔ HasResources production
validate_processor_runtime_iff_example = validate_processor_runtime_iff production
