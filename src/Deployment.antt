-- ===== src/Deployment.antt =====
-- src/processor/config.py: the settings, after pydantic read the environment, and their validators.
pub mod Fips
pub mod Publishing
pub mod Resources
use fsamp_processor.Prelude.{
  ℕ, String, ◌<>◌, ◌==◌, Bool, true, false, not, ◌&&◌, ◌||◌, Option, none, some, List, [], ◌∷◌,
  ◌++◌, Result, ok, raised, if◌then◌else◌, leb, truthy, present, text_length,
}
use fsamp_processor.Domain.Errors.{Exn, validation, value_error, str_exn}

pub data Environment : Type 0 where
  local dev staging prod : Environment

pub record Settings : Type 0 where
  pub environment : Environment
  pub aws_lambda_function_name : String
  pub is_lambda : Bool
  pub aws_region : String
  pub aws_endpoint_url : Option String
  pub use_fips_endpoint : Bool
  pub fips_required : Option Bool
  pub sqs_queue_url : String
  pub sns_topic_arn : String
  pub file_events_topic_arn : String
  pub processing_events_topic_arn : String
  pub s3_bucket_name : String
  pub dynamodb_table_name : String
  pub outbox_table_name : String
  pub kms_key_id : String
  pub sqs_max_messages : ℕ
  pub sqs_wait_time_seconds : ℕ
  pub sqs_visibility_timeout : ℕ
  pub processing_max_retries : ℕ
  pub processing_retry_delay_seconds : ℕ
  pub processing_claim_ttl_seconds : ℕ
  pub max_file_size_bytes : ℕ
  pub outbox_max_retry_count : ℕ
  pub publish_claim_ttl_seconds : ℕ
  pub outbox_retention_seconds : ℕ
  pub quarantine_prefix : String

abbrev pub supported_region : String
supported_region = "us-west-2"

abbrev pub is_fips_endpoint_region : String → Bool
is_fips_endpoint_region region = region == supported_region

abbrev pub is_local : Settings → Bool
is_local s = elim s.environment [ Environment.local ↦ true | _ ↦ false ]

abbrev pub in_bounds : ℕ → ℕ → ℕ → Bool
in_bounds lo hi n = leb lo n && leb n hi

-- The bounds of the fields; `matches` stands for the pattern of the quarantine prefix.
unfoldable pub valid_fields : (String → Bool) → Settings → Bool
valid_fields matches s =
    in_bounds 1 10 s.sqs_max_messages
    && in_bounds 0 20 s.sqs_wait_time_seconds
    && in_bounds 30 43200 s.sqs_visibility_timeout
    && in_bounds 0 10 s.processing_max_retries
    && in_bounds 1 300 s.processing_retry_delay_seconds
    && in_bounds 30 7200 s.processing_claim_ttl_seconds
    && in_bounds 1 104857600 s.max_file_size_bytes
    && in_bounds 1 100 s.outbox_max_retry_count
    && in_bounds 30 3600 s.publish_claim_ttl_seconds
    && in_bounds 86400 31536000 s.outbox_retention_seconds
    && in_bounds 1 200 (text_length s.quarantine_prefix)
    && matches s.quarantine_prefix

unfoldable pub detect_lambda_runtime : Settings → Settings
detect_lambda_runtime s = record s {
  is_lambda = if truthy s.aws_lambda_function_name then true else s.is_lambda;
}

abbrev is_off : Option Bool → Bool
is_off (some false) = true
is_off _ = false

unfoldable pub validate_deployment_baseline : Settings → Result Exn (Unit {0})
validate_deployment_baseline s =
    if is_local s
    then ok tt
    else if present s.aws_endpoint_url
    then raised (value_error "Custom AWS endpoints are allowed only in local mode")
    else if not (is_fips_endpoint_region s.aws_region)
    then raised (value_error ("Non-local deployments require region " <> supported_region))
    else if not s.use_fips_endpoint
    then raised (value_error "Non-local deployments must enable AWS FIPS endpoints")
    else if is_off s.fips_required
    then raised (value_error "Non-local deployments cannot disable FIPS enforcement")
    else ok tt

-- pydantic reports the ValueError of a validator as its own error.
abbrev accepted : Settings → Result Exn (Unit {0}) → Result Exn Settings
accepted s (ok u) = ok s
accepted s (raised x) = raised (validation (str_exn x))

-- `Settings()`: the fields, then the validators of the model in their order.
unfoldable pub make_settings : (String → Bool) → Settings → Result Exn Settings
unfolding valid_fields detect_lambda_runtime validate_deployment_baseline
make_settings matches s =
    if valid_fields matches s
    then accepted (detect_lambda_runtime s) (validate_deployment_baseline (detect_lambda_runtime s))
    else raised (validation "Settings")

-- The names whose values are empty, in order.
unfoldable pub missing_names : List (String × String) → List String
missing_names [] = []
missing_names ((name, value) ∷ required) =
    let rest = missing_names required in if truthy value then rest else name ∷ rest

-- `", ".join(names)`
unfoldable pub join_names : List String → String
join_names [] = ""
join_names (n ∷ []) = n
join_names (n ∷ m ∷ names) = n <> ", " <> join_names (m ∷ names)

abbrev complain : String → List String → Result Exn (Unit {0})
complain prefix [] = ok tt
complain prefix (n ∷ names) = raised (value_error (prefix <> join_names (n ∷ names)))

unfoldable pub required_resources : Settings → List (String × String)
required_resources s =
    ("S3_BUCKET_NAME", s.s3_bucket_name)
    ∷ ("DYNAMODB_TABLE_NAME", s.dynamodb_table_name)
    ∷ ("KMS_KEY_ID", s.kms_key_id)
    ∷ ((if s.is_lambda then [] else ("SQS_QUEUE_URL", s.sqs_queue_url) ∷ [])
        ++ (if not (is_local s)
            then ("OUTBOX_TABLE_NAME", s.outbox_table_name) ∷ []
            else if truthy s.outbox_table_name
            then []
            else ("SNS_TOPIC_ARN", s.sns_topic_arn) ∷ []))

unfoldable pub validate_processor_runtime : Settings → Result Exn (Unit {0})
unfolding required_resources missing_names join_names
validate_processor_runtime s =
    complain "Missing required processor configuration: " (missing_names (required_resources s))

abbrev missing_outbox : Settings → List String
missing_outbox s =
    (if truthy s.outbox_table_name then [] else "OUTBOX_TABLE_NAME" ∷ [])
    ++ (if truthy s.sns_topic_arn
          || truthy s.file_events_topic_arn
          || truthy s.processing_events_topic_arn
        then []
        else "SNS topic ARN" ∷ [])

unfoldable pub validate_outbox_runtime : Settings → Result Exn (Unit {0})
unfolding join_names
validate_outbox_runtime s = complain "Missing required outbox configuration: " (missing_outbox s)

unfoldable pub should_use_fips : Settings → Result Exn Bool
should_use_fips s =
    if is_local s || present s.aws_endpoint_url
    then ok false
    else if is_fips_endpoint_region s.aws_region
    then ok s.use_fips_endpoint
    else raised (
        value_error (
          "FSAMP active AWS deployments are pinned to the " <> supported_region
          <> " FIPS endpoint baseline: " <> s.aws_region))

unfoldable pub should_require_fips : Settings → Bool
should_require_fips s = elim s.fips_required [
  | some b ↦ b
  | none ↦ not (is_local s) && not (present s.aws_endpoint_url)
]
