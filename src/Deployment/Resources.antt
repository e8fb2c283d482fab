-- ===== src/Deployment/Resources.antt =====
-- The check of the settings before a processor is wired.
use fsamp_processor.Prelude.{
  String, ◌≡◌, ◌↔◌, refl, ap, ◌⊎◌, true, List, [], ◌∷◌, ok, truthy, arith,
}
use fsamp_processor.Deployment.{
  Settings, is_local, missing_names, required_resources, complain, validate_processor_runtime,
}

-- What a processor needs: its bucket, table and key, the queue unless it runs as a Lambda, and the
-- outbox table, or, locally, a topic instead.
pub record HasResources (s : Settings) : Type 0 where
  pub bucket : truthy s.s3_bucket_name ≡ true
  pub table : truthy s.dynamodb_table_name ≡ true
  pub kms_key : truthy s.kms_key_id ≡ true
  pub queue : (s.is_lambda ≡ true) ⊎ (truthy s.sqs_queue_url ≡ true)
  pub events :
      (truthy s.outbox_table_name ≡ true) ⊎ ((is_local s ≡ true) × (truthy s.sns_topic_arn ≡ true))

complain-ok : (prefix : String) (names : List String) → complain prefix names ≡ ok tt → names ≡ []
complain-ok prefix [] h = refl
complain-ok prefix (n ∷ names) h = absurd (ground arith)

complain-HasResources : (s : Settings) → missing_names (required_resources s) ≡ [] → HasResources s
unfolding missing_names required_resources
complain-HasResources s h = record {
  bucket = ground (arith, h);
  table = ground (arith, h);
  kms_key = ground (arith, h);
  queue = ground (arith, h);
  events = ground (arith, h);
}

HasResources-missing : (s : Settings) → HasResources s → missing_names (required_resources s) ≡ []
unfolding missing_names required_resources
HasResources-missing s h = ground (arith, h.bucket, h.table, h.kms_key, h.queue, h.events)

-- The processor is wired exactly when it has its resources.
pub validate_processor_runtime_iff :
    (s : Settings) → (validate_processor_runtime s ≡ ok tt) ↔ HasResources s
unfolding validate_processor_runtime
validate_processor_runtime_iff s = (
  (λ h. complain-HasResources s (complain-ok _ (missing_names (required_resources s)) h)),
  (λ h. ap (complain "Missing required processor configuration: ") (HasResources-missing s h)),
)
