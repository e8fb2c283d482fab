-- ===== src/Processor/Wiring.antt =====
-- `create_application` of src/processor/main.py: the service over the DynamoDB repositories. The other
-- adapters are the parameter `Services`.
pub mod Durable
pub mod Outside
pub mod Consumer
pub mod Batch
use fsamp_processor.Prelude.{ℕ, String, Bool, truthy, Option, some, List, Exec}
use fsamp_processor.Domain.Errors.{Exn}
use fsamp_processor.Domain.Events.{Runtime, FileEvent}
use fsamp_processor.Domain.Wire.{Wire}
use fsamp_processor.Domain.Models.{FileContent}
use fsamp_processor.Dynamo.{Client}
use fsamp_processor.Adapters.Metadata.{get_by_id, claim_processing, save}
use fsamp_processor.Adapters.Outbox.{save_with_outbox}
use fsamp_processor.Processor.Ports.{Ports, Config, make_config}

-- The object store, the hash and the publisher.
pub record Services (World : Type 0) : Type 0 where
  pub download : String → String → Option ℕ → Exec Exn World FileContent
  pub copy : String → String → String → String → Exec Exn World String
  pub delete : String → String → Exec Exn World (Unit {0})
  pub compute_hash : List ℕ → String → Exec Exn World String
  pub publish : FileEvent → Exec Exn World String

-- The settings that the wiring reads.
pub record Settings : Type 0 where
  pub dynamodb_table_name : String
  pub outbox_table_name : String
  pub max_file_size_bytes : ℕ
  pub s3_bucket_name : String
  pub aws_region : String
  pub quarantine_prefix : String
  pub processing_claim_ttl_seconds : ℕ

abbrev pub wired : Runtime → Wire → (C : Client) → Services C.World → Settings → Ports
wired R W C V s = record {
  World = C.World;
  now = C.now;
  get_by_id = get_by_id C s.dynamodb_table_name;
  claim_processing = claim_processing C s.dynamodb_table_name;
  save = save C s.dynamodb_table_name;
  save_with_outbox = save_with_outbox R W C s.dynamodb_table_name s.outbox_table_name;
  download = V.download;
  copy = V.copy;
  delete = V.delete;
  compute_hash = V.compute_hash;
  publish = V.publish;
}

-- An outbox repository is built only for a table name that is not empty.
abbrev pub has_outbox : Settings → Bool
has_outbox s = truthy s.outbox_table_name

abbrev pub service_config : Settings → Config
service_config s =
    make_config s.max_file_size_bytes (has_outbox s) (has_outbox s) (some s.s3_bucket_name)
      (some s.aws_region) s.quarantine_prefix s.processing_claim_ttl_seconds
