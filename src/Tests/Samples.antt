-- ===== src/Tests/Samples.antt =====
-- Concrete events, records, settings and ports for the runs.
use fsamp_processor.Prelude.{
  ℕ, String, ◌==◌, true, none, some, List, [], ◌∷◌, ok, raised, if◌then◌else◌,
}
use fsamp_processor.Domain.Errors.{validation}
use fsamp_processor.Domain.Events.{
  file_uploaded, analysis_completed, gateway, processor, type_value, Runtime, FileEvent, Uuid,
}
use fsamp_processor.Domain.Wire.{Wire}
use fsamp_processor.Domain.Attributes.{text_json, text, number, Item}
use fsamp_processor.Domain.Models.{
  MetadataRecord, ProcessingClaim, ProcessingResult, ProcessingStatus, FileContent,
}
use fsamp_processor.Processor.Ports.{Ports, Config}
use fsamp_processor.Processor.Checks.{create_metadata_record}
use fsamp_processor.Tests.Memory.{instant}

-- Every pattern matches, and a name is its own UUID.
abbrev pub runtime : Runtime
runtime = record { matches = λ p t. true; uuid5 = λ name. name; digest_head = λ t. 200 }

abbrev uuid : String → Uuid
uuid t = record { text = t; version = 4 }

abbrev pub bytes : List ℕ
bytes = 104 ∷ 105 ∷ []

abbrev pub upload : FileEvent
upload = record {
  schema_version = "1.2.0";
  file_id = uuid "file-1";
  event_id = uuid "event-1";
  correlation_id = uuid "correlation-1";
  timestamp = instant 5;
  source = gateway;
  event_type = file_uploaded;
  file_metadata = record {
    original_filename = "a.txt";
    file_size_bytes = 2;
    mime_type = none;
    checksum_sha256 = "abc";
  };
  storage_location = record { bucket_name = "uploads"; object_key = "in/a"; region = some "eu" };
  security_context = record {
    is_encrypted = true;
    encryption_algorithm = "AES/GCM/NoPadding";
    kms_key_id = "key-1";
  };
  processing_result = none;
  failure = none;
}

-- The event put out for `upload`.
abbrev pub announced : FileEvent
announced = record upload {
  event_id = record { text = "event-2"; version = 5 };
  source = processor;
  event_type = analysis_completed;
  processing_result = some (record {
    is_safe = true;
    findings = [];
    processed_at = instant 6;
    file_hash_sha256 = some "abc";
    scan_engine = some "engine/1";
  });
}

-- The JSON form of the sample is its event type.
abbrev pub wire : Wire
wire = record {
  dump = λ e. text_json (type_value e.event_type);
  parse = λ j. elim j [
    | text_json t ↦
        if t == "ANALYSIS_COMPLETED"
        then ok announced
        else if t == "FILE_UPLOADED"
        then ok upload
        else raised (validation t)
    | _ ↦ raised (validation "payload")
  ];
  dumps = λ j. elim j [ text_json t ↦ t | _ ↦ "" ];
  loads = λ t. ok (text_json t);
  compact = λ j. elim j [ text_json t ↦ t | _ ↦ "" ];
}

abbrev pub config : Config
config = record {
  max_file_size = 10;
  use_outbox = true;
  allowed_bucket = some "uploads";
  allowed_region = none;
  quarantine_prefix = "quarantine";
  claim_ttl = 300;
}

abbrev pub claim : ProcessingClaim
claim = record { event_id = "event-1"; token = "token-1"; version = 1; expires_at_epoch = 300 }

abbrev pub content : FileContent
content = record {
  bytes = bytes;
  content_type = none;
  content_length = 2;
  etag = none;
  encryption_algorithm = some "aws:kms";
  kms_key_id = some "key-1";
}

-- Ports over a clock; the world is the number of its readings.
abbrev pub ports : Ports
ports = record {
  World = ℕ;
  now = λ w. (instant w, ℕ.suc w);
  get_by_id = λ k w. (ok none, w);
  claim_processing = λ r e t w. (ok (some claim), w);
  save = λ r c w. (ok tt, w);
  save_with_outbox = λ r o c w. (ok tt, w);
  download = λ b k n w. (ok content, w);
  copy = λ b k c j w. (ok "etag", w);
  delete = λ b k w. (ok tt, w);
  compute_hash = λ b a w. (ok "abc", w);
  publish = λ e w. (ok "message-1", w);
}

abbrev pub stored : MetadataRecord
stored = create_metadata_record upload "2026-01-01T00:00:01"

abbrev pub started : ProcessingResult
started = record {
  event_id = "event-1";
  correlation_id = "correlation-1";
  status = ProcessingStatus.processing;
  started_at = instant 0;
  completed_at = none;
  error_message = none;
  error_code = none;
  retry_count = 0;
  metadata = [];
}

-- The row of a file under the lease `claim`.
abbrev pub leased : Item
leased =
    ("processorClaimToken", text "token-1")
    ∷ ("processorClaimVersion", number 1)
    ∷ ("processorClaimExpiresAt", number 300)
    ∷ ("processingEventId", text "event-1")
    ∷ []
