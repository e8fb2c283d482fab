-- ===== src/Processor/Service/Verified.antt =====
-- Inversion of the steps of `_process_uploaded_file`: what each has established when it returns.
use fsamp_processor.Prelude.{
  ◌≤◌, String, ◌≡◌, ap, Bool, true, false, Option, none, some, ok, Exec, bind-then, lift-then,
  pure-ok, subst, pure, if◌then◌else◌, arith, eq_iff,
}
use fsamp_processor.Domain.Errors.{Exn}
use fsamp_processor.Domain.Events.{
  ProcessingResultDetails, Instant, Runtime, FileEvent, EventType, StorageLocation,
}
use fsamp_processor.Domain.Validation.{make_location-ok, make_result, with_new_event_type}
use fsamp_processor.Domain.Wire.{Wire}
use fsamp_processor.Domain.Models.{OutboxEvent, FileContent, AnalysisResult}
use fsamp_processor.Domain.Models.Outbox.{from_file_event}
use fsamp_processor.Processor.Ports.{Ports, Config}
use fsamp_processor.Processor.Checks.{
  byte_count, validate_declared_size, validate_actual_object, validate_checksum,
  quarantine_location, output_location, quarantine_file, same_text?,
}
use fsamp_processor.Processor.Service.{result_details, fetch_verified, completion_of}

module _ (R : Runtime) (W : Wire) (P : Ports) (S : Config) (e : FileEvent) where
  -- The object that an upload was checked against.
  pub record IsVerified (content : FileContent) (file_hash : String) : Type 0 where
    pub before : P.World
    pub fetched : P.World
    pub hashed : P.World
    pub downloaded :
        P.download e.storage_location.bucket_name e.storage_location.object_key
          (some S.max_file_size)
          before
        ≡ (ok content, fetched)
    pub hash_computed : P.compute_hash content.bytes "SHA-256" fetched ≡ (ok file_hash, hashed)
    pub declared_length : content.content_length ≡ byte_count content.bytes
    pub event_size : byte_count content.bytes ≡ e.file_metadata.file_size_bytes
    pub encrypted : content.encryption_algorithm ≡ some "aws:kms"
    pub key : content.kms_key_id ≡ some e.security_context.kms_key_id
    pub checksum : file_hash ≡ e.file_metadata.checksum_sha256

  pub same_text?-some : (o : Option String) (t : String) → same_text? o (some t) ≡ true → o ≡ some t
  same_text?-some none t h = cc
  same_text?-some (some s) t h = ap some ((eq_iff s t).0 h)

  actual_object-ok :
      (content : FileContent)
      → validate_actual_object e content ≡ ok tt
      → (content.content_length ≡ byte_count content.bytes)
        × (byte_count content.bytes ≡ e.file_metadata.file_size_bytes)
        × (same_text? content.encryption_algorithm (some "aws:kms") ≡ true)
        × (same_text? content.kms_key_id (some e.security_context.kms_key_id) ≡ true)
  unfolding validate_actual_object
  actual_object-ok content h = ground arith

  checksum-ok : (k : String) → validate_checksum e k ≡ ok tt → k ≡ e.file_metadata.checksum_sha256
  unfolding validate_checksum
  checksum-ok k h = (eq_iff k e.file_metadata.checksum_sha256).0 (ground arith)

  verified :
      (content : FileContent) (file_hash : String) (w w1 w2 : P.World)
      → P.download e.storage_location.bucket_name e.storage_location.object_key
          (some S.max_file_size)
          w
        ≡ (ok content, w1)
      → validate_actual_object e content ≡ ok tt
      → P.compute_hash content.bytes "SHA-256" w1 ≡ (ok file_hash, w2)
      → validate_checksum e file_hash ≡ ok tt
      → IsVerified content file_hash
  verified content file_hash w w1 w2 p checked p2 same =
      let (lengths, sizes, cipher, keys) = actual_object-ok content checked in
      record {
        before = w;
        fetched = w1;
        hashed = w2;
        downloaded = p;
        hash_computed = p2;
        declared_length = lengths;
        event_size = sizes;
        encrypted = same_text?-some content.encryption_algorithm _ cipher;
        key = same_text?-some content.kms_key_id _ keys;
        checksum = checksum-ok file_hash same;
      }

  pub fetch_verified-ok :
      (w : P.World) (result : FileContent × String) (w' : P.World)
      → fetch_verified R W P S e w ≡ (ok result, w')
      → IsVerified result.0 result.1
  unfolding fetch_verified
  fetch_verified-ok w result w' h = bind-then _ _ _ _ _ h λ c v p h1.
      lift-then _ _ _ _ _ h1 λ u checked h2. bind-then _ _ _ _ _ h2 λ k v2 p2 h3.
        lift-then _ _ _ _ _ h3 λ u2 same h4.
          subst (λ r. IsVerified r.0 r.1) (pure-ok (c, k) v2 result w' h4).0
            (verified c k w v v2 p checked p2 same)

  pub within_limit :
      validate_declared_size S e ≡ ok tt → e.file_metadata.file_size_bytes ≤ S.max_file_size
  unfolding validate_declared_size
  within_limit h = ground arith

  abbrev pub destination : AnalysisResult → StorageLocation
  destination a =
      if a.is_safe then e.storage_location else quarantine_location S e a.file_hash_sha256

  quarantine_file-ok :
      (file_hash : String) (w : P.World) (l : StorageLocation) (w' : P.World)
      → quarantine_file R P S e file_hash w ≡ (ok l, w')
      → quarantine_location S e file_hash ≡ l
  unfolding quarantine_file
  quarantine_file-ok file_hash w l w' h =
      bind-then _ _ _ _ _ h λ k v p h1. make_location-ok R _ _ (ap (λ o. o.0) h1)

  chosen :
      (b : Bool) (m : Exec Exn P.World StorageLocation) (x y l : StorageLocation) (w w' : P.World)
      → (m w ≡ (ok l, w') → y ≡ l)
      → (if b then pure x else m) w ≡ (ok l, w')
      → (if b then x else y) ≡ l
  chosen true m x y l w w' k h = cc
  chosen false m x y l w w' k h = k h

  pub output_location-ok :
      (a : AnalysisResult) (w : P.World) (l : StorageLocation) (w' : P.World)
      → output_location R P S e a.file_hash_sha256 a w ≡ (ok l, w')
      → destination a ≡ l
  unfolding output_location
  output_location-ok a w l w' h =
      chosen a.is_safe (quarantine_file R P S e a.file_hash_sha256) e.storage_location _ l w w'
        (quarantine_file-ok a.file_hash_sha256 w l w') h

  -- The completion event of an analysis and its outbox row.
  pub record IsCompletion (processed : Instant) (a : AnalysisResult) (location : StorageLocation)
      (completion : FileEvent) (row : OutboxEvent) : Type 0 where
    pub created : Instant
    pub details : ProcessingResultDetails
    pub details_valid : make_result R (result_details processed a) ≡ ok details
    pub derived_event :
        with_new_event_type R created e EventType.analysis_completed
          (some details)
          none
          (some location)
          none
        ≡ ok completion
    pub row_of_event : from_file_event R W completion "FileProcessing" ≡ ok row

  pub completion_of-ok :
      (processed : Instant) (a : AnalysisResult) (location : StorageLocation) (w : P.World)
      (pair : FileEvent × OutboxEvent) (w' : P.World)
      → completion_of R W P S e processed a location w ≡ (ok pair, w')
      → IsCompletion processed a location pair.0 pair.1
  unfolding completion_of
  completion_of-ok processed a location w pair w' h = lift-then _ _ _ _ _ h λ details p h1.
      bind-then _ _ _ _ _ h1 λ created w1 p1 h2. lift-then _ _ _ _ _ h2 λ completion p2 h3.
        lift-then _ _ _ _ _ h3 λ row p3 h4.
          subst (λ r. IsCompletion processed a location r.0 r.1)
            (pure-ok (completion, row) w1 pair w' h4).0
            (record {
              created = created;
              details = details;
              details_valid = p;
              derived_event = p2;
              row_of_event = p3;
            })
