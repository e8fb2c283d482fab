-- ===== src/Processor/Wiring/Consumer.antt =====
-- From the deletion of a message of the queue down to the object in S3 and the rows of the tables:
-- the consumer that `create_application` of src/processor/main.py builds.
use fsamp_processor.Prelude.{
  ℕ, ◌==◌, ◌≡◌, refl, ap, ◌∙◌, String, true, false, some, Result, ok, raised, Exec, ◌>>=◌, pure,
  inl, inr, bind-then,
}
use fsamp_processor.Domain.Errors.{Exn}
use fsamp_processor.Domain.Events.{Runtime, FileEvent, EventType, is_type}
use fsamp_processor.Domain.Wire.{Wire}
use fsamp_processor.Domain.Models.{ProcessingResult, FileContent}
use fsamp_processor.Dynamo.{Client}
use fsamp_processor.Dynamo.Lawful.{IsLawful}
use fsamp_processor.Adapters.Storage.{S3}
use fsamp_processor.Adapters.Storage.Download.{IsDownloaded}
use fsamp_processor.Adapters.Crypto.{Kms}
use fsamp_processor.Adapters.Queue.{RawMessage, Sqs, event_of, process_message}
use fsamp_processor.Adapters.Queue.Disposal.{IsUnhandled, process_message-keeps}
use fsamp_processor.Processor.Ports.{make_config}
use fsamp_processor.Processor.Service.{handle}
use fsamp_processor.Processor.Service.Success.{IsReplay}
use fsamp_processor.Processor.Service.Verified.{IsVerified}
use fsamp_processor.Processor.Wiring.{Services, Settings, wired, has_outbox, service_config}
use fsamp_processor.Processor.Wiring.Durable.{IsDurable, upload-IsDurable}
use fsamp_processor.Processor.Wiring.Outside.{
  adapters, storage_download-IsDownloaded, sha256-digest,
}

module _ (R : Runtime) (W : Wire) (C : Client) (L : IsLawful C) (S : S3 C.World) (K : Kms C.World)
    (kms_key : String) (publish : FileEvent → Exec Exn C.World String) (s : Settings) where
  abbrev pub outside : Services C.World
  outside = adapters S K kms_key publish

  -- `processor_service.handle`; the consumer ignores the result.
  abbrev pub handler : FileEvent → Exec Exn C.World (Unit {0})
  handler e = do _ ← handle R W (wired R W C outside s) (service_config s) e; pure tt

  -- The object that was checked is the one in S3, and the declared checksum is the SHA-256 of its
  -- bytes.
  pub record IsGenuine (e : FileEvent) (content : FileContent) : Type 0 where
    pub read_to : C.World
    pub stored :
        IsDownloaded S e.storage_location.bucket_name e.storage_location.object_key
          (some s.max_file_size_bytes)
          content
          read_to
    pub digest : K.hexdigest "SHA256" content.bytes ≡ e.file_metadata.checksum_sha256

  verified-IsGenuine :
      (e : FileEvent) (content : FileContent) (file_hash : String)
      → K.upper "SHA-256" ≡ "SHA-256"
      → IsVerified R W (wired R W C outside s) (service_config s) e content file_hash
      → IsGenuine e content
  unfolding make_config
  verified-IsGenuine e content file_hash u v = record {
    read_to = v.fetched;
    stored =
        storage_download-IsDownloaded S K kms_key publish _ _ _ content v.before v.fetched
          v.downloaded;
    digest =
        sha256-digest S K kms_key publish u content.bytes file_hash (ap (λ o. o.0) v.hash_computed)
        ∙ v.checksum;
  }

  -- A handled upload: completed before according to its record, or saved after its object was checked.
  pub data IsSettled (e : FileEvent) : Type 0 where
    replay : IsReplay R W (wired R W C outside s) (service_config s) e → IsSettled e
    fresh :
        (done : ProcessingResult) (d : IsDurable R W C L outside s e done)
        → IsGenuine e d.fresh.committed.content
        → IsSettled e

  pub handle-IsSettled :
      (e : FileEvent) (done : ProcessingResult) (w w' : C.World)
      → K.upper "SHA-256" ≡ "SHA-256"
      → has_outbox s ≡ true
      → (s.outbox_table_name == s.dynamodb_table_name) ≡ false
      → is_type e.event_type EventType.file_uploaded ≡ true
      → handle R W (wired R W C outside s) (service_config s) e w ≡ (ok done, w')
      → IsSettled e
  handle-IsSettled e done w w' u on apart upload h =
      elim (upload-IsDurable R W C L outside s e w done w' on apart upload h) [
        | inl r ↦ replay r
        | inr d ↦ fresh done d (
            verified-IsGenuine e d.fresh.committed.content d.fresh.committed.file_hash u
              d.fresh.committed.object)
      ]

  handler-IsSettled :
      (e : FileEvent) (w w' : C.World)
      → K.upper "SHA-256" ≡ "SHA-256"
      → has_outbox s ≡ true
      → (s.outbox_table_name == s.dynamodb_table_name) ≡ false
      → is_type e.event_type EventType.file_uploaded ≡ true
      → handler e w ≡ (ok tt, w')
      → IsSettled e
  handler-IsSettled e w w' u on apart upload h =
      bind-then (handle R W (wired R W C outside s) (service_config s) e) (λ _. pure tt) w tt w' h
        (λ done v p q. handle-IsSettled e done w v u on apart upload p)

  outcome-IsSettled :
      (Q : Sqs C.World) (P : C.World → Type 0)
      → ((h : String) (n : ℕ) (w : C.World) → P w → P (Q.change_message_visibility h n w).1)
      → (m : RawMessage) (e : FileEvent) (w : C.World) (out : Result Exn (Unit {0}))
      → K.upper "SHA-256" ≡ "SHA-256"
      → has_outbox s ≡ true
      → (s.outbox_table_name == s.dynamodb_table_name) ≡ false
      → is_type e.event_type EventType.file_uploaded ≡ true
      → event_of R W m ≡ ok e
      → (handler e w).0 ≡ out
      → P (handler e w).1
      → ¬ P (process_message R W Q handler m w).1
      → IsSettled e
  outcome-IsSettled Q P visible m e w (ok tt_) u on apart upload valid r p deleted =
      handler-IsSettled e w (handler e w).1 u on apart upload (ap (λ o. (o, (handler e w).1)) r)
  outcome-IsSettled Q P visible m e w (raised x) u on apart upload valid r p deleted = absurd (
      deleted (
        process_message-keeps R W Q handler P visible m w (handler e w).1 x
          (IsUnhandled.failed e (handler e w).1 valid (ap (λ o. (o, (handler e w).1)) r)) p))

  pub deleted-IsSettled :
      (Q : Sqs C.World) (P : C.World → Type 0)
      → ((h : String) (n : ℕ) (w : C.World) → P w → P (Q.change_message_visibility h n w).1)
      → (m : RawMessage) (e : FileEvent) (w : C.World) → K.upper "SHA-256" ≡ "SHA-256"
      → has_outbox s ≡ true
      → (s.outbox_table_name == s.dynamodb_table_name) ≡ false
      → is_type e.event_type EventType.file_uploaded ≡ true
      → event_of R W m ≡ ok e
      → P (handler e w).1
      → ¬ P (process_message R W Q handler m w).1
      → IsSettled e
  deleted-IsSettled Q P visible m e w u on apart upload valid p deleted =
      outcome-IsSettled Q P visible m e w (handler e w).0 u on apart upload valid refl p deleted
