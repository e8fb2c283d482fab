-- ===== src/Processor/Wiring/Durable.antt =====
-- From a result that the wired service returns down to the rows of the tables, with an outbox table.
use fsamp_processor.Prelude.{
  ◌==◌, ◌≡◌, refl, ap, sym, ◌∙◌, true, false, Option, some, ok, ◌⊎◌, inl, inr,
}
use fsamp_processor.Domain.Events.{Runtime, FileEvent, EventType, is_type}
use fsamp_processor.Domain.Wire.{Wire}
use fsamp_processor.Domain.Models.{ProcessingResult, MetadataRecord, OutboxEvent, ProcessingClaim}
use fsamp_processor.Domain.Attributes.{Item}
use fsamp_processor.Dynamo.{Client}
use fsamp_processor.Dynamo.Lawful.{IsLawful}
use fsamp_processor.Adapters.Metadata.{metadata_key}
use fsamp_processor.Adapters.Metadata.Lease.Claim.{IsClaim, claim_processing-some}
use fsamp_processor.Adapters.Outbox.{save_with_outbox}
use fsamp_processor.Adapters.Outbox.Commit.{IsSaved, save_with_outbox-ok}
use fsamp_processor.Processor.Ports.{make_config}
use fsamp_processor.Processor.Checks.{create_metadata_record, analyze_file}
use fsamp_processor.Processor.Failure.{persist_and_publish}
use fsamp_processor.Processor.Service.{handle, completed_record}
use fsamp_processor.Processor.Service.Verified.{destination}
use fsamp_processor.Processor.Service.Success.{IsReplay, IsFresh, handle-committed}
use fsamp_processor.Processor.Wiring.{Services, Settings, wired, has_outbox, service_config}

module _ (R : Runtime) (W : Wire) (C : Client) (L : IsLawful C) (V : Services C.World)
    (s : Settings) (e : FileEvent) where
  abbrev row : C.World → Option Item
  row w = L.rows w s.dynamodb_table_name (metadata_key e.file_id.text)

  -- A lease was acquired on the metadata row, and the outcome was saved under it.
  pub record IsDurable (done : ProcessingResult) : Type 0 where
    pub fresh : IsFresh R W (wired R W C V s) (service_config s) e done
    pub claim_before : C.World
    pub leased :
        IsClaim e.event_id.text
          (C.now claim_before).0
          s.processing_claim_ttl_seconds
          fresh.claim
          (row claim_before)
          (row fresh.after)
    pub durable :
        IsSaved R W C L s.dynamodb_table_name s.outbox_table_name
          (completed_record e fresh.committed.started fresh.committed.processed
            fresh.committed.content
            (analyze_file fresh.committed.content fresh.committed.file_hash
              fresh.committed.analyzed)
            (destination R W (wired R W C V s) (service_config s) e (
              analyze_file fresh.committed.content fresh.committed.file_hash
                fresh.committed.analyzed)))
          fresh.committed.row
          fresh.claim
          fresh.committed.before_commit
          fresh.committed.after_commit

  -- A service with an outbox table saves through the outbox.
  persist_and_publish-saved :
      (r : MetadataRecord) (announced : FileEvent) (o : OutboxEvent) (c : ProcessingClaim)
      → has_outbox s ≡ true
      → persist_and_publish R W (wired R W C V s) (service_config s) r announced o c
        ≡ save_with_outbox R W C s.dynamodb_table_name s.outbox_table_name r o (some c)
  unfolding persist_and_publish make_config
  persist_and_publish-saved r announced o c on = rw on refl

  fresh-IsDurable :
      (done : ProcessingResult)
      → has_outbox s ≡ true
      → (s.outbox_table_name == s.dynamodb_table_name) ≡ false
      → IsFresh R W (wired R W C V s) (service_config s) e done
      → IsDurable done
  unfolding create_metadata_record make_config
  fresh-IsDurable done on apart f =
      let (u, claimed) =
        claim_processing-some C L s.dynamodb_table_name _ e.event_id.text
          s.processing_claim_ttl_seconds f.before f.after f.claim f.claimed in
      record {
        fresh = f;
        claim_before = u;
        leased = claimed;
        durable =
            save_with_outbox-ok R W C L s.dynamodb_table_name s.outbox_table_name _ f.committed.row
              f.claim f.committed.before_commit f.committed.after_commit apart
              (ap (λ m. m f.committed.before_commit)
                  (sym (persist_and_publish-saved _ _ _ f.claim on))
                ∙ f.committed.committed);
      }

  pub upload-IsDurable :
      (w : C.World) (d : ProcessingResult) (w' : C.World)
      → has_outbox s ≡ true
      → (s.outbox_table_name == s.dynamodb_table_name) ≡ false
      → is_type e.event_type EventType.file_uploaded ≡ true
      → handle R W (wired R W C V s) (service_config s) e w ≡ (ok d, w')
      → IsReplay R W (wired R W C V s) (service_config s) e ⊎ IsDurable d
  upload-IsDurable w d w' on apart u h =
      elim (handle-committed R W (wired R W C V s) (service_config s) e w d w' u h) [
        | inl replay ↦ inl replay
        | inr f ↦ inr (fresh-IsDurable d on apart f)
      ]
