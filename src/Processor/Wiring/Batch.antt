-- ===== src/Processor/Wiring/Batch.antt =====
-- The Lambda that `get_file_processor` of src/processor/lambda_handler.py wires.
use fsamp_processor.Prelude.{
  ◌==◌, ◌≡◌, ap, sym, String, true, false, ok, Exec, raise, ◌⊎◌, inl, inr, Bool-cases, bind-then,
  lift-then, pure-ok, except-ok, arith,
}
use fsamp_processor.Domain.Errors.{Exn}
use fsamp_processor.Domain.Events.{Runtime, FileEvent, EventType, is_type}
use fsamp_processor.Domain.Wire.{Wire}
use fsamp_processor.Domain.Models.{ProcessingResult}
use fsamp_processor.Dynamo.{Client}
use fsamp_processor.Dynamo.Lawful.{IsLawful}
use fsamp_processor.Adapters.Storage.{S3}
use fsamp_processor.Adapters.Crypto.{Kms}
use fsamp_processor.Adapters.Lambda.{
  SqsRecord, RecordReply, record_event, record_failure_of, reply_of, process_record, record_handler,
}
use fsamp_processor.Processor.Service.{handle}
use fsamp_processor.Processor.Wiring.{Settings, wired, has_outbox, service_config}
use fsamp_processor.Processor.Wiring.Consumer.{outside, IsSettled, handle-IsSettled}

module _ (R : Runtime) (W : Wire) (C : Client) (L : IsLawful C) (S : S3 C.World) (K : Kms C.World)
    (kms_key : String) (publish : FileEvent → Exec Exn C.World String) (s : Settings) where
  abbrev pub service : FileEvent → Exec Exn C.World ProcessingResult
  service = handle R W (wired R W C (outside R W C L S K kms_key publish s) s) (service_config s)

  -- The event of a record, and that it was settled.
  pub record IsReported (r : SqsRecord) (reply : RecordReply) : Type 0 where
    pub event : FileEvent
    pub read : record_event R W r ≡ ok event
    pub named : reply.event_id ≡ event.event_id.text
    pub settled :
        is_type event.event_type EventType.file_uploaded ≡ false
        ⊎ IsSettled R W C L S K kms_key publish s event

  pub record_handler-IsReported :
      (r : SqsRecord) (reply : RecordReply) (w w' : C.World)
      → K.upper "SHA-256" ≡ "SHA-256"
      → has_outbox s ≡ true
      → (s.outbox_table_name == s.dynamodb_table_name) ≡ false
      → record_handler R W service r w ≡ (ok reply, w')
      → IsReported r reply
  unfolding record_handler process_record
  record_handler-IsReported r reply w w' u on apart h =
      elim (except-ok _ (λ x. raise (record_failure_of x)) reply w' h) [
        | inr (x, v, p, q) ↦ absurd (ground arith)
        | inl p ↦ lift-then (record_event R W r) _ w reply w' p (λ e valid q.
            bind-then (service e) _ w reply w' q (λ result v done end. record {
              event = e;
              read = valid;
              named = ap (λ x. x.event_id) (sym (pure-ok (reply_of r e result) v reply w' end).0);
              settled = elim (Bool-cases (is_type e.event_type EventType.file_uploaded)) [
                | inl upload ↦ inr (
                    handle-IsSettled R W C L S K kms_key publish s e result w v u on apart upload
                      done)
                | inr another ↦ inl another
              ];
            }))
      ]
