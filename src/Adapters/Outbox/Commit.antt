-- ===== src/Adapters/Outbox/Commit.antt =====
-- `save_with_outbox` over a lawful DynamoDB: what it has committed when it returns.
use fsamp_processor.Prelude.{
  String, ◌<>◌, ◌==◌, ◌≡◌, refl, ◌∙◌, ap, subst, ◌⊎◌, inl, inr, Bool, true, false, Option, some,
  Result, ok, raised, pure, raise, except, continue, ◌>>=◌, if◌then◌else◌, arith, bind-then,
}
use fsamp_processor.Domain.Errors.{Exn, client, storage_error}
use fsamp_processor.Domain.Events.{Instant, Runtime}
use fsamp_processor.Domain.Wire.{Wire}
use fsamp_processor.Domain.Attributes.{Item}
use fsamp_processor.Domain.Models.{MetadataRecord, ProcessingClaim, OutboxEvent}
use fsamp_processor.Domain.Models.Outbox.{from_dynamodb_item}
use fsamp_processor.Dynamo.{Client, Request}
use fsamp_processor.Dynamo.Semantics.{item_of}
use fsamp_processor.Dynamo.Lawful.{IsLawful, Applied, write_self}
use fsamp_processor.Adapters.Retry.{aws_retry}
use fsamp_processor.Adapters.Metadata.{metadata_key}
use fsamp_processor.Adapters.Metadata.Lease.{Released}
use fsamp_processor.Adapters.Outbox.Replay.{is_idempotent_replay-true, tolerate-ok}
use fsamp_processor.Adapters.Outbox.{
  metadata_update, event_key, save_with_outbox, replay, restore, tolerate, is_idempotent_replay,
  same_event, has_result,
}
use fsamp_processor.Adapters.Outbox.Transaction.{
  row, request, update-Released, IsTransacted, IsRepeated, transact, retried-ok,
}

module _ (R : Runtime) (W : Wire) (C : Client) (L : IsLawful C)
    (metadata_table outbox_table : String) (r : MetadataRecord) (e : OutboxEvent)
    (c : ProcessingClaim) where
  abbrev row_of_file : C.World → Option Item
  row_of_file = row R W C L metadata_table outbox_table r e c

  abbrev update : Instant → Request
  update = request R W C L metadata_table outbox_table r e c

  -- The outbox already had the event, and the metadata was updated under the claim or has the result.
  pub record IsReplayed (after : C.World) : Type 0 where
    pub read : C.World
    pub item : Item
    pub persisted : OutboxEvent
    pub found : L.rows read outbox_table (event_key e) ≡ some item
    pub parsed : from_dynamodb_item R W item ≡ ok persisted
    pub same : same_event persisted e ≡ true
    pub restored :
        ((before : C.World) × Released c r (row_of_file before) (row_of_file after))
        ⊎ (has_result r (item_of (row_of_file after)) ≡ true)

  -- The ways in which the outcome of an operation from `start` to `after` is saved.
  abbrev pub IsSaved : C.World → C.World → Type 0
  IsSaved start after =
      (IsTransacted R W C L metadata_table outbox_table r e c after
        ⊎ IsRepeated R W C L metadata_table outbox_table r e c start after)
      ⊎ IsReplayed after

  Applied-Released :
      (now : Instant) (v w : C.World) (i : Item)
      → Applied (update now) i (L.rows v) (L.rows w)
      → Released c r (row_of_file v) (row_of_file w)
  unfolding metadata_update
  Applied-Released now v w i a =
      let after : row_of_file w ≡ some i =
        a.rows metadata_table (metadata_key r.file_id)
        ∙ write_self metadata_table (metadata_key r.file_id) i (L.rows v) in
      rw after (
        update-Released R W C L metadata_table outbox_table r e c now (row_of_file v) i a.condition
          a.item)

  -- The update of a replay.
  restore-ok :
      (now : Instant) (v w : C.World)
      → restore R W C metadata_table outbox_table (update now) r (some c) v ≡ (ok tt, w)
      → ((before : C.World) × Released c r (row_of_file before) (row_of_file w))
        ⊎ (has_result r (item_of (row_of_file w)) ≡ true)
  unfolding restore ◌>>=◌
  restore-ok now v w h = answered _ refl h
    where
      answered :
          (out : Result Exn Item × C.World)
          → C.update_item (update now) v ≡ out
          → except
              (continue out (λ i. pure tt))
              (tolerate R W C metadata_table outbox_table r (some c))
            ≡ (ok tt, w)
          → ((before : C.World) × Released c r (row_of_file before) (row_of_file w))
            ⊎ (has_result r (item_of (row_of_file w)) ≡ true)
      answered (ok i, u) p h = inl (
        v,
        Applied-Released now v w i (
            subst (λ y. Applied (update now) i (L.rows v) (L.rows y))
              (ap (λ o. o.1) p ∙ ap (λ o. o.1) h)
              (L.update_item-ok (update now) v i (ap (λ o. o.0) p))),
      )
      answered (raised x, u) p h =
          inr (tolerate-ok R W C L metadata_table outbox_table r e c x u w h)

  replay-ok :
      (now : Instant) (x : Exn) (v w : C.World)
      → replay R W C metadata_table outbox_table (update now) r e (some c) x v ≡ (ok tt, w)
      → IsReplayed w
  unfolding replay
  replay-ok now (client x) v w h = bind-then _ _ _ _ _ h λ b u p h1. replayed b u p h1
    where
      replayed :
          (b : Bool) (u : C.World)
          → is_idempotent_replay R W C metadata_table outbox_table x e v ≡ (ok b, u)
          → (if b
                then restore R W C metadata_table outbox_table (update now) r (some c)
                else raise
                    (storage_error ("Failed to save metadata with outbox: " <> x.text) (client x)))
              u
            ≡ (ok tt, w)
          → IsReplayed w
      replayed false u p h = absurd (ground arith)
      replayed true u p h =
          let (i, persisted, found, parsed, same) =
            is_idempotent_replay-true R W C L metadata_table outbox_table r e x v u p in
          record {
            read = v;
            item = i;
            persisted = persisted;
            found = found;
            parsed = parsed;
            same = same;
            restored = restore-ok now u w h;
          }
  replay-ok now _ v w h = absurd (ground arith)

  pub save_with_outbox-ok :
      (w w' : C.World)
      → (outbox_table == metadata_table) ≡ false
      → save_with_outbox R W C metadata_table outbox_table r e (some c) w ≡ (ok tt, w')
      → IsSaved w w'
  unfolding save_with_outbox
  save_with_outbox-ok w w' apart h = answered _ refl h
    where
      answered :
          (out : Result Exn (Unit {0}) × C.World)
          → aws_retry 3 (transact R W C L metadata_table outbox_table r e c (C.now w).0) (C.now w).1
            ≡ out
          → except out (replay R W C metadata_table outbox_table (update (C.now w).0) r e (some c))
            ≡ (ok tt, w')
          → IsSaved w w'
      answered (ok u, v) p h = inl (
          retried-ok R W C L metadata_table outbox_table r e c (C.now w).0 w (C.now w).1 w' apart
            (L.rows-now w) (L.remembered-now w) (p ∙ h))
      answered (raised x, v) p h = inr (replay-ok (C.now w).0 x v w' h)
