-- ===== src/Adapters/Outbox/Transaction.antt =====
-- The transaction of `save_with_outbox` under its retries: what it has written when it returns.
use fsamp_processor.Prelude.{
  ℕ, Exec, String, ◌==◌, ◌≡◌, refl, ◌∙◌, ap, subst, ◌⊎◌, inl, inr, true, false, Option, some,
  lookup, Result, ok, raised,
}
use fsamp_processor.Domain.Errors.{Exn}
use fsamp_processor.Domain.Events.{Instant, Runtime}
use fsamp_processor.Domain.Wire.{Wire}
use fsamp_processor.Domain.Attributes.{Item}
use fsamp_processor.Domain.Models.{MetadataRecord, ProcessingClaim, OutboxEvent}
use fsamp_processor.Domain.Models.Outbox.{to_dynamodb_item}
use fsamp_processor.Dynamo.{Client, Request, Key}
use fsamp_processor.Dynamo.Semantics.{holds, updated, item_of, holds-both}
use fsamp_processor.Dynamo.Lawful.{
  IsLawful, Committed, Rows, SameRows, Transaction, transaction, write, write_self, key_of,
}
use fsamp_processor.Adapters.Retry.{aws_retry, aws_retry-Attempts, Attempts, last, again}
use fsamp_processor.Adapters.Metadata.{metadata_key, save_request}
use fsamp_processor.Adapters.Metadata.Lease.{Released, Released-save}
use fsamp_processor.Adapters.Outbox.{metadata_update, transaction_condition, event_put, event_key}

module _ (R : Runtime) (W : Wire) (C : Client) (L : IsLawful C)
    (metadata_table outbox_table : String) (r : MetadataRecord) (e : OutboxEvent)
    (c : ProcessingClaim) where
  abbrev row_in : Rows → Option Item
  row_in rows = rows metadata_table (metadata_key r.file_id)

  abbrev pub row : C.World → Option Item
  row w = row_in (L.rows w)

  abbrev pub request : Instant → Request
  request now = metadata_update metadata_table now r (some c)

  -- Between two states of the tables, the metadata was updated under the claim and the outbox row
  -- inserted.
  pub record IsWritten (before after : Rows) : Type 0 where
    pub released : Released c r (row_in before) (row_in after)
    pub inserted : after outbox_table (event_key e) ≡ some (to_dynamodb_item R W e)

  -- One transaction, which left the tables as they are.
  pub record IsTransacted (after : C.World) : Type 0 where
    pub before : C.World
    pub written : IsWritten (L.rows before) (L.rows after)

  -- DynamoDB answered for a transaction that it remembered under the event's token before the
  -- operation, and the operation changed no row.
  pub record IsRepeated (start after : C.World) : Type 0 where
    pub earlier : Transaction
    pub known : L.remembered start earlier
    pub token : earlier.token ≡ e.event_id
    pub written : IsWritten earlier.before earlier.after
    pub unchanged : SameRows (L.rows start) (L.rows after)

  pub update-Released :
      (now : Instant) (before : Option Item) (i : Item)
      → holds (transaction_condition (some c)) (item_of before) ≡ true
      → updated (request now) before ≡ some i
      → Released c r before (some i)
  unfolding metadata_update save_request transaction_condition updated
  update-Released now before i held h =
      Released-save metadata_table now r c before (holds-both _ _ (item_of before) held).1 h

  -- The put is under the event's key.
  put_key : key_of (event_put R W C metadata_table outbox_table e).item ≡ some (event_key e)
  unfolding event_put to_dynamodb_item lookup
  put_key = refl

  same_some : (a b : Key) (o : Option Key) → o ≡ some a → o ≡ some b → a ≡ b
  same_some a b o p q = cc

  write_other :
      (t s : String) (k j : Key) (i : Item) (rows : Rows)
      → (t == s) ≡ false
      → write t k i rows s j ≡ rows s j
  write_other t s k j i rows h = simp h

  Committed-IsWritten :
      (now : Instant) (before after : Rows)
      → (outbox_table == metadata_table) ≡ false
      → Committed (request now) (event_put R W C metadata_table outbox_table e) before after
      → IsWritten before after
  unfolding metadata_update event_put
  Committed-IsWritten now before after apart k =
      let meta : Key = metadata_key r.file_id in
      let first : Rows = write metadata_table meta k.item before in
      let put : Item = to_dynamodb_item R W e in
      let now_held : row_in after ≡ some k.item =
        k.rows metadata_table meta
        ∙ (write_other outbox_table metadata_table k.key meta put first apart
            ∙ write_self metadata_table meta k.item before) in
      let key : k.key ≡ event_key e = same_some _ _ _ k.put_key put_key in
      record {
        released = rw now_held (update-Released now (row_in before) k.item k.condition k.updates);
        inserted =
            k.rows outbox_table (event_key e)
            ∙ (ap (λ j. write outbox_table j put first outbox_table (event_key e)) key
                ∙ write_self outbox_table (event_key e) put first);
      }

  abbrev pub transact : Instant → Exec Exn C.World (Unit {0})
  transact now =
      C.transact_write_items e.event_id (request now)
        (event_put R W C metadata_table outbox_table e)

  -- What the attempts from `v` to `w` committed last, or the transaction remembered before them.
  abbrev Settled : Instant → C.World → C.World → Type 0
  Settled now v w =
      ((before : C.World) × Committed (request now) (event_put R W C metadata_table outbox_table e)
          (L.rows before) (L.rows w))
      ⊎ (SameRows (L.rows v) (L.rows w)
          × ((before : Rows) × (after : Rows) × L.remembered v (
                transaction e.event_id (request now) (event_put R W C metadata_table outbox_table e)
                  before after)))

  -- A commit that the later rows still show.
  Committed-kept :
      (now : Instant) (v u w : C.World)
      → SameRows (L.rows u) (L.rows w)
      → Committed
          (request now)
          (event_put R W C metadata_table outbox_table e)
          (L.rows v)
          (L.rows u)
      → Settled now v w
  Committed-kept now v u w same k = inl (
    v,
    record {
      item = k.item;
      key = k.key;
      condition = k.condition;
      updates = k.updates;
      put_key = k.put_key;
      put_condition = k.put_condition;
      rows = λ t j. same t j ∙ k.rows t j;
    },
  )

  -- An attempt that raises, before others.
  Settled-before :
      (now : Instant) (v w : C.World) (x : Exn)
      → (transact now v).0 ≡ raised x
      → Settled now (transact now v).1 w
      → Settled now v w
  Settled-before now v w x p (inl committed) = inl committed
  Settled-before now v w x p (inr (same, (before, after, known))) =
      elim (L.remembered-transact e.event_id (request now) _ v _ known) [
        | inr (new, k) ↦ Committed-kept now v (transact now v).1 w same k
        | inl old ↦ elim (L.transact-raised e.event_id (request now) _ v x p) [
          | inr k ↦ Committed-kept now v (transact now v).1 w same k
          | inl kept ↦ inr (λ t j. same t j ∙ kept t j, (before, after, old))
        ]
      ]

  transact-Settled :
      (now : Instant) (v : C.World) → (transact now v).0 ≡ ok tt → Settled now v (transact now v).1
  transact-Settled now v h = elim (L.transact-ok e.event_id (request now) _ v h) [
    | inl k ↦ inl (v, k)
    | inr repeated ↦ inr repeated
  ]

  Attempts-Settled :
      (now : Instant) {out : Result Exn (Unit {0}) × C.World} {left : ℕ} {v : C.World} {k : ℕ}
      → Attempts (transact now) out left v k
      → out.0 ≡ ok tt
      → Settled now v out.1
  Attempts-Settled now (last left v p f) h = rw p at (transact-Settled now v (ap (λ o. o.0) p ∙ h))
  Attempts-Settled now (again left v u x k p f run) h =
      Settled-before now v _ x (ap (λ o. o.0) p) (rw p (Attempts-Settled now run h))

  -- Whatever the attempts settled on wrote both rows.
  Settled-IsTransacted :
      (now : Instant) (start v w : C.World)
      → (outbox_table == metadata_table) ≡ false
      → SameRows (L.rows start) (L.rows v)
      → ((t : Transaction) → L.remembered v t → L.remembered start t)
      → Settled now v w
      → IsTransacted w ⊎ IsRepeated start w
  Settled-IsTransacted now start v w apart same older (inl (before, k)) =
      inl (record { before = before; written = Committed-IsWritten now _ _ apart k })
  Settled-IsTransacted now start v w apart same older (inr (kept, (before, after, known))) =
      inr (record {
        earlier =
            transaction e.event_id (request now) (event_put R W C metadata_table outbox_table e)
              before after;
        known = older _ known;
        token = refl;
        written = Committed-IsWritten now _ _ apart (L.remembered-Committed v _ known);
        unchanged = λ t j. kept t j ∙ same t j;
      })

  -- A retried transaction that returns, from a world `v` that only the clock parts from `start`.
  pub retried-ok :
      (now : Instant) (start v w : C.World)
      → (outbox_table == metadata_table) ≡ false
      → SameRows (L.rows start) (L.rows v)
      → ((t : Transaction) → L.remembered v t → L.remembered start t)
      → aws_retry 3 (transact now) v ≡ (ok tt, w)
      → IsTransacted w ⊎ IsRepeated start w
  retried-ok now start v w apart same older end =
      let (k, le, run) = aws_retry-Attempts 3 (transact now) v in
      Settled-IsTransacted now start v w apart same older
        (subst (λ o. Settled now v o.1) end (Attempts-Settled now run (ap (λ o. o.0) end)))
