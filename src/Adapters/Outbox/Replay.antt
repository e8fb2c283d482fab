-- ===== src/Adapters/Outbox/Replay.antt =====
-- Inversion of the replay of `save_with_outbox`: what each step has found when it returns.
use fsamp_processor.Prelude.{
  String, ◌==◌, ◌≡◌, refl, ◌∙◌, sym, ap, subst, inl, inr, Bool, true, false, not, Option, none,
  some, [], ◌∷◌, Result, ok, raised, Exec, pure, raise, if◌then◌else◌, arith, bind-then, Bool-cases,
}
use fsamp_processor.Domain.Errors.{Exn, client, ClientError}
use fsamp_processor.Domain.Events.{Runtime}
use fsamp_processor.Domain.Wire.{Wire}
use fsamp_processor.Domain.Attributes.{Item}
use fsamp_processor.Domain.Models.{MetadataRecord, ProcessingClaim, OutboxEvent}
use fsamp_processor.Domain.Models.Outbox.{from_dynamodb_item}
use fsamp_processor.Dynamo.{Client, Key}
use fsamp_processor.Dynamo.Semantics.{item_of}
use fsamp_processor.Dynamo.Lawful.{IsLawful, SameRows, cancelled_code}
use fsamp_processor.Adapters.Metadata.{metadata_key, is_conditional_failure}
use fsamp_processor.Adapters.Outbox.{
  event_key, tolerate, read_or_false, compared, update_failed, is_idempotent_replay, same_row,
  same_event, has_result, metadata_has_result, result_in_row,
}

module _ (R : Runtime) (W : Wire) (C : Client) (L : IsLawful C)
    (metadata_table outbox_table : String) (r : MetadataRecord) (e : OutboxEvent) where
  compared-true :
      (q : Result Exn OutboxEvent)
      → compared R W C metadata_table outbox_table e q ≡ ok true
      → (persisted : OutboxEvent) × (q ≡ ok persisted) × (same_event persisted e ≡ true)
  compared-true (raised x) h = absurd (ground arith)
  compared-true (ok p) h = (p, refl, cc)

  same_row-true :
      (o : Option Item)
      → same_row R W C metadata_table outbox_table e o ≡ ok true
      → (i : Item) × (persisted : OutboxEvent) × (o ≡ some i)
        × (from_dynamodb_item R W i ≡ ok persisted)
        × (same_event persisted e ≡ true)
  unfolding same_row
  same_row-true none h = absurd (ground arith)
  same_row-true (some []) h = absurd (ground arith)
  same_row-true (some (a ∷ i)) h =
      let (persisted, p, q) = compared-true (from_dynamodb_item R W (a ∷ i)) h in
      (a ∷ i, persisted, refl, p, q)

  read_or_false-true :
      (out : Result Exn (Option Item) × C.World) (k : Option Item → Result Exn Bool) (w' : C.World)
      → read_or_false R W C metadata_table outbox_table out k ≡ (ok true, w')
      → (o : Option Item) × (out ≡ (ok o, w')) × (k o ≡ ok true)
  read_or_false-true (ok o, v) k w' h = (o, ap (λ x. (ok o, x.1)) h, ap (λ x. x.0) h)
  read_or_false-true (raised (client x), v) k w' h = absurd (ground arith)
  read_or_false-true (raised _, v) k w' h = absurd (ground arith)

  -- A read that returned gave the row of its time, and left all rows as they were.
  read_row :
      (t : String) (k : Key) (v w : C.World) (o : Option Item)
      → C.get_item t k v ≡ (ok o, w)
      → (o ≡ L.rows v t k) × SameRows (L.rows v) (L.rows w)
  read_row t k v w o p = (
    L.get_item-ok t k v o (ap (λ x. x.0) p),
    subst (λ x. SameRows (L.rows v) (L.rows x)) (ap (λ x. x.1) p) (L.rows-get_item t k v),
  )

  -- The outbox holds the event already.
  pub is_idempotent_replay-true :
      (error : ClientError) (v w : C.World)
      → is_idempotent_replay R W C metadata_table outbox_table error e v ≡ (ok true, w)
      → (i : Item) × (persisted : OutboxEvent) × (L.rows v outbox_table (event_key e) ≡ some i)
        × (from_dynamodb_item R W i ≡ ok persisted)
        × (same_event persisted e ≡ true)
  unfolding is_idempotent_replay
  is_idempotent_replay-true error v w h = elim (Bool-cases (error.code == cancelled_code)) [
    | inr q ↦ absurd (ground arith)
    | inl q ↦
        let (o, p, k) = read_or_false-true _ _ w (asked _ _ q h) in
        let (i, persisted, s, parsed, same) = same_row-true o k in
        (i, persisted, sym (read_row outbox_table (event_key e) v w o p).0 ∙ s, parsed, same)
  ]
    where
      asked :
          (b : Bool) (m : Result Exn Bool × C.World)
          → b ≡ true
          → (if not b then (ok false, v) else m) ≡ (ok true, w)
          → m ≡ (ok true, w)
      asked true m p q = q
      asked false m p q = cc

  result_in_row-true :
      (o : Option Item)
      → result_in_row R W C metadata_table outbox_table r o ≡ ok true
      → has_result r (item_of o) ≡ true
  unfolding result_in_row
  result_in_row-true none h = cc
  result_in_row-true (some i) h = cc

  metadata_has_result-true :
      (v w : C.World)
      → metadata_has_result R W C metadata_table outbox_table r v ≡ (ok true, w)
      → has_result r (item_of (L.rows w metadata_table (metadata_key r.file_id))) ≡ true
  unfolding metadata_has_result
  metadata_has_result-true v w h =
      let (o, p, k) = read_or_false-true _ _ w h in
      let (read, same) = read_row metadata_table (metadata_key r.file_id) v w o p in
      ap (λ x. has_result r (item_of x)) (same metadata_table (metadata_key r.file_id) ∙ sym read)
      ∙ result_in_row-true o k

  abbrev answered : Bool → C.World → Result Exn Bool × C.World
  answered b v = (ok b, v)

  abbrev judged : Exn → Bool → Exec Exn C.World (Unit {0})
  judged x b = if b then pure tt else raise x

  settled :
      (b : Bool) (x : Exn) (v w : C.World)
      → judged x b v ≡ (ok tt, w)
      → answered b v ≡ answered true w
  settled true x v w h = ap (answered true) (ap (λ o. o.1) h)
  settled false x v w h = absurd (ground arith)

  chosen :
      (b : Bool) (m k : Exec Exn C.World (Unit {0})) (v w : C.World)
      → b ≡ true
      → (if b then m else k) v ≡ (ok tt, w)
      → m v ≡ (ok tt, w)
  chosen true m k v w q h = h
  chosen false m k v w q h = cc

  -- A refused update is let pass only when the row has the result.
  pub tolerate-ok :
      (c : ProcessingClaim) (x : Exn) (v w : C.World)
      → tolerate R W C metadata_table outbox_table r (some c) x v ≡ (ok tt, w)
      → has_result r (item_of (L.rows w metadata_table (metadata_key r.file_id))) ≡ true
  unfolding tolerate
  tolerate-ok c (client x) v w h = elim (Bool-cases (is_conditional_failure x)) [
    | inr q ↦ absurd (ground arith)
    | inl q ↦ bind-then _ _ _ _ _ (chosen _ _ _ v w q h) λ b v1 p h1.
        metadata_has_result-true v w
          (p ∙ settled b (update_failed R W C metadata_table outbox_table x) v1 w h1)
  ]
  tolerate-ok c _ v w h = absurd (ground arith)
