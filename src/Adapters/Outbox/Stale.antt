-- ===== src/Adapters/Outbox/Stale.antt =====
-- `save_with_outbox` on a row that does not carry the claim: no request of it writes.
use fsamp_processor.Prelude.{
  ℕ, String, ◌≡◌, refl, ◌∙◌, sym, ap, subst, inl, inr, Bool, true, false, Option, some, Result, ok,
  raised, Exec, pure, raise, except, continue, ◌>>=◌, if◌then◌else◌, arith,
}
use fsamp_processor.Domain.Errors.{Exn, client, ClientError}
use fsamp_processor.Domain.Events.{Instant, Runtime}
use fsamp_processor.Domain.Wire.{Wire}
use fsamp_processor.Domain.Attributes.{Item}
use fsamp_processor.Domain.Models.{MetadataRecord, ProcessingClaim, OutboxEvent}
use fsamp_processor.Dynamo.{Client, Request, Key}
use fsamp_processor.Dynamo.Semantics.{holds, item_of, holds-both}
use fsamp_processor.Dynamo.Lawful.{IsLawful, SameRows}
use fsamp_processor.Adapters.Retry.{
  aws_retry, aws_retry-Attempts, Attempts, last, again, outcome_cases,
}
use fsamp_processor.Adapters.Metadata.{metadata_key, fence, is_conditional_failure}
use fsamp_processor.Adapters.Outbox.{
  metadata_update, transaction_condition, event_put, event_key, save_with_outbox, replay, restore,
  tolerate, is_idempotent_replay, metadata_has_result, read_or_false, update_failed,
}

module _ (R : Runtime) (W : Wire) (C : Client) (L : IsLawful C)
    (metadata_table outbox_table : String) (r : MetadataRecord) (e : OutboxEvent)
    (c : ProcessingClaim) where
  abbrev Keeps {ℓ} : {A : Type ℓ} → C.World → Result Exn A × C.World → Type 0
  Keeps v out = SameRows (L.rows v) (L.rows out.1)

  abbrev IsStale : C.World → Type 0
  IsStale w = holds (fence c) (item_of (L.rows w metadata_table (metadata_key r.file_id))) ≡ false

  Keeps-IsStale : {v u : C.World} → SameRows (L.rows v) (L.rows u) → IsStale v → IsStale u
  Keeps-IsStale same stale =
      ap (λ o. holds (fence c) (item_of o)) (same metadata_table (metadata_key r.file_id)) ∙ stale

  abbrev request : Instant → Request
  request now = metadata_update metadata_table now r (some c)

  refused :
      (now : Instant) (v : C.World)
      → IsStale v
      → holds (request now).condition (item_of (L.rows v (request now).table (request now).key))
        ≡ true
      → ⊥
  unfolding metadata_update transaction_condition
  refused now v stale held =
      let fenced =
        (holds-both _ _ (item_of (L.rows v metadata_table (metadata_key r.file_id))) held).1 in
      let clash : false ≡ true = sym stale ∙ fenced in ground arith

  read_or_false-Keeps :
      (t : String) (j : Key) (k : Option Item → Result Exn Bool) (v : C.World)
      → Keeps v (read_or_false R W C metadata_table outbox_table (C.get_item t j v) k)
  read_or_false-Keeps t j k v = passed (C.get_item t j v) (L.rows-get_item t j v)
    where
      passed :
          (out : Result Exn (Option Item) × C.World)
          → Keeps v out
          → Keeps v (read_or_false R W C metadata_table outbox_table out k)
      passed (ok o, u) same = same
      passed (raised (client x), u) same = same
      passed (raised _, u) same = same

  is_idempotent_replay-Keeps :
      (x : ClientError) (v : C.World)
      → Keeps v (is_idempotent_replay R W C metadata_table outbox_table x e v)
  unfolding is_idempotent_replay
  is_idempotent_replay-Keeps x v =
      either_way _ _ (read_or_false-Keeps outbox_table (event_key e) _ v)
    where
      either_way :
          (b : Bool) (m : Result Exn Bool × C.World)
          → Keeps v m
          → Keeps v (if b then (ok false, v) else m)
      either_way true m same = λ t k. refl
      either_way false m same = same

  metadata_has_result-Keeps :
      (v : C.World) → Keeps v (metadata_has_result R W C metadata_table outbox_table r v)
  unfolding metadata_has_result
  metadata_has_result-Keeps v = read_or_false-Keeps metadata_table (metadata_key r.file_id) _ v

  -- A continuation that keeps the rows of any world it starts from.
  >>=-Keeps :
      {A : Type 0} {B : Type 0} (m : Exec Exn C.World A) (f : A → Exec Exn C.World B) (v : C.World)
      → Keeps v (m v)
      → ((a : A) (u : C.World) → SameRows (L.rows v) (L.rows u) → Keeps u (f a u))
      → Keeps v ((m >>= f) v)
  unfolding ◌>>=◌
  >>=-Keeps {A} {B} m f v same step = went (m v) same
    where
      went : (out : Result Exn A × C.World) → Keeps v out → Keeps v (continue out f)
      went (ok a, u) same = λ t k. step a u same t k ∙ same t k
      went (raised x, u) same = same

  except-Keeps :
      {A : Type 0} (v : C.World) (out : Result Exn A × C.World) (h : Exn → Exec Exn C.World A)
      → Keeps v out
      → ((x : Exn) (u : C.World) → out ≡ (raised x, u) → Keeps u (h x u))
      → Keeps v (except out h)
  except-Keeps v (ok a, u) h same step = same
  except-Keeps v (raised x, u) h same step = λ t k. step x u refl t k ∙ same t k

  settle-Keeps :
      (b : Bool) (x : Exn) (u : C.World)
      → Keeps u ((if b then pure {A = Unit {0}} tt else raise x) u)
  settle-Keeps true x u t k = refl
  settle-Keeps false x u t k = refl

  select-Keeps :
      (b : Bool) (m k : Exec Exn C.World (Unit {0})) (v : C.World)
      → Keeps v (m v)
      → Keeps v (k v)
      → Keeps v ((if b then m else k) v)
  select-Keeps true m k v p q = p
  select-Keeps false m k v p q = q

  tolerate-Keeps :
      (x : Exn) (v : C.World) → Keeps v (tolerate R W C metadata_table outbox_table r (some c) x v)
  unfolding tolerate
  tolerate-Keeps (client x) v =
      select-Keeps (is_conditional_failure x) _ _ v
        (>>=-Keeps (metadata_has_result R W C metadata_table outbox_table r) _ v
          (metadata_has_result-Keeps v)
          λ b u same. settle-Keeps b (update_failed R W C metadata_table outbox_table x) u)
        (λ t k. refl)
  tolerate-Keeps _ v = λ t k. refl

  update-Keeps : (now : Instant) (v : C.World) → IsStale v → Keeps v (C.update_item (request now) v)
  update-Keeps now v stale = elim (outcome_cases (C.update_item (request now) v)) [
    | inl (i, u, p) ↦
        absurd
          (refused now v stale (L.update_item-ok (request now) v i (ap (λ o. o.0) p)).condition)
    | inr (x, u, p) ↦ elim (L.update_item-raised (request now) v x (ap (λ o. o.0) p)) [
      | inl same ↦ same
      | inr (i, applied) ↦ absurd (refused now v stale applied.condition)
    ]
  ]

  restore-Keeps :
      (now : Instant) (v : C.World)
      → IsStale v
      → Keeps v (restore R W C metadata_table outbox_table (request now) r (some c) v)
  unfolding restore
  restore-Keeps now v stale =
      except-Keeps v _ _
        (>>=-Keeps (C.update_item (request now)) (λ i. pure tt) v (update-Keeps now v stale)
          λ i u same t k. refl)
        λ x u p. tolerate-Keeps x u

  replay-Keeps :
      (now : Instant) (x : Exn) (v : C.World)
      → IsStale v
      → Keeps v (replay R W C metadata_table outbox_table (request now) r e (some c) x v)
  unfolding replay
  replay-Keeps now (client x) v stale =
      >>=-Keeps (is_idempotent_replay R W C metadata_table outbox_table x e) _ v
        (is_idempotent_replay-Keeps x v)
        λ b u same.
          select-Keeps b _ _ u (restore-Keeps now u (Keeps-IsStale same stale)) (λ t k. refl)
  replay-Keeps now _ v stale = λ t k. refl

  abbrev transact : Instant → Exec Exn C.World (Unit {0})
  transact now =
      C.transact_write_items e.event_id (request now)
        (event_put R W C metadata_table outbox_table e)

  transact-Keeps : (now : Instant) (v : C.World) → IsStale v → Keeps v (transact now v)
  transact-Keeps now v stale = elim (outcome_cases (transact now v)) [
    | inl (a, u, p) ↦ elim (L.transact-ok e.event_id (request now) _ v (ap (λ o. o.0) p)) [
      | inl applied ↦ absurd (refused now v stale applied.condition)
      | inr (same, known) ↦ same
    ]
    | inr (x, u, p) ↦ elim (L.transact-raised e.event_id (request now) _ v x (ap (λ o. o.0) p)) [
      | inl same ↦ same
      | inr applied ↦ absurd (refused now v stale applied.condition)
    ]
  ]

  Attempts-Keeps :
      (now : Instant) {out : Result Exn (Unit {0}) × C.World} {left : ℕ} {v : C.World} {k : ℕ}
      → Attempts (transact now) out left v k
      → IsStale v
      → Keeps v out
  Attempts-Keeps now (last left v p f) stale = rw p at (transact-Keeps now v stale)
  Attempts-Keeps now (again left v u x k p h run) stale =
      let one : SameRows (L.rows v) (L.rows u) = rw p at (transact-Keeps now v stale) in
      λ t j. Attempts-Keeps now run (Keeps-IsStale one stale) t j ∙ one t j

  -- A fenced `save_with_outbox` on a metadata row that does not carry the claim changes no row of
  -- any table, whether it raises or takes the event for a replay, and however often it is retried.
  pub save_with_outbox-stale :
      (w : C.World)
      → IsStale w
      → SameRows
          (L.rows w)
          (L.rows (save_with_outbox R W C metadata_table outbox_table r e (some c) w).1)
  unfolding save_with_outbox
  save_with_outbox-stale w stale =
      let now : Instant = (C.now w).0 in
      let v : C.World = (C.now w).1 in
      let read : SameRows (L.rows w) (L.rows v) = L.rows-now w in
      let (k, le, run) = aws_retry-Attempts 3 (transact now) v in
      let tried : Keeps v (aws_retry 3 (transact now) v) =
        Attempts-Keeps now run (Keeps-IsStale read stale) in
      λ t j.
        except-Keeps v (aws_retry 3 (transact now) v) _ tried
          (λ x u p. replay-Keeps now x u (
            Keeps-IsStale (subst (λ o. SameRows (L.rows v) (L.rows o.1)) p tried)
              (Keeps-IsStale read stale)))
          t j
        ∙ read t j
