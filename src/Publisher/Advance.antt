-- ===== src/Publisher/Advance.antt =====
-- Actions that change the row of an event by steps of publishers only.
pub mod Operations
use fsamp_processor.Prelude.{
  ℕ, String, ◌==◌, ◌≡◌, refl, ◌∙◌, ap, sym, subst, Bool, true, false, ◌&&◌, ◌⊎◌, inl, inr, Option,
  none, some, Result, ok, raised, Exec, ◌>>=◌, pure, raise, try_except, except, continue,
  if◌then◌else◌, eq_refl, arith,
}
use fsamp_processor.Domain.Errors.{Exn, ClientError, client, str_exn}
use fsamp_processor.Domain.Events.{Runtime, Instant}
use fsamp_processor.Domain.Wire.{Wire}
use fsamp_processor.Domain.Attributes.{Item}
use fsamp_processor.Domain.Models.{OutboxEvent}
use fsamp_processor.Dynamo.{Client, Key, Request}
use fsamp_processor.Dynamo.Semantics.{holds, updated, item_of}
use fsamp_processor.Dynamo.Lawful.{IsLawful, Applied, SameRows, write_self}
use fsamp_processor.Publisher.Settings.{Config, get_max_retry_count}
use fsamp_processor.Publisher.Rows.{row_key, claim_request, published_request, failed_request}
use fsamp_processor.Publisher.Worker.{
  Message, Reply, refused, claim_event_for_publish, mark_event_published, mark_event_failed,
  publish_to_sns, publish_claimed, after_claim, publish_event, give_up,
}
use fsamp_processor.Publisher.Refinement.{Step}
use fsamp_processor.Publisher.Refinement.Moves.{Steps, Steps-trans}

-- `publish` of SNS leaves DynamoDB alone.
abbrev pub KeepsRows : (C : Client) → IsLawful C → (Message → Exec Exn C.World String) → Type 0
KeepsRows C L publish = (m : Message) (w : C.World) → SameRows (L.rows w) (L.rows (publish m w).1)

module _ (C : Client) (L : IsLawful C) (table : String) (limit : ℕ) (e : OutboxEvent) where
  abbrev pub row : C.World → Option Item
  row w = L.rows w table (row_key e)

  -- The row moves by steps, if at all.
  abbrev pub Advances {ℓ} : {A : Type ℓ} → Exec Exn C.World A → Type 0
  Advances m = (w : C.World) → Steps table limit e (row w) (row (m w).1)

  pub stays : {a b : Option Item} → b ≡ a → Steps table limit e a b
  stays {a} {b} p = subst (λ o. Steps table limit e o b) p (Steps.done b)

  continue-Advances {ℓ κ} :
      {A : Type ℓ} {B : Type κ} (out : Result Exn A × C.World) (f : A → Exec Exn C.World B)
      → ((a : A) → Advances (f a))
      → Steps table limit e (row out.1) (row (continue out f).1)
  continue-Advances (ok a, v) f h = h a v
  continue-Advances (raised x, v) f h = Steps.done _

  pub bind-Advances {ℓ κ} :
      {A : Type ℓ} {B : Type κ} (m : Exec Exn C.World A) (f : A → Exec Exn C.World B)
      → Advances m
      → ((a : A) → Advances (f a))
      → Advances (m >>= f)
  unfolding ◌>>=◌
  bind-Advances m f h k w = Steps-trans (h w) (continue-Advances (m w) f k)

  -- The same where the first action only computes.
  pub lift-Advances {ℓ κ} :
      {A : Type ℓ} {B : Type κ} (r : Result Exn A) (f : A → Exec Exn C.World B)
      → ((a : A) → r ≡ ok a → Advances (f a))
      → Advances ((λ w. (r, w)) >>= f)
  unfolding ◌>>=◌
  lift-Advances (ok a) f k w = k a refl w
  lift-Advances (raised x) f k w = Steps.done _

  except-Advances {ℓ} :
      {A : Type ℓ} (out : Result Exn A × C.World) (f : Exn → Exec Exn C.World A)
      → ((x : Exn) → Advances (f x))
      → Steps table limit e (row out.1) (row (except out f).1)
  except-Advances (ok a, v) f h = Steps.done _
  except-Advances (raised x, v) f h = h x v

  pub try-Advances {ℓ} :
      {A : Type ℓ} (m : Exec Exn C.World A) (f : Exn → Exec Exn C.World A)
      → Advances m
      → ((x : Exn) → Advances (f x))
      → Advances (try_except m f)
  try-Advances m f h k w = Steps-trans (h w) (except-Advances (m w) f k)

  pub if-Advances {ℓ} :
      {A : Type ℓ} (b : Bool) (m n : Exec Exn C.World A)
      → Advances m
      → Advances n
      → Advances (if b then m else n)
  if-Advances true m n h k = h
  if-Advances false m n h k = k

  pub get_item-Advances : (t : String) (k : Key) → Advances (C.get_item t k)
  get_item-Advances t k w = stays (L.rows-get_item t k w table (row_key e))

  -- A request on the row that is a step wherever its condition holds.
  pub record IsStep (r : Request) : Type 0 where
    pub same_table : r.table ≡ table
    pub same_row : r.key ≡ row_key e
    pub step :
        (o : Option Item) (i : Item)
        → holds r.condition (item_of o) ≡ true
        → updated r o ≡ some i
        → Step table limit e o (some i)

  Applied-Steps :
      (r : Request) (i : Item) (w v : C.World)
      → IsStep r
      → Applied r i (L.rows w) (L.rows v)
      → Steps table limit e (row w) (row v)
  Applied-Steps r i w v s a =
      let before : L.rows w r.table r.key ≡ row w = cc (s.same_table, s.same_row) in
      let after : row v ≡ some i =
        cc (
          s.same_table,
          s.same_row,
          a.rows r.table r.key ∙ write_self r.table r.key i (L.rows w),
        ) in
      Steps.next (row w) (row v) (row v)
        (subst (λ o. Step table limit e (row w) o) (sym after)
          (s.step (row w) i (ap (λ o. holds r.condition (item_of o)) (sym before) ∙ a.condition)
            (ap (λ o. updated r o) (sym before) ∙ a.item)))
        (Steps.done (row v))

  outcome-Steps :
      (r : Request) (w : C.World)
      → IsStep r
      → (out : Result Exn Item) → (C.update_item r w).0 ≡ out
      → Steps table limit e (row w) (row (C.update_item r w).1)
  outcome-Steps r w s (ok i) p = Applied-Steps r i w _ s (L.update_item-ok r w i p)
  outcome-Steps r w s (raised x) p = elim (L.update_item-raised r w x p) [
    | inl same ↦ stays (same table (row_key e))
    | inr (i, a) ↦ Applied-Steps r i w _ s a
  ]

  pub update_item-Advances : (r : Request) → IsStep r → Advances (C.update_item r)
  update_item-Advances r s w = outcome-Steps r w s (C.update_item r w).0 refl
