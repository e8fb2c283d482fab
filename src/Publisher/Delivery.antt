-- ===== src/Publisher/Delivery.antt =====
-- What the row holds after a mark that returned, and after a claim that gave no token.
pub mod Answers
use fsamp_processor.Prelude.{
  ℕ, String, ◌==◌, ◌≡◌, refl, ◌∙◌, ap, sym, subst, ◌⊎◌, inl, inr, Bool, true, false, Option, none,
  some, [], ◌∷◌, Result, ok, raised, Exec, ◌>>=◌, ◌>>◌, pure, raise, try_except, except, continue,
  bind-then, lift-then, pure-ok, except-ok, if◌then◌else◌, arith, Bool-cases,
}
use fsamp_processor.Domain.Errors.{Exn, ClientError, client, lease_error}
use fsamp_processor.Domain.Events.{Runtime, Instant}
use fsamp_processor.Domain.Wire.{Wire}
use fsamp_processor.Domain.Attributes.{Item, text}
use fsamp_processor.Domain.Models.{OutboxEvent, OutboxStatus, OutboxEventType}
use fsamp_processor.Domain.Models.Outbox.{outbox_status_value, from_dynamodb_item, to_sns_message}
use fsamp_processor.Dynamo.{Client}
use fsamp_processor.Dynamo.Lawful.{IsLawful, Applied, write_self}
use fsamp_processor.Adapters.Metadata.{is_conditional_failure}
use fsamp_processor.Publisher.Settings.{
  Config, get_claim_ttl_seconds, get_max_retry_count, get_retention_seconds,
  get_topic_arn_for_event,
}
use fsamp_processor.Publisher.Rows.{row_key, claim_request, published_request}
use fsamp_processor.Publisher.Worker.{
  Message, Reply, published, already_published, is_published, read_item, read_live_event,
  unless_published, refused, claim_at, not_claimable, claim_event_for_publish, commit_at,
  publish_to_sns, mark_event_published, publish_claimed, after_claim, publish_event, lost, give_up,
}
use fsamp_processor.Publisher.Refinement.{at}
use fsamp_processor.Publisher.Refinement.Marks.{publish_status}

module _ (R : Runtime) (W : Wire) (C : Client) (L : IsLawful C)
    (publish : Message → Exec Exn C.World String) (G : Config) (e : OutboxEvent) where
  -- The row of the event.
  abbrev pub row : C.World → Option Item
  row w = L.rows w G.table (row_key e)

  -- The row says that the event is published, or reads as an event that is.
  pub data IsDelivered (w : C.World) : Type 0 where
    marked : at "status" (row w) ≡ some (text "PUBLISHED") → IsDelivered w
    found :
        (live : OutboxEvent)
        → read_item R W C publish G (row w) ≡ ok (some live)
        → is_published live.status ≡ true
        → IsDelivered w

  unless_published-ok {ℓ} :
      {A : Type ℓ} (a b : A) (message : String → String) (live : Option OutboxEvent)
      (w w' : C.World)
      → unless_published R W C publish G a message live w ≡ (ok b, w')
      → (l : OutboxEvent) × (live ≡ some l) × (is_published l.status ≡ true) × (w ≡ w')
  unfolding unless_published
  unless_published-ok a b message none w w' h = absurd (ground arith)
  unless_published-ok a b message (some l) w w' h = elim (Bool-cases (is_published l.status)) [
    | inl p ↦ (l, refl, p, ground (arith, p))
    | inr p ↦ absurd (ground (arith, p))
  ]

  read_live_event-ok :
      (w v : C.World) (live : OutboxEvent)
      → read_live_event R W C publish G e w ≡ (ok (some live), v)
      → is_published live.status ≡ true
      → IsDelivered v
  unfolding read_live_event
  read_live_event-ok w v live h p =
      bind-then (C.get_item G.table (row_key e)) _ w (some live) v h (λ item u got rest.
        let read : item ≡ row w = L.get_item-ok G.table (row_key e) w item (ap (λ o. o.0) got) in
        let kept : row u ≡ row w =
          ap (λ z. L.rows z G.table (row_key e)) (sym (ap (λ o. o.1) got))
          ∙ L.rows-get_item G.table (row_key e) w G.table (row_key e) in
        let same : row v ≡ item = cc (read, kept, ap (λ o. o.1) rest) in
        found live (ap (read_item R W C publish G) same ∙ ap (λ o. o.0) rest) p)

  refused-ok {ℓ} :
      {A : Type ℓ} (a b : A) (message : String → String) (x : Exn) (w w' : C.World)
      → refused R W C publish G e a message x w ≡ (ok b, w')
      → IsDelivered w'
  unfolding refused
  refused-ok a b message (client x) w w' h = elim (Bool-cases (is_conditional_failure x)) [
    | inl p ↦ bind-then (read_live_event R W C publish G e) _ w b w' (rw p at h) (λ live v q r.
        let (l, s, t, u) = unless_published-ok a b message live v w' r in
        read_live_event-ok w w' l (q ∙ ap (λ o. (ok o, v)) s ∙ ap (λ z. (ok (some l), z)) u) t)
    | inr p ↦ absurd (ground (arith, p))
  ]
  refused-ok a b message x w w' h = absurd (ground arith)

  -- The mark that was applied is what the row now holds.
  marked_row :
      (now : Instant) (token : String) (retention : ℕ) (i : Item) (w v : C.World)
      → C.update_item (published_request G.table now token retention e) w ≡ (ok i, v)
      → at "status" (row v) ≡ some (text "PUBLISHED")
  marked_row now token retention i w v done =
      let r = published_request G.table now token retention e in
      let a = L.update_item-ok r w i (ap (λ o. o.0) done) in
      let held : row v ≡ some i =
        unfold published_request in
        (ap (λ z. L.rows z G.table (row_key e)) (sym (ap (λ o. o.1) done))
          ∙ a.rows G.table (row_key e)
          ∙ write_self G.table (row_key e) i (L.rows w)) in
      ap (λ o. at "status" o) held ∙ publish_status G.table now token retention e _ i a.item

  commit_at-ok :
      (token : String) (now : Instant) (w w' : C.World)
      → commit_at R W C publish G e token now w ≡ (ok tt, w')
      → IsDelivered w'
  unfolding commit_at
  commit_at-ok token now w w' h =
      elim (except-ok _ (refused R W C publish G e tt (lost "commit")) tt w' h) [
        | inl p ↦ lift-then (get_retention_seconds G) _ w tt w' p (λ retention _ q.
            bind-then (C.update_item (published_request G.table now token retention e)) _ w tt w' q
              (λ i v done r. marked (
                ap (λ z. at "status" (row z)) (sym (pure-ok tt v tt w' r).1)
                ∙ marked_row now token retention i w v done)))
        | inr (x, v, p, q) ↦ refused-ok tt tt (lost "commit") x v w' q
      ]

  pub mark-ok :
      (token : String) (w w' : C.World)
      → mark_event_published R W C publish G e token w ≡ (ok tt, w')
      → IsDelivered w'
  unfolding mark_event_published
  mark-ok token w w' h = commit_at-ok token (C.now w).0 (C.now w).1 w' h

  claim_at-none :
      (now : Instant) (token : String) (w w' : C.World)
      → claim_at R W C publish G e now token w ≡ (ok none, w')
      → IsDelivered w'
  unfolding claim_at
  claim_at-none now token w w' h = lift-then (get_claim_ttl_seconds G) _ w none w' h (λ ttl _ h1.
      lift-then (get_max_retry_count G) _ w none w' h1 (λ limit _ h2.
        elim (except-ok _ (refused R W C publish G e none not_claimable) none w' h2) [
          | inl p ↦
              bind-then (C.update_item (claim_request G.table now token ttl limit e)) _ w none w' p
                (λ i v _ r. absurd (ground arith))
          | inr (x, v, p, q) ↦ refused-ok none none not_claimable x v w' q
        ]))

  pub claim-none :
      (w w' : C.World)
      → claim_event_for_publish R W C publish G e w ≡ (ok none, w')
      → IsDelivered w'
  unfolding claim_event_for_publish
  claim-none w w' h = claim_at-none (C.now w).0 (C.uuid4 (C.now w).1).0 _ w' h
