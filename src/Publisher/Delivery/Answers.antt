-- ===== src/Publisher/Delivery/Answers.antt =====
-- What the publisher's answers tell of the row and of SNS.
use fsamp_processor.Prelude.{
  String, ◌==◌, ◌≡◌, refl, ◌∙◌, ap, sym, subst, ◌⊎◌, inl, inr, true, Option, none, some, [], ◌∷◌,
  lookup, Result, ok, raised, Exec, ◌>>=◌, pure, raise, except, continue, bind-then, lift-then,
  pure-ok, except-ok, arith, Bool-cases,
}
use fsamp_processor.Domain.Errors.{Exn}
use fsamp_processor.Domain.Events.{Runtime}
use fsamp_processor.Domain.Wire.{Wire}
use fsamp_processor.Domain.Attributes.{Item, dynamodb_value}
use fsamp_processor.Domain.Models.{OutboxEvent, OutboxEventType}
use fsamp_processor.Domain.Models.Outbox.{from_dynamodb_item, to_sns_message}
use fsamp_processor.Dynamo.{Client}
use fsamp_processor.Dynamo.Lawful.{IsLawful}
use fsamp_processor.Publisher.Settings.{Config, get_topic_arn_for_event}
use fsamp_processor.Publisher.Worker.{
  Message, Reply, StreamRecord, is_pending, handle_image, handle_insert, record_handler, published,
  already_published, claim_event_for_publish, publish_to_sns, mark_event_published, publish_claimed,
  after_claim, publish_event, give_up,
}
use fsamp_processor.Publisher.Delivery.{IsDelivered, mark-ok, claim-none}

module _ (R : Runtime) (W : Wire) (C : Client) (L : IsLawful C)
    (publish : Message → Exec Exn C.World String) (G : Config) (e : OutboxEvent) where
  -- What stands behind the answer that an event was published: a claim, a message that SNS took on
  -- the event's topic, and after that a row that is published.
  pub record IsPublished (w w' : C.World) : Type 0 where
    pub token : String
    pub message : Message
    pub receipt : String
    pub claimed : C.World
    pub sent : C.World
    pub claim : claim_event_for_publish R W C publish G e w ≡ (ok (some token), claimed)
    pub publication : publish message claimed ≡ (ok receipt, sent)
    pub topic : get_topic_arn_for_event G e ≡ ok message.topic
    pub mark : mark_event_published R W C publish G e token sent ≡ (ok tt, w')
    pub delivered : IsDelivered R W C L publish G e w'

  swallowed :
      (x : Exn) (out : Result Exn (Unit {0}) × C.World)
      → (continue {B = Reply} (except out (λ _. pure tt)) (λ _. raise x)).0 ≡ raised x
  swallowed x (ok a, v) = refl
  swallowed x (raised y, v) = refl

  give_up-raised :
      (token : Option String) (x : Exn) (w : C.World)
      → (give_up R W C publish G e token x w).0 ≡ raised x
  unfolding give_up ◌>>=◌
  give_up-raised none x w = refl
  give_up-raised (some token) x w = swallowed x _

  -- A publishing that fails under a lease raises its own error, whether the failure could be
  -- recorded or not.
  pub after_claim-raised :
      (token : String) (x : Exn) (w v : C.World)
      → publish_claimed R W C publish G e token w ≡ (raised x, v)
      → (after_claim R W C publish G e (some token) w).0 ≡ raised x
  unfolding after_claim ◌>>=◌
  after_claim-raised token x w v p =
      ap
        (λ o.
          (except (continue o (λ _. pure (published e.event_id e.event_type)))
            (give_up R W C publish G e (some token))).0)
        p
      ∙ give_up-raised (some token) x v

  publish_claimed-ok :
      (token : String) (v w' : C.World)
      → publish_claimed R W C publish G e token v ≡ (ok tt, w')
      → (m : Message) × (id : String) × (u : C.World) × (publish m v ≡ (ok id, u))
        × (get_topic_arn_for_event G e ≡ ok m.topic)
        × (mark_event_published R W C publish G e token u ≡ (ok tt, w'))
  unfolding publish_claimed publish_to_sns
  publish_claimed-ok token v w' h =
      bind-then (publish_to_sns R W C publish G e) _ v tt w' h (λ id u sent marked'.
        lift-then (to_sns_message R W e) _ v id u sent (λ event _ s.
          lift-then (get_topic_arn_for_event G e) _ v id u s
            (λ topic p q. (_, id, u, q, p, marked'))))

  after_claim-ok :
      (token : Option String) (w w' : C.World) (a : Reply)
      → after_claim R W C publish G e token w ≡ (ok a, w')
      → ((token ≡ none) × (a ≡ already_published) × (w ≡ w'))
        ⊎ ((t : String) × (token ≡ some t)
            × (a ≡ published e.event_id e.event_type)
            × (publish_claimed R W C publish G e t w ≡ (ok tt, w')))
  unfolding after_claim
  after_claim-ok none w w' a h = inl (refl, ground arith, cc)
  after_claim-ok (some t) w w' a h =
      elim (except-ok _ (give_up R W C publish G e (some t)) a w' h) [
        | inl p ↦ bind-then (publish_claimed R W C publish G e t) _ w a w' p (λ u v q r.
            let (same, end) = pure-ok (published e.event_id e.event_type) v a w' r in
            inr (t, refl, sym same, q ∙ ap (λ z. (ok tt, z)) end))
        | inr (x, v, p, q) ↦ absurd (ground (arith, give_up-raised (some t) x v, ap (λ o. o.0) q))
      ]

  -- What an answer of `publish_event` means.
  pub data IsAnswer (w w' : C.World) : Reply → Type 0 where
    done_before : IsDelivered R W C L publish G e w' → IsAnswer w w' already_published
    done_now : IsPublished w w' → IsAnswer w w' (published e.event_id e.event_type)

  answer :
      (w v w' : C.World) (token : Option String) (a : Reply)
      → claim_event_for_publish R W C publish G e w ≡ (ok token, v)
      → after_claim R W C publish G e token v ≡ (ok a, w')
      → IsAnswer w w' a
  answer w v w' token a p h = elim (after_claim-ok token v w' a h) [
    | inl (none_claimed, same, end) ↦ subst (IsAnswer w w') (sym same) (
        done_before (
          claim-none R W C L publish G e w w'
            (p ∙ ap (λ t. (ok t, v)) none_claimed ∙ ap (λ z. (ok none, z)) end)))
    | inr (t, claimed, same, sent) ↦
        let (m, id, u, q, topic, marked') = publish_claimed-ok t v w' sent in
        subst (IsAnswer w w') (sym same) (
          done_now (record {
            token = t;
            message = m;
            receipt = id;
            claimed = v;
            sent = u;
            claim = p ∙ ap (λ o. (ok o, v)) claimed;
            publication = q;
            topic = topic;
            mark = marked';
            delivered = mark-ok R W C L publish G e t u w' marked';
          }))
  ]

  pub publish_event-IsAnswer :
      (w w' : C.World) (a : Reply)
      → publish_event R W C publish G e w ≡ (ok a, w')
      → IsAnswer w w' a
  unfolding publish_event
  publish_event-IsAnswer w w' a h =
      bind-then (claim_event_for_publish R W C publish G e) _ w a w' h
        (λ token v p q. answer w v w' token a p q)

module _ (R : Runtime) (W : Wire) (C : Client) (L : IsLawful C)
    (publish : Message → Exec Exn C.World String) (G : Config) where
  -- What stands behind an event that the handler says it published.
  pub record IsHandled (r : StreamRecord) (id : String) (w w' : C.World) : Type 0 where
    pub image : Item
    pub event : OutboxEvent
    pub inserted : (r.event_name == "INSERT") ≡ true
    pub new : r.new_image ≡ some image
    pub pending : is_pending (dynamodb_value (lookup "status" image)) ≡ true
    pub read : from_dynamodb_item R W image ≡ ok event
    pub named : id ≡ event.event_id
    pub publication : IsPublished R W C L publish G event w w'

  published_answer :
      (e : OutboxEvent) (id : String) (ty : OutboxEventType) (w w' : C.World)
      → IsAnswer R W C L publish G e w w' (published id ty)
      → (id ≡ e.event_id) × IsPublished R W C L publish G e w w'
  published_answer e _ _ w w' (done_now p) = (refl, p)

  image-IsHandled :
      (r : StreamRecord) (image : Item) (id : String) (ty : OutboxEventType) (w w' : C.World)
      → (r.event_name == "INSERT") ≡ true
      → r.new_image ≡ some image
      → handle_image R W C publish G image w ≡ (ok (published id ty), w')
      → IsHandled r id w w'
  unfolding handle_image
  image-IsHandled r image id ty w w' ins new h =
      elim (Bool-cases (is_pending (dynamodb_value (lookup "status" image)))) [
        | inl p ↦
            lift-then (from_dynamodb_item R W image) _ w (published id ty) w' (rw p at h) (λ e q s.
              let (named, pub_) =
                published_answer e id ty w w'
                  (publish_event-IsAnswer R W C L publish G e w w' (published id ty) s) in
              record {
                image = image;
                event = e;
                inserted = ins;
                new = new;
                pending = p;
                read = q;
                named = named;
                publication = pub_;
              })
        | inr p ↦ absurd (ground (arith, rw p at h))
      ]

  insert-IsHandled :
      (r : StreamRecord) (o : Option Item) (id : String) (ty : OutboxEventType) (w w' : C.World)
      → (r.event_name == "INSERT") ≡ true
      → r.new_image ≡ o
      → handle_insert R W C publish G o w ≡ (ok (published id ty), w')
      → IsHandled r id w w'
  unfolding handle_insert
  insert-IsHandled r none id ty w w' ins new h = absurd (ground arith)
  insert-IsHandled r (some []) id ty w w' ins new h = absurd (ground arith)
  insert-IsHandled r (some (a ∷ i)) id ty w w' ins new h =
      image-IsHandled r (a ∷ i) id ty w w' ins new h

  -- Over a lawful DynamoDB the handler says that it published an event only if the record is the insertion of a row with
  -- status PENDING that reads as that event, SNS took a message on the topic of the event under a
  -- claim, and the row then is published.
  pub record_handler-IsHandled :
      (r : StreamRecord) (id : String) (ty : OutboxEventType) (w w' : C.World)
      → record_handler R W C publish G r w ≡ (ok (published id ty), w')
      → IsHandled r id w w'
  unfolding record_handler
  record_handler-IsHandled r id ty w w' h = elim (Bool-cases (r.event_name == "INSERT")) [
    | inl p ↦ insert-IsHandled r r.new_image id ty w w' p refl (rw p at h)
    | inr p ↦ absurd (ground (arith, rw p at h))
  ]
