-- ===== src/Publisher/Advance/Operations.antt =====
-- What the operations of the publisher do to the row of an event.
use fsamp_processor.Prelude.{
  ℕ, String, ◌≡◌, refl, sym, Option, none, some, ok, Exec, pure, raise, arith,
}
use fsamp_processor.Domain.Errors.{Exn, client, str_exn, lease_error}
use fsamp_processor.Domain.Events.{Runtime, Instant}
use fsamp_processor.Domain.Wire.{Wire}
use fsamp_processor.Domain.Models.{OutboxEvent}
use fsamp_processor.Domain.Models.Outbox.{outbox_status_value, to_sns_message}
use fsamp_processor.Dynamo.{Client}
use fsamp_processor.Dynamo.Lawful.{IsLawful}
use fsamp_processor.Adapters.Metadata.{is_conditional_failure}
use fsamp_processor.Publisher.Settings.{
  Config, get_max_retry_count, get_claim_ttl_seconds, get_retention_seconds,
  get_topic_arn_for_event,
}
use fsamp_processor.Publisher.Rows.{row_key, claim_request, published_request, failed_request}
use fsamp_processor.Publisher.Worker.{
  Message, read_live_event, unless_published, refused, claim_at, commit_at, claim_event_for_publish,
  publish_to_sns, mark_event_published, mark_event_failed, publish_claimed, give_up, after_claim,
  publish_event, not_claimable, lost,
}
use fsamp_processor.Publisher.Refinement.{Step}
use fsamp_processor.Publisher.Refinement.Moves.{Steps, Steps-trans}
use fsamp_processor.Publisher.Advance.{
  KeepsRows, row, Advances, IsStep, stays, bind-Advances, lift-Advances, try-Advances, if-Advances,
  get_item-Advances, update_item-Advances,
}

module _ (R : Runtime) (W : Wire) (C : Client) (L : IsLawful C)
    (publish : Message → Exec Exn C.World String) (K : KeepsRows C L publish) (G : Config)
    (limit : ℕ) (e : OutboxEvent) where
  -- The row of the event moves by steps.
  abbrev Moves {ℓ} : {A : Type ℓ} → Exec Exn C.World A → Type 0
  Moves m = Advances C L G.table limit e m

  unless_published-Moves {ℓ} :
      {A : Type ℓ} (a : A) (message : String → String) (live : Option OutboxEvent)
      → Moves (unless_published R W C publish G a message live)
  unfolding unless_published
  unless_published-Moves a message none w = Steps.done _
  unless_published-Moves a message (some live) w =
      if-Advances C L G.table limit e _ (pure a)
        (raise (lease_error (message (outbox_status_value live.status)))) (λ v. Steps.done _)
        (λ v. Steps.done _) w

  read_live_event-Moves : Moves (read_live_event R W C publish G e)
  unfolding read_live_event
  read_live_event-Moves =
      bind-Advances C L G.table limit e _ _ (get_item-Advances C L G.table limit e _ _)
        (λ item w. Steps.done _)

  refused-Moves {ℓ} :
      {A : Type ℓ} (a : A) (message : String → String) (x : Exn)
      → Moves (refused R W C publish G e a message x)
  unfolding refused
  refused-Moves a message (client x) =
      if-Advances C L G.table limit e (is_conditional_failure x) _ (raise (client x))
        (bind-Advances C L G.table limit e _ _ read_live_event-Moves
          (unless_published-Moves a message))
        (λ w. Steps.done _)
  refused-Moves a message x = λ w. Steps.done _

  claim-IsStep :
      (now : Instant) (token : String) (ttl : ℕ)
      → IsStep C L G.table limit e (claim_request G.table now token ttl limit e)
  unfolding claim_request
  claim-IsStep now token ttl = record {
    same_table = refl;
    same_row = refl;
    step = λ o i held h. Step.claim now token ttl o i held h;
  }

  published-IsStep :
      (now : Instant) (token : String) (retention : ℕ)
      → IsStep C L G.table limit e (published_request G.table now token retention e)
  unfolding published_request
  published-IsStep now token retention = record {
    same_table = refl;
    same_row = refl;
    step = λ o i held h. Step.publish now token retention o i held h;
  }

  failed-IsStep :
      (error token : String) → IsStep C L G.table limit e (failed_request G.table error token e)
  unfolding failed_request
  failed-IsStep error token = record {
    same_table = refl;
    same_row = refl;
    step = λ o i held h. Step.fail error token o i held h;
  }

  now-Moves :
      (w : C.World)
      → Steps G.table limit e (row C L G.table limit e w) (row C L G.table limit e (C.now w).1)
  now-Moves w = stays C L G.table limit e (L.rows-now w G.table (row_key e))

  module _ (lim : get_max_retry_count G ≡ ok limit) where
    same_limit : (n : ℕ) → get_max_retry_count G ≡ ok n → limit ≡ n
    same_limit n p = ground (arith, lim)

    claim_at-Moves : (now : Instant) (token : String) → Moves (claim_at R W C publish G e now token)
    unfolding claim_at
    claim_at-Moves now token =
        lift-Advances C L G.table limit e (get_claim_ttl_seconds G) _ (λ ttl _.
          lift-Advances C L G.table limit e (get_max_retry_count G) _ (λ m p.
            rw (sym (same_limit m p)) (
              try-Advances C L G.table limit e _ _
                (bind-Advances C L G.table limit e _ _
                  (update_item-Advances C L G.table limit e _ (claim-IsStep now token ttl))
                  (λ _ v. Steps.done _))
                (refused-Moves none not_claimable))))

    claim-Moves : Moves (claim_event_for_publish R W C publish G e)
    unfolding claim_event_for_publish
    claim-Moves w = Steps-trans (now-Moves w) (
        Steps-trans (stays C L G.table limit e (L.rows-uuid4 (C.now w).1 G.table (row_key e)))
          (claim_at-Moves (C.now w).0 (C.uuid4 (C.now w).1).0 (C.uuid4 (C.now w).1).1))

  publish_to_sns-Moves : Moves (publish_to_sns R W C publish G e)
  unfolding publish_to_sns
  publish_to_sns-Moves = lift-Advances C L G.table limit e (to_sns_message R W e) _ (λ event _.
      lift-Advances C L G.table limit e (get_topic_arn_for_event G e) _
        (λ topic _ w. stays C L G.table limit e (K _ w G.table (row_key e))))

  commit_at-Moves : (token : String) (now : Instant) → Moves (commit_at R W C publish G e token now)
  unfolding commit_at
  commit_at-Moves token now =
      try-Advances C L G.table limit e _ _
        (lift-Advances C L G.table limit e (get_retention_seconds G) _ (λ retention _.
          bind-Advances C L G.table limit e _ _
            (update_item-Advances C L G.table limit e _ (published-IsStep now token retention))
            (λ _ v. Steps.done _)))
        (refused-Moves tt (lost "commit"))

  published-Moves : (token : String) → Moves (mark_event_published R W C publish G e token)
  unfolding mark_event_published
  published-Moves token w =
      Steps-trans (now-Moves w) (commit_at-Moves token (C.now w).0 (C.now w).1)

  failed-Moves : (error token : String) → Moves (mark_event_failed R W C publish G e error token)
  unfolding mark_event_failed
  failed-Moves error token =
      try-Advances C L G.table limit e _ _
        (bind-Advances C L G.table limit e _ _
          (update_item-Advances C L G.table limit e _ (failed-IsStep error token))
          (λ _ v. Steps.done _))
        (refused-Moves tt (lost "failure commit"))

  publish_claimed-Moves : (token : String) → Moves (publish_claimed R W C publish G e token)
  unfolding publish_claimed
  publish_claimed-Moves token =
      bind-Advances C L G.table limit e _ _ publish_to_sns-Moves (λ _. published-Moves token)

  give_up-Moves : (token : Option String) (x : Exn) → Moves (give_up R W C publish G e token x)
  unfolding give_up
  give_up-Moves none x = λ w. Steps.done _
  give_up-Moves (some token) x =
      bind-Advances C L G.table limit e _ _
        (try-Advances C L G.table limit e _ _ (failed-Moves (str_exn x) token)
          (λ _ v. Steps.done _))
        (λ _ v. Steps.done _)

  after_claim-Moves : (token : Option String) → Moves (after_claim R W C publish G e token)
  unfolding after_claim
  after_claim-Moves none = λ w. Steps.done _
  after_claim-Moves (some token) =
      try-Advances C L G.table limit e _ _
        (bind-Advances C L G.table limit e _ _ (publish_claimed-Moves token) (λ _ v. Steps.done _))
        (give_up-Moves (some token))

  -- Publishing an event over a lawful DynamoDB, with an SNS that leaves its rows alone and a retry
  -- limit in range, changes the event's row by steps only, whatever comes of it.
  pub publish_event-Moves :
      get_max_retry_count G ≡ ok limit → Moves (publish_event R W C publish G e)
  unfolding publish_event
  publish_event-Moves lim =
      bind-Advances C L G.table limit e _ _ (claim-Moves lim) after_claim-Moves
