-- ===== src/Processor/Service/Success.antt =====
-- What it means that `handle` returned for an uploaded file.
use fsamp_processor.Prelude.{
  ◌≡◌, refl, ap, ◌∙◌, Bool, true, false, Option, none, some, Result, ok, raised, Exec, bind-then,
  pure-ok, if◌then◌else◌, arith, ◌||◌, ◌⊎◌, inl, inr, ◌>>=◌, except, Bool-cases,
}
use fsamp_processor.Domain.Errors.{Exn}
use fsamp_processor.Domain.Events.{Instant, Runtime, FileEvent, EventType, is_type}
use fsamp_processor.Domain.Wire.{Wire}
use fsamp_processor.Domain.Models.{
  MetadataRecord, ProcessingClaim, ProcessingResult, ProcessingStatus,
}
use fsamp_processor.Processor.Ports.{Ports, Config}
use fsamp_processor.Processor.Checks.{create_metadata_record, same_text?}
use fsamp_processor.Processor.Failure.{recover}
use fsamp_processor.Processor.Failure.Report.{recover-reported}
use fsamp_processor.Processor.Service.{
  duplicate_of, idempotent_result, process_claimed, or_unavailable, without_claim, with_claim,
  attempt, first_delivery, handle, initial_result, is_actionable, is_completed,
}
use fsamp_processor.Processor.Service.Verified.{same_text?-some}
use fsamp_processor.Processor.Service.Commit.{IsCommitted, process_uploaded_file-ok}

completed_of : (s : ProcessingStatus) → is_completed s ≡ true → s ≡ ProcessingStatus.completed
completed_of ProcessingStatus.completed h = refl
completed_of _ h = cc

module _ (R : Runtime) (W : Wire) (P : Ports) (S : Config) (e : FileEvent) where
  -- The event was completed before: its record says so.
  pub record IsReplay : Type 0 where
    pub before : P.World
    pub after : P.World
    pub found : MetadataRecord
    pub read : P.get_by_id e.file_id.text before ≡ (ok (some found), after)
    pub same_event : found.last_processed_event_id ≡ some e.event_id.text
    pub completed_before : found.status ≡ ProcessingStatus.completed

  -- The event was processed under a lease.
  pub record IsFresh (done : ProcessingResult) : Type 0 where
    pub before : P.World
    pub after : P.World
    pub started : Instant
    pub claim : ProcessingClaim
    pub claimed :
        P.claim_processing (create_metadata_record e started.iso) e.event_id.text S.claim_ttl before
        ≡ (ok (some claim), after)
    pub committed : IsCommitted R W P S e (initial_result R W P S e started) claim done

  duplicate_of-some :
      (result : ProcessingResult) (o : Option MetadataRecord) (w : P.World) (d : ProcessingResult)
      (w' : P.World)
      → duplicate_of R W P S e result o w ≡ (ok (some d), w')
      → (r : MetadataRecord) × (o ≡ some r)
        × (r.last_processed_event_id ≡ some e.event_id.text)
        × (r.status ≡ ProcessingStatus.completed)
  unfolding duplicate_of ◌>>=◌
  duplicate_of-some result none w d w' h = absurd (ground arith)
  duplicate_of-some result (some r) w d w' h =
      elim (Bool-cases (same_text? r.last_processed_event_id (some e.event_id.text))) [
        | inr p ↦ absurd (ground arith)
        | inl p ↦ elim (Bool-cases (is_completed r.status)) [
          | inl q ↦ (
            r,
            refl,
            same_text?-some R W P S e r.last_processed_event_id e.event_id.text p,
            completed_of r.status q,
          )
          | inr q ↦ absurd (ground arith)
        ]
      ]

  idempotent_result-some :
      (result : ProcessingResult) (w : P.World) (d : ProcessingResult) (w' : P.World)
      → idempotent_result R W P S e result w ≡ (ok (some d), w')
      → IsReplay
  unfolding idempotent_result
  idempotent_result-some result w d w' h = bind-then _ _ _ _ _ h λ o v p h1.
      let (r, q, same, status) = duplicate_of-some result o v d w' h1 in
      record {
        before = w;
        after = v;
        found = r;
        read = p ∙ ap (λ x. (ok x, v)) q;
        same_event = same;
        completed_before = status;
      }

  not_both :
      {A : Type 0} (o : Result Exn A × P.World) {x : Exn} {a : A} {v w : P.World}
      → o ≡ (raised x, v)
      → o ≡ (ok a, w)
      → ⊥
  not_both o p h = ground arith

  recovered-ok :
      {A : Type 0} (out : Result Exn A × P.World) (c : Option ProcessingClaim) (a : A)
      (w' : P.World)
      → except out (recover R W P S {A = A} e c) ≡ (ok a, w')
      → out ≡ (ok a, w')
  recovered-ok (ok b, w) c a w' h = h
  recovered-ok (raised x, w) c a w' h =
      let (v, p) = recover-reported R W P S e c x w in absurd (not_both _ p h)

  or_unavailable-ok :
      (o : Option ProcessingResult) (w : P.World) (d : ProcessingResult) (w' : P.World)
      → or_unavailable R W P S o w ≡ (ok d, w')
      → o ≡ some d
  unfolding or_unavailable
  or_unavailable-ok none w d w' h = absurd (ground arith)
  or_unavailable-ok (some a) w d w' h = ap some (pure-ok a w d w' h).0

  without_claim-ok :
      (result : ProcessingResult) (w : P.World) (d : ProcessingResult) (w' : P.World)
      → without_claim R W P S e result w ≡ (ok d, w')
      → IsReplay
  unfolding without_claim
  without_claim-ok result w d w' h = bind-then _ _ _ _ _ h λ o v p h1.
      idempotent_result-some result w d v (p ∙ ap (λ x. (ok x, v)) (or_unavailable-ok o v d w' h1))

  process_claimed-ok :
      (result : ProcessingResult) (claim : ProcessingClaim) (w : P.World) (d : ProcessingResult)
      (w' : P.World)
      → is_type e.event_type EventType.file_uploaded ≡ true
      → process_claimed R W P S e result claim w ≡ (ok d, w')
      → IsCommitted R W P S e result claim d
  unfolding process_claimed
  process_claimed-ok result claim w d w' u h =
      process_uploaded_file-ok R W P S e result claim w d w' (selected _ _ _ u h)
    where
      selected :
          (b : Bool) (m k : Exec Exn P.World ProcessingResult)
          → b ≡ true
          → (if b then m else k) w ≡ (ok d, w')
          → m w ≡ (ok d, w')
      selected true m k p q = q
      selected false m k p q = cc

  attempt-ok :
      (started : Instant) (w : P.World) (d : ProcessingResult) (w' : P.World)
      → is_type e.event_type EventType.file_uploaded ≡ true
      → attempt R W P S e (initial_result R W P S e started) started w ≡ (ok d, w')
      → IsReplay ⊎ IsFresh d
  unfolding attempt with_claim
  attempt-ok started w d w' u h =
      bind-then _ _ _ _ _ h λ c v p h1. continued c v (recovered-ok _ none c v p) h1
    where
      continued :
          (c : Option ProcessingClaim) (v : P.World)
          → P.claim_processing (create_metadata_record e started.iso) e.event_id.text S.claim_ttl w
            ≡ (ok c, v)
          → with_claim R W P S e (initial_result R W P S e started) c v ≡ (ok d, w')
          → IsReplay ⊎ IsFresh d
      continued none v p h = inl (without_claim-ok _ v d w' (recovered-ok _ none d w' h))
      continued (some c) v p h = inr record {
        before = w;
        after = v;
        started = started;
        claim = c;
        claimed = p;
        committed = process_claimed-ok _ c v d w' u (recovered-ok _ (some c) d w' h);
      }

  -- When `handle` returns for an uploaded file, either the stored record says that this very event
  -- was completed before, or the upload was processed under a granted lease: it is trusted, within
  -- the size limit, verified against the downloaded bytes, and its record and completion event
  -- were committed under that lease before the result was returned.
  pub handle-committed :
      (w : P.World) (d : ProcessingResult) (w' : P.World)
      → is_type e.event_type EventType.file_uploaded ≡ true
      → handle R W P S e w ≡ (ok d, w')
      → IsReplay ⊎ IsFresh d
  unfolding handle first_delivery is_actionable
  handle-committed w d w' u h =
      bind-then _ _ _ _ _ h
        λ started w1 p1 h1. bind-then _ _ _ _ _ h1 λ o w2 p2 h2. first started w1 o w2 p2 h2
    where
      selected :
          (b c : Bool) (m k : Exec Exn P.World ProcessingResult) {v : P.World}
          → b ≡ true
          → (if b || c then m else k) v ≡ (ok d, w')
          → m v ≡ (ok d, w')
      selected true c m k p q = q
      selected false c m k p q = cc

      first :
          (started : Instant) (w1 : P.World) (o : Option ProcessingResult) (w2 : P.World)
          → idempotent_result R W P S e (initial_result R W P S e started) w1 ≡ (ok o, w2)
          → first_delivery R W P S e (initial_result R W P S e started) started o w2 ≡ (ok d, w')
          → IsReplay ⊎ IsFresh d
      first started w1 (some a) w2 p h = inl (idempotent_result-some _ w1 a w2 p)
      first started w1 none w2 p h = attempt-ok started w2 d w' u (selected _ _ _ _ u h)
