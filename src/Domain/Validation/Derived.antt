-- ===== src/Domain/Validation/Derived.antt =====
-- The output events that `with_new_event_type` derives.
use fsamp_processor.Prelude.{
  String, ◌≡◌, refl, ◌∙◌, sym, ap, Bool, true, false, Option, ok, raised, arith, if◌then◌else◌,
}
use fsamp_processor.Domain.Errors.{validation}
use fsamp_processor.Domain.Events.{
  Instant, Runtime, FileEvent, EventType, ProcessingResultDetails, FailureDetails, StorageLocation,
}
use fsamp_processor.Domain.Validation.{
  valid_event, validate, derived, with_new_event_type, expected_source,
}

validate-ok :
    (R : Runtime) (e a : FileEvent) → validate R e ≡ ok a → (e ≡ a) × (valid_event R e ≡ true)
unfolding validate
validate-ok R e a h = checked (valid_event R e) refl h
  where
    checked :
        (b : Bool)
        → valid_event R e ≡ b
        → (if b then ok e else raised (validation "FileEvent")) ≡ ok a
        → (e ≡ a) × (valid_event R e ≡ true)
    checked true p h = (cc, p)
    checked false p h = absurd (ground arith)

-- Two derivations of the same event type with the same discriminator from one event, at any times and
-- with any details and locations, give the same event, file and correlation ids; what is derived
-- satisfies every check of the schema and comes from the service that must produce its type.
pub with_new_event_type-stable :
    (R : Runtime) (e : FileEvent) (t : EventType) (d : Option String) (now later : Instant)
    (result result' : Option ProcessingResultDetails) (failed failed' : Option FailureDetails)
    (location location' : Option StorageLocation) (a b : FileEvent)
    → with_new_event_type R now e t result failed location d ≡ ok a
    → with_new_event_type R later e t result' failed' location' d ≡ ok b
    → (a.event_id ≡ b.event_id)
      × (a.file_id ≡ b.file_id)
      × (a.correlation_id ≡ b.correlation_id)
      × (a.source ≡ expected_source t)
      × (valid_event R a ≡ true)
unfolding with_new_event_type derived
with_new_event_type-stable R e t d now later result result' failed failed' location location' a b h
      k =
    let (p, valid) = validate-ok R _ a h in
    let (q, valid') = validate-ok R _ b k in
    (
      sym (ap (λ x. x.event_id) p) ∙ ap (λ x. x.event_id) q,
      sym (ap (λ x. x.file_id) p) ∙ ap (λ x. x.file_id) q,
      sym (ap (λ x. x.correlation_id) p) ∙ ap (λ x. x.correlation_id) q,
      sym (ap (λ x. x.source) p),
      ap (λ x. valid_event R x) (sym p) ∙ valid,
    )
