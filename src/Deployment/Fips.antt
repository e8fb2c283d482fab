-- ===== src/Deployment/Fips.antt =====
-- What the validated settings of a deployment say of FIPS.
use fsamp_processor.Prelude.{
  String, ◌≡◌, refl, ap, sym, ◌∙◌, inl, inr, Bool, true, false, Result, ok, raised, Bool-cases,
  arith,
}
use fsamp_processor.Domain.Errors.{Exn}
use fsamp_processor.Deployment.{
  Settings, accepted, is_local, valid_fields, detect_lambda_runtime, validate_deployment_baseline,
  make_settings, should_use_fips, should_require_fips,
}

baseline-fips :
    (s : Settings)
    → is_local s ≡ false
    → validate_deployment_baseline s ≡ ok tt
    → (should_use_fips s ≡ ok true) × (should_require_fips s ≡ true)
unfolding validate_deployment_baseline should_use_fips should_require_fips
baseline-fips s l h = (ground (arith, l, h), ground (arith, l, h))

pub accepted-ok :
    (s t : Settings) (r : Result Exn (Unit {0})) → accepted s r ≡ ok t → (r ≡ ok tt) × (s ≡ t)
accepted-ok s t (ok u) h = (refl, cc)
accepted-ok s t (raised x) h = absurd (ground arith)

-- Accepted settings satisfy the bounds of the fields and the validator of the deployment.
pub make_settings-ok :
    (matches : String → Bool) (s t : Settings)
    → make_settings matches s ≡ ok t
    → (valid_fields matches s ≡ true)
      × (detect_lambda_runtime s ≡ t)
      × (validate_deployment_baseline t ≡ ok tt)
unfolding make_settings
make_settings-ok matches s t h = elim (Bool-cases (valid_fields matches s)) [
  | inl p ↦
      let (valid, same) =
        accepted-ok _ t (validate_deployment_baseline (detect_lambda_runtime s))
          (rw (p, make_settings) at h) in
      (p, same, ap validate_deployment_baseline (sym same) ∙ valid)
  | inr p ↦ absurd (ground (arith, rw (p, make_settings) at h))
]

-- Accepted settings of a deployment that is not local use FIPS endpoints and require FIPS mode.
pub make_settings-fips :
    (matches : String → Bool) (s t : Settings)
    → make_settings matches s ≡ ok t
    → is_local t ≡ false
    → (should_use_fips t ≡ ok true) × (should_require_fips t ≡ true)
make_settings-fips matches s t h l = baseline-fips t l (make_settings-ok matches s t h).2
