-- ===== src/Adapters/Retry.antt =====
-- src/processor/adapters/outbound/aws_retry.py. The waits between attempts are left out.
use fsamp_processor.Prelude.{
  ℕ, zero, suc, ◌+◌, ◌-◌, ◌≤◌, String, ◌==◌, starts_with, ◌≡◌, refl, subst, Bool, true, false, ◌||◌,
  ◌⊎◌, inl, inr, List, [], ◌∷◌, ◌∙◌, ap, Result, ok, raised, Exec, if◌then◌else◌, leb, arith,
  Bool-cases,
}
use fsamp_processor.Domain.Errors.{Exn, domain, caused, client, boto_core}

unfoldable pub root_cause : Exn → Exn
root_cause (caused e c) = root_cause c
root_cause (domain e) = domain e
root_cause e = e

unfoldable pub mem_text : String → List String → Bool
mem_text k [] = false
mem_text k (t ∷ l) = k == t || mem_text k l

abbrev transient_codes : List String
transient_codes =
    "InternalError" ∷ "InternalServerError" ∷ "PriorRequestNotComplete"
    ∷ "ProvisionedThroughputExceededException" ∷ "RequestLimitExceeded" ∷ "RequestTimeout"
    ∷ "RequestTimeoutException" ∷ "ServiceUnavailable" ∷ "SlowDown" ∷ "Throttling"
    ∷ "ThrottlingException" ∷ "TransactionInProgressException" ∷ []

abbrev sdk_retryable : Exn → Bool
sdk_retryable (client e) =
    mem_text e.code transient_codes || starts_with e.code "Throttl" || leb 500 e.status
sdk_retryable (boto_core t) = true
sdk_retryable _ = false

unfoldable pub is_retryable_aws_error : Exn → Bool
unfolding root_cause mem_text
is_retryable_aws_error e = sdk_retryable (root_cause e)

-- What ends a series of attempts of which `left` more would be allowed.
abbrev pub IsFinal {ℓ} : {A : Type ℓ} → ℕ → Result Exn A → Type 0
IsFinal left (ok a) = Unit
IsFinal left (raised e) = (left ≡ 0) ⊎ (is_retryable_aws_error e ≡ false)

module _ {ℓ} {W : Type 0} {A : Type ℓ} where
  -- One attempt, then at most `n` more.
  pub retrying : ℕ → Exec Exn W A → Exec Exn W A
  retrying zero m w = m w
  retrying (suc n) m w =
      let (r, w') = m w in
      elim r [
        | ok a ↦ (ok a, w')
        | raised e ↦
            let rest = retrying n m w' in if is_retryable_aws_error e then rest else (raised e, w')
      ]

  -- `@aws_retry(attempts=…)`; tenacity always makes the first attempt.
  unfoldable pub aws_retry : ℕ → Exec Exn W A → Exec Exn W A
  unfolding retrying
  aws_retry attempts m = retrying (attempts - 1) m

  -- `Attempts m left w k out`: `k` attempts from `w`, all but the last of which failed with a
  -- retryable error; the last gave `out`, and could have been followed by `left - k + 1` more.
  pub data Attempts (m : Exec Exn W A) (out : Result Exn A × W) : ℕ → W → ℕ → Type ℓ where
    last : (left : ℕ) (w : W) → m w ≡ out → IsFinal left out.0 → Attempts m out left w 1
    again :
        (left : ℕ) (w v : W) (e : Exn) (k : ℕ)
        → m w ≡ (raised e, v)
        → is_retryable_aws_error e ≡ true
        → Attempts m out left v k
        → Attempts m out (suc left) w (suc k)

  pub outcome_cases :
      (out : Result Exn A × W)
      → ((a : A) × (v : W) × (out ≡ (ok a, v))) ⊎ ((e : Exn) × (v : W) × (out ≡ (raised e, v)))
  outcome_cases (ok a, v) = inl (a, v, refl)
  outcome_cases (raised e, v) = inr (e, v, refl)

  module _ (m : Exec Exn W A) (w v : W) where
    retrying-returned : (n : ℕ) (a : A) → m w ≡ (ok a, v) → retrying n m w ≡ (ok a, v)
    unfolding retrying
    retrying-returned zero a p = p
    retrying-returned (suc n) a p = rw (p, retrying) (ap (λ o. (ok a, o.1)) p)

    retrying-given_up :
        (n : ℕ) (e : Exn)
        → m w ≡ (raised e, v)
        → is_retryable_aws_error e ≡ false
        → retrying n m w ≡ (raised e, v)
    unfolding retrying
    retrying-given_up zero e p h = p
    retrying-given_up (suc n) e p h = rw (p, retrying) (rw h (ap (λ o. (raised e, o.1)) p))

    retrying-again :
        (n : ℕ) (e : Exn)
        → m w ≡ (raised e, v)
        → is_retryable_aws_error e ≡ true
        → retrying (suc n) m w ≡ retrying n m v
    unfolding retrying
    retrying-again n e p h = rw (p, retrying) (rw h (ap (λ o. retrying n m o.1) p))

  -- A retried call that may try `n` more times is a series of at most `n + 1` attempts.
  retrying-Attempts :
      (n : ℕ) (m : Exec Exn W A) (w : W) → (k : ℕ) × (k ≤ n + 1) × Attempts m (retrying n m w) n w k
  retrying-Attempts zero m w = unfold retrying in (1, omega arith, last zero w refl (final (m w).0))
    where
      final : (r : Result Exn A) → IsFinal zero r
      final (ok a) = tt
      final (raised e) = inl refl
  retrying-Attempts (suc n) m w = elim (outcome_cases (m w)) [
    | inl (a, v, p) ↦
        (1, omega arith, rw (retrying-returned m w v (suc n) a p) (last (suc n) w p tt))
    | inr (e, v, p) ↦ elim (Bool-cases (is_retryable_aws_error e)) [
      | inl h ↦
          let (k, le, run) = retrying-Attempts n m v in
          (suc k, omega arith, rw (retrying-again m w v n e p h) (again n w v e k p h run))
      | inr h ↦
          (1, omega arith, rw (retrying-given_up m w v (suc n) e p h) (last (suc n) w p (inr h)))
    ]
  ]

-- A call under `aws_retry` is a series of at least one and at most `attempts` attempts, or one if
-- that is 0. Each but the last fails with a retryable error; the last gives the outcome, which is
-- a value, an error that is not retryable, or the error of the last attempt allowed.
pub aws_retry-Attempts {ℓ} :
    {W : Type 0} {A : Type ℓ} (attempts : ℕ) (m : Exec Exn W A) (w : W)
    → (k : ℕ) × (k ≤ attempts - 1 + 1) × Attempts m (aws_retry attempts m w) (attempts - 1) w k
aws_retry-Attempts attempts m w = unfold aws_retry in retrying-Attempts (attempts - 1) m w

-- What holds after every attempt that returns holds after the retried call, if it returns.
pub aws_retry-ok {ℓ} :
    {W : Type 0} {A : Type ℓ} (attempts : ℕ) (m : Exec Exn W A) (w : W) (a : A) (w' : W)
    → aws_retry attempts m w ≡ (ok a, w')
    → (v : W) × (m v ≡ (ok a, w'))
aws_retry-ok {W} {A} attempts m w a w' p =
    let (k, le, run) = aws_retry-Attempts attempts m w in returned run p
  where
    returned :
        {out : Result Exn A × W} {left : ℕ} {u : W} {k : ℕ}
        → Attempts m out left u k
        → out ≡ (ok a, w')
        → (v : W) × (m v ≡ (ok a, w'))
    returned (last left u q f) p = (u, q ∙ p)
    returned (again left u v e k q h run) p = returned run p

-- A call whose first attempt returns is not repeated.
pub aws_retry-returned {ℓ} :
    {W : Type 0} {A : Type ℓ} (attempts : ℕ) (m : Exec Exn W A) (w v : W) (a : A)
    → m w ≡ (ok a, v)
    → aws_retry attempts m w ≡ (ok a, v)
aws_retry-returned attempts m w v a p =
    unfold aws_retry in retrying-returned m w v (attempts - 1) a p

-- What every attempt keeps, the retried call keeps.
pub aws_retry-keeps {ℓ} :
    {W : Type 0} {A : Type ℓ} (P : W → Type 0) (attempts : ℕ) (m : Exec Exn W A) (w : W)
    → ((v : W) → P v → P (m v).1)
    → P w
    → P (aws_retry attempts m w).1
aws_retry-keeps {W} {A} P attempts m w keeps p =
    let (k, le, run) = aws_retry-Attempts attempts m w in kept run p
  where
    kept :
        {out : Result Exn A × W} {left : ℕ} {u : W} {k : ℕ}
        → Attempts m out left u k
        → P u
        → P out.1
    kept (last left u q f) p = subst (λ o. P o.1) q (keeps u p)
    kept (again left u v e k q h run) p = kept run (subst (λ o. P o.1) q (keeps u p))
