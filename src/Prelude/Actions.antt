-- ===== src/Prelude/Actions.antt =====
-- Actions over a world of external services that may raise an exception. What was done before a
-- raise stays done, so the world comes back beside the exception too.

use mathlib.Core.Path.{◌≡◌, refl, ap}
use mathlib.Core.Logic.{◌⊎◌, inl, inr}
use native.Mathlib.Omega.{arith}

pub data Result {ℓ κ} (E : Type κ) (A : Type ℓ) : Type (ℓ ⊔ κ) where
  ok : A → Result E A
  raised : E → Result E A

abbrev pub Exec {ℓ} : Type 0 → Type 0 → Type ℓ → Type ℓ
Exec E W A = W → Result E A × W

module _ {ℓ} {E W : Type 0} {A : Type ℓ} where
  abbrev pub pure : A → Exec E W A
  pure a w = (ok a, w)

  abbrev pub raise : E → Exec E W A
  raise e w = (raised e, w)

  abbrev pub except : Result E A × W → (E → Exec E W A) → Result E A × W
  except (ok a, w) h = (ok a, w)
  except (raised e, w) h = h e w

  -- `try: m except e: h(e)`
  abbrev pub try_except : Exec E W A → (E → Exec E W A) → Exec E W A
  try_except m h w = except (m w) h

module _ {ℓ κ} {E W : Type 0} {A : Type ℓ} {B : Type κ} where
  abbrev pub continue : Result E A × W → (A → Exec E W B) → Result E B × W
  continue (ok a, w) f = f a w
  continue (raised e, w) f = (raised e, w)

  infixl 5 ◌>>=◌ ◌>>◌
  unfoldable pub ◌>>=◌ : Exec E W A → (A → Exec E W B) → Exec E W B
  ◌>>=◌ m f w = continue (m w) f

  abbrev pub ◌>>◌ : Exec E W A → Exec E W B → Exec E W B
  m >> k = m >>= λ _. k

  -- Inversion of a chain that returned.
  pub continue-ok :
      (out : Result E A × W) (f : A → Exec E W B) (b : B) (w' : W)
      → continue out f ≡ (ok b, w')
      → (a : A) × (v : W) × (out ≡ (ok a, v)) × (f a v ≡ (ok b, w'))
  continue-ok (ok a, v) f b w' h = (a, v, refl, h)
  continue-ok (raised e, v) f b w' h = absurd (ground arith)

  -- A chain whose first action returned is the rest.
  pub bind-ok :
      (m : Exec E W A) (f : A → Exec E W B) (w : W) (a : A) (v : W)
      → m w ≡ (ok a, v)
      → (m >>= f) w ≡ f a v
  unfolding ◌>>=◌
  bind-ok m f w a v p = ap (λ o. continue o f) p

  -- To use that a chain returned: its first action returned, and so did the rest.
  pub bind-then {ι} :
      {X : Type ι} (m : Exec E W A) (f : A → Exec E W B) (w : W) (b : B) (w' : W)
      → (m >>= f) w ≡ (ok b, w')
      → ((a : A) (v : W) → m w ≡ (ok a, v) → f a v ≡ (ok b, w') → X)
      → X
  unfolding ◌>>=◌
  bind-then m f w b w' h k = let (a, v, p, q) = continue-ok (m w) f b w' h in k a v p q

  -- The same where the first action only computes.
  pub lift-then {ι} :
      {X : Type ι} (r : Result E A) (f : A → Exec E W B) (w : W) (b : B) (w' : W)
      → ((λ v. (r, v)) >>= f) w ≡ (ok b, w')
      → ((a : A) → r ≡ ok a → f a w ≡ (ok b, w') → X)
      → X
  unfolding ◌>>=◌
  lift-then (ok a) f w b w' h k = k a refl h
  lift-then (raised e) f w b w' h k = absurd (ground arith)

module _ {ℓ} {E W : Type 0} {A : Type ℓ} where
  -- A pure step returns its argument and leaves the world alone.
  pub pure-ok :
      (a : A) (w : W) (b : A) (w' : W) → pure {E = E} a w ≡ (ok b, w') → (a ≡ b) × (w ≡ w')
  pure-ok a w b w' h = (cc, cc)

  -- A guarded block that returned: the block did, or its handler did.
  pub except-ok :
      (out : Result E A × W) (h : E → Exec E W A) (a : A) (w' : W)
      → except out h ≡ (ok a, w')
      → (out ≡ (ok a, w')) ⊎ ((e : E) × (v : W) × (out ≡ (raised e, v)) × (h e v ≡ (ok a, w')))
  except-ok (ok b, v) h a w' p = inl p
  except-ok (raised e, v) h a w' p = inr (e, v, refl, p)
