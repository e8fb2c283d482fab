-- ===== src/Prelude/Bytes.antt =====
-- Python's `bytes`: the length, `b[:n]`, `b[n:]` and the big-endian numbers of four bytes.
use Prim.Native.Nat.{ℕ, zero, suc, ◌+◌, ◌*◌, ◌/◌, ◌%◌, ◌^◌, ◌<◌}
use mathlib.Core.Path.{◌≡◌, refl, ap, sym, ◌∙◌}
use mathlib.Core.Logic.{inl, inr}
use mathlib.Core.Option.{Option, none, some}
use mathlib.Core.List.{List, [], ◌∷◌, ◌++◌}
use native.Mathlib.Omega.{arith}
use fsamp_processor.Prelude.Tests.{ltb, ltb→lt, Bool-cases, if◌then◌else◌}

module _ {ℓ} {A : Type ℓ} where
  unfoldable pub size : List A → ℕ
  size [] = 0
  size (a ∷ l) = suc (size l)

  unfoldable pub take : ℕ → List A → List A
  take zero l = []
  take (suc n) [] = []
  take (suc n) (a ∷ l) = a ∷ take n l

  unfoldable pub drop : ℕ → List A → List A
  drop zero l = l
  drop (suc n) [] = []
  drop (suc n) (a ∷ l) = drop n l

  pub size-cons : (a : A) (l : List A) → size (a ∷ l) ≡ suc (size l)
  unfolding size
  size-cons a l = refl

  pub size-append : (a b : List A) → size (a ++ b) ≡ size a + size b
  unfolding size
  size-append [] b = omega arith
  size-append (x ∷ a) b = omega (arith, size-append a b)

  pub take-append : (n : ℕ) (a b : List A) → size a ≡ n → take n (a ++ b) ≡ a
  unfolding size take
  take-append zero [] b p = refl
  take-append zero (x ∷ a) b p = absurd (omega arith)
  take-append (suc n) [] b p = absurd (omega arith)
  take-append (suc n) (x ∷ a) b p = ap (λ l. x ∷ l) (take-append n a b (omega arith))

  pub drop-append : (n : ℕ) (a b : List A) → size a ≡ n → drop n (a ++ b) ≡ b
  unfolding size drop
  drop-append zero [] b p = refl
  drop-append zero (x ∷ a) b p = absurd (omega arith)
  drop-append (suc n) [] b p = absurd (omega arith)
  drop-append (suc n) (x ∷ a) b p = drop-append n a b (omega arith)

  drop-nil : (n : ℕ) → drop n [] ≡ []
  unfolding drop
  drop-nil zero = refl
  drop-nil (suc n) = refl

  pub drop_add : (m n k : ℕ) (l : List A) → k ≡ m + n → drop k l ≡ drop n (drop m l)
  unfolding drop
  drop_add zero n k l p = ap (λ j. drop j l) (omega arith)
  drop_add (suc m) n k [] p = drop-nil k ∙ sym (drop-nil n)
  drop_add (suc m) n zero (a ∷ l) p = absurd (omega arith)
  drop_add (suc m) n (suc k) (a ∷ l) p = drop_add m n k l (omega arith)

abbrev big_endian : ℕ → List ℕ
big_endian n = n / 2 ^ 24 ∷ n / 2 ^ 16 % 256 ∷ n / 2 ^ 8 % 256 ∷ n % 256 ∷ []

-- `n.to_bytes(4, "big")`, which refuses a number of more than 32 bits
unfoldable pub to_bytes4 : ℕ → Option (List ℕ)
to_bytes4 n = if ltb n (2 ^ 32) then some (big_endian n) else none

-- `int.from_bytes(b, "big")`
unfoldable pub from_bytes : List ℕ → ℕ
from_bytes l = go 0 l
  where
    go : ℕ → List ℕ → ℕ
    go n [] = n
    go n (b ∷ l) = go (n * 256 + b) l

digits : (n : ℕ) → n < 2 ^ 32 → from_bytes (big_endian n) ≡ n
unfolding from_bytes
digits n h = omega arith

-- What is written in four bytes reads as the number.
pub to_bytes4-some : (n : ℕ) (b : List ℕ) → to_bytes4 n ≡ some b → (size b ≡ 4) × (from_bytes b ≡ n)
unfolding size to_bytes4
to_bytes4-some n b h = elim (Bool-cases (ltb n (2 ^ 32))) [
  | inl p ↦
      let same : big_endian n ≡ b = cc (rw p at h) in
      (ap size (sym same) ∙ refl, ap from_bytes (sym same) ∙ digits n (ltb→lt n (2 ^ 32) p))
  | inr p ↦ absurd (ground (arith, p))
]
