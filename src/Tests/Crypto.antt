-- ===== src/Tests/Crypto.antt =====
-- The KMS provider over a toy KMS, and its theorems at concrete data.
use fsamp_processor.Prelude.{
  ℕ, zero, suc, ◌≡◌, refl, ap, sym, ◌∙◌, inr, none, List, [], ◌∷◌, Result, ok, raised, ◌>>=◌, size,
  take, to_bytes4, from_bytes, arith,
}
use fsamp_processor.Domain.Errors.{Exn, DomainError, crypto, domain, other}
use fsamp_processor.Adapters.Retry.{aws_retry}
use fsamp_processor.Adapters.Crypto.{
  Kms, generate_data_key, envelope_of, seal_envelope, encrypt_with, encrypt, decrypt,
}
use fsamp_processor.Adapters.Crypto.RoundTrip.{IsReachable, decrypt-encrypt}
use fsamp_processor.Adapters.Crypto.Refusals.{IsShort, decrypt-short}

abbrev zeros : ℕ → List ℕ
zeros zero = []
zeros (suc n) = 0 ∷ zeros n

-- A sealed text and an encrypted key are marked by a first byte.
abbrev unmarked : List ℕ → Result Exn (List ℕ)
unmarked [] = raised (other "InvalidTag")
unmarked (b ∷ l) = ok l

abbrev kms : Kms ℕ
kms = record {
  generate_data_key = λ id context w. (ok (1 ∷ 2 ∷ [], 9 ∷ 1 ∷ 2 ∷ []), suc w);
  decrypt = λ id key context w. (unmarked key, suc w);
  describe_key = λ id w. (ok tt, w);
  urandom = λ n w. (zeros n, suc w);
  seal = λ key nonce text. ok (7 ∷ text);
  open_sealed = λ key nonce sealed. unmarked sealed;
  hexdigest = λ name bytes. name;
  upper = λ text. text;
}

size-zeros : (n : ℕ) → size (zeros n) ≡ n
unfolding size
size-zeros zero = refl
size-zeros (suc n) = ap suc (size-zeros n)

opened :
    (text sealed : List ℕ)
    → kms.seal [] [] text ≡ ok sealed
    → kms.open_sealed [] [] sealed ≡ ok text
opened text sealed h = let e : 7 ∷ text ≡ sealed = cc in ap unmarked (sym e)

answered :
    (key encrypted : List ℕ) (w v u : ℕ)
    → kms.generate_data_key "key-1" [] w ≡ (ok (key, encrypted), v)
    → kms.decrypt "key-1" encrypted [] u ≡ (ok key, suc u)
answered key encrypted w v u h =
    let e : 9 ∷ 1 ∷ 2 ∷ [] ≡ encrypted = cc in
    let d : 1 ∷ 2 ∷ [] ≡ key = cc in
    ap (λ x. (unmarked x, suc u)) (sym e) ∙ ap (λ x. (ok x, suc u)) d

kms_laws : IsReachable kms "key-1"
kms_laws = record {
  nonce_length = λ n w. size-zeros n;
  opens = λ key nonce text sealed h. opened text sealed h;
  answers = λ context key encrypted w v u h. (suc u, answered key encrypted w v u h);
}

abbrev sealed_hi : List ℕ
sealed_hi =
    0 ∷ 0 ∷ 0 ∷ 3 ∷ 9 ∷ 1 ∷ 2 ∷ 0 ∷ 0 ∷ 0 ∷ 0 ∷ 0 ∷ 0 ∷ 0 ∷ 0 ∷ 0 ∷ 0 ∷ 0 ∷ 0 ∷ 7 ∷ 104 ∷ 105 ∷ []

decrypt-encrypt_example :
    (u' : ℕ) × (decrypt kms "key-1" sealed_hi none 8 ≡ (ok (104 ∷ 105 ∷ []), u'))
unfolding encrypt generate_data_key aws_retry encrypt_with seal_envelope envelope_of size to_bytes4
    ◌>>=◌
decrypt-encrypt_example =
    decrypt-encrypt kms "key-1" kms_laws (104 ∷ 105 ∷ []) sealed_hi none 5 7 8 refl

abbrev cut_envelope : List ℕ
cut_envelope = 0 ∷ 0 ∷ 0 ∷ 3 ∷ 9 ∷ []

cut-IsShort : IsShort cut_envelope
unfolding size take from_bytes
cut-IsShort = inr (omega arith)

decrypt-short_example :
    (d : DomainError) × (d.kind ≡ crypto)
    × (decrypt kms "key-1" cut_envelope none 8 ≡ (raised (domain d), 8))
decrypt-short_example = decrypt-short kms "key-1" cut_envelope none 8 cut-IsShort
