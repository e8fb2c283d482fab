-- ===== src/Adapters/Crypto/Refusals.antt =====
-- Envelopes that are too short.
use fsamp_processor.Prelude.{
  ℕ, ◌+◌, ◌<◌, String, ◌≡◌, refl, ◌∙◌, ap, ◌⊎◌, inl, inr, true, false, Option, none, List, Dict,
  raised, raise, except, ltb, size, take, from_bytes, Bool-cases, arith,
}
use fsamp_processor.Domain.Errors.{DomainError, crypto, domain, make_error}
use fsamp_processor.Adapters.Crypto.{
  Kms, is_crypto_error, as_crypto_error, nonce_size, read_envelope, decrypt,
}

-- Too short for the key that it announces and a nonce.
abbrev pub IsShort : List ℕ → Type 0
IsShort env = (size env < 4) ⊎ (size env < 4 + from_bytes (take 4 env) + nonce_size)

as_crypto_error-kept :
    (prefix : String) (d : DomainError)
    → d.kind ≡ crypto
    → as_crypto_error prefix (domain d) ≡ domain d
unfolding as_crypto_error
as_crypto_error-kept prefix d k =
    let known : is_crypto_error (domain d) ≡ true =
      ap (λ j. is_crypto_error (domain (record d { kind = j }))) k in
    rw (known, as_crypto_error) refl

abbrev too_short : DomainError
too_short = make_error crypto "Ciphertext too short - invalid envelope" none false

abbrev wrong_format : DomainError
wrong_format = make_error crypto "Ciphertext too short - invalid envelope format" none false

module _ {World : Type 0} (K : Kms World) (key_id : String) where
  short-read_envelope :
      (env : List ℕ) (context : Option (Dict String)) (w : World)
      → IsShort env
      → (d : DomainError) × (d.kind ≡ crypto)
        × (read_envelope K key_id env context w ≡ (raised (domain d), w))
  unfolding read_envelope make_error
  short-read_envelope env context w (inl h) =
      let first : ltb (size env) 4 ≡ true = ground (arith, h) in
      (too_short, refl, rw (first, read_envelope) refl)
  short-read_envelope env context w (inr h) = elim (Bool-cases (ltb (size env) 4)) [
    | inl first ↦ (too_short, refl, rw (first, read_envelope) refl)
    | inr first ↦
        let second : ltb (size env) (4 + from_bytes (take 4 env) + nonce_size) ≡ true =
          ground (arith, h) in
        (wrong_format, refl, rw (first, second, read_envelope) refl)
  ]

  -- An envelope that is too short is refused with a CryptoError, and KMS is not called.
  pub decrypt-short :
      (env : List ℕ) (context : Option (Dict String)) (w : World)
      → IsShort env
      → (d : DomainError) × (d.kind ≡ crypto)
        × (decrypt K key_id env context w ≡ (raised (domain d), w))
  unfolding decrypt as_crypto_error
  decrypt-short env context w h =
      let (d, k, p) = short-read_envelope env context w h in
      (
        d,
        k,
        ap (λ o. except o (λ x. raise (as_crypto_error "Decryption failed: " x))) p
            ∙ ap (λ x. (raised x, w)) (as_crypto_error-kept "Decryption failed: " d k),
      )
