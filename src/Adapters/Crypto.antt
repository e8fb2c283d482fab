-- ===== src/Adapters/Crypto.antt =====
-- src/processor/adapters/outbound/kms_crypto.py, the provider over AWS KMS.
pub mod RoundTrip
pub mod Refusals
use fsamp_processor.Prelude.{
  ℕ, ◌+◌, ◌^◌, String, ◌<>◌, ◌==◌, Bool, true, false, Option, none, some, List, [], ◌∷◌, ◌++◌, Dict,
  Result, ok, raised, Exec, ◌>>=◌, pure, raise, try_except, except, if◌then◌else◌, ltb, size, take,
  drop, to_bytes4, from_bytes,
}
use fsamp_processor.Domain.Errors.{
  Exn, DomainError, Kind, crypto, domain, caused, client, other, ClientError, crypto_error,
  crypto_caused, str_exn,
}
use fsamp_processor.Adapters.Retry.{aws_retry, is_retryable_aws_error}

-- The KMS client, the system's randomness, the AEAD of the `cryptography` library and `hashlib`.
pub record Kms (World : Type 0) : Type 0 where
  -- the key id and the encryption context; the plaintext key and its encryption
  pub generate_data_key : String → Dict String → Exec Exn World (List ℕ × List ℕ)
  pub decrypt : String → List ℕ → Dict String → Exec Exn World (List ℕ)
  pub describe_key : String → Exec Exn World (Unit {0})
  pub urandom : ℕ → World → List ℕ × World
  -- key, nonce and text
  pub seal : List ℕ → List ℕ → List ℕ → Result Exn (List ℕ)
  pub open_sealed : List ℕ → List ℕ → List ℕ → Result Exn (List ℕ)
  pub hexdigest : String → List ℕ → String
  -- `str.upper`
  pub upper : String → String

abbrev pub is_crypto_error : Exn → Bool
is_crypto_error (domain e) = elim e.kind [ Kind.crypto ↦ true | _ ↦ false ]
is_crypto_error (caused e c) = elim e.kind [ Kind.crypto ↦ true | _ ↦ false ]
is_crypto_error _ = false

-- The last `except` clause of encrypt and decrypt.
unfoldable pub as_crypto_error : String → Exn → Exn
as_crypto_error prefix x = if is_crypto_error x then x else crypto_caused (prefix <> str_exn x) x

abbrev pub context_of : Option (Dict String) → Dict String
context_of none = []
context_of (some d) = d

-- `text.replace("-", "")`
unfoldable pub without_dashes : String → String
without_dashes String.[] = String.[]
without_dashes (String.◌∷◌ c s) =
    let rest = without_dashes s in if String.◌∷◌ c String.[] == "-" then rest else String.◌∷◌ c rest

abbrev pub nonce_size : ℕ
nonce_size = 12

unfoldable pub generate_failure : Exn → Exn
generate_failure (client e) = crypto_caused ("Failed to generate data key: " <> e.text) (client e)
generate_failure x = x

unfoldable pub decrypt_failure : Exn → Exn
decrypt_failure (client e) =
    if e.code == "InvalidCiphertextException"
    then crypto_caused "Invalid ciphertext - key may have been tampered with" (client e)
    else if e.code == "IncorrectKeyException"
    then crypto_caused "Incorrect KMS key used for decryption" (client e)
    else crypto_caused ("Failed to decrypt data key: " <> e.text) (client e)
decrypt_failure x = x

-- The envelope of a sealed text: the key's length, the encrypted key, the nonce and the text.
unfoldable pub envelope_of : List ℕ → List ℕ → List ℕ → Result Exn (List ℕ)
envelope_of encrypted_key nonce sealed = elim (to_bytes4 (size encrypted_key)) [
  | none ↦ raised (other "int too big to convert")
  | some length ↦ ok (length ++ (encrypted_key ++ (nonce ++ sealed)))
]

abbrev pub is_approved : String → Bool
is_approved name =
    if name == "SHA256" then true else if name == "SHA384" then true else name == "SHA512"

module _ {World : Type 0} (K : Kms World) where
  unfoldable pub seal_envelope : List ℕ → List ℕ → List ℕ → List ℕ → Result Exn (List ℕ)
  unfolding envelope_of
  seal_envelope key encrypted_key nonce plaintext = elim (K.seal key nonce plaintext) [
    | ok sealed ↦ envelope_of encrypted_key nonce sealed
    | raised x ↦ raised x
  ]

  unfoldable pub compute_hash : List ℕ → String → Result Exn String
  unfolding without_dashes
  compute_hash bytes algorithm =
      let name = without_dashes (K.upper algorithm) in
      if is_approved name
      then ok (K.hexdigest name bytes)
      else raised (
          crypto_error (
            "Unsupported hash algorithm: " <> algorithm
            <> ". FIPS 140-3-oriented options: SHA-256, SHA-384, SHA-512"))

module _ {World : Type 0} (K : Kms World) (key_id : String) where
  unfoldable pub generate_data_key : Option (Dict String) → Exec Exn World (List ℕ × List ℕ)
  unfolding generate_failure
  generate_data_key context = aws_retry 3 (
      try_except (K.generate_data_key key_id (context_of context))
        (λ x. raise (generate_failure x)))

  unfoldable pub decrypt_data_key : List ℕ → Option (Dict String) → Exec Exn World (List ℕ)
  unfolding decrypt_failure
  decrypt_data_key encrypted_key context = aws_retry 3 (
      try_except (K.decrypt key_id encrypted_key (context_of context))
        (λ x. raise (decrypt_failure x)))

  -- The body of encrypt's `try`, once the keys are there.
  unfoldable pub encrypt_with : List ℕ → List ℕ × List ℕ → Exec Exn World (List ℕ)
  unfolding seal_envelope
  encrypt_with plaintext keys w =
      let (nonce, v) = K.urandom nonce_size w in (seal_envelope K keys.0 keys.1 nonce plaintext, v)

  unfoldable pub encrypt : List ℕ → Option (Dict String) → Exec Exn World (List ℕ)
  unfolding generate_data_key encrypt_with
  encrypt plaintext context =
      try_except (do keys ← generate_data_key context; encrypt_with plaintext keys)
        (λ x. raise (as_crypto_error "Encryption failed: " x))

  -- The body of decrypt's `try`, once the envelope is long enough.
  unfoldable pub open_envelope : List ℕ → Option (Dict String) → Exec Exn World (List ℕ)
  unfolding decrypt_data_key
  open_envelope ciphertext context = do
    let key_len = from_bytes (take 4 ciphertext)
    key ← decrypt_data_key (take key_len (drop 4 ciphertext)) context
    (λ w. (
      K.open_sealed key (take nonce_size (drop (4 + key_len) ciphertext))
          (drop (4 + key_len + nonce_size) ciphertext),
      w,
    ))

  unfoldable pub read_envelope : List ℕ → Option (Dict String) → Exec Exn World (List ℕ)
  unfolding open_envelope
  read_envelope ciphertext context =
      if ltb (size ciphertext) 4
      then raise (crypto_error "Ciphertext too short - invalid envelope")
      else if ltb (size ciphertext) (4 + from_bytes (take 4 ciphertext) + nonce_size)
      then raise (crypto_error "Ciphertext too short - invalid envelope format")
      else open_envelope ciphertext context

  unfoldable pub decrypt : List ℕ → Option (Dict String) → Exec Exn World (List ℕ)
  unfolding read_envelope
  decrypt ciphertext context =
      try_except (read_envelope ciphertext context)
        (λ x. raise (as_crypto_error "Decryption failed: " x))

  unfoldable pub access_failure : Exn → Exec Exn World Bool
  access_failure (client e) =
      if is_retryable_aws_error (client e)
      then raise
          (crypto_caused ("Transient KMS access verification failure: " <> e.text) (client e))
      else pure false
  access_failure x = raise x

  unfoldable pub verify_key_access : Exec Exn World Bool
  unfolding access_failure
  verify_key_access =
      aws_retry 3 (try_except (do _ ← K.describe_key key_id; pure true) access_failure)
