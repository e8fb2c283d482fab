-- ===== src/Adapters/Crypto/RoundTrip.antt =====
-- Envelopes: how encrypt makes them and decrypt takes them apart.
use fsamp_processor.Prelude.{
  ℕ, ◌+◌, ◌≤◌, String, ◌≡◌, refl, ◌∙◌, ap, sym, subst, inl, inr, false, Option, none, some, List,
  ◌++◌, Dict, Result, ok, raised, raise, except, bind-then, bind-ok, except-ok, ltb, size, take,
  drop, to_bytes4, from_bytes, size-append, take-append, drop-append, drop_add, to_bytes4-some,
  arith,
}
use fsamp_processor.Domain.Errors.{Exn}
use fsamp_processor.Adapters.Retry.{aws_retry-ok, aws_retry-returned}
use fsamp_processor.Adapters.Crypto.{
  Kms, context_of, nonce_size, generate_failure, generate_data_key, decrypt_failure,
  decrypt_data_key, as_crypto_error, envelope_of, seal_envelope, encrypt_with, encrypt,
  open_envelope, read_envelope, decrypt,
}

-- What is relied on: the nonce has the length asked for, the AEAD opens what it sealed, and a KMS
-- that can be reached gives back the key that it encrypted for the same context.
pub record IsReachable {World : Type 0} (K : Kms World) (key_id : String) : Type 0 where
  pub nonce_length : (n : ℕ) (w : World) → size (K.urandom n w).0 ≡ n
  pub opens :
      (key nonce text sealed : List ℕ)
      → K.seal key nonce text ≡ ok sealed
      → K.open_sealed key nonce sealed ≡ ok text
  pub answers :
      (context : Dict String) (key encrypted : List ℕ) (w v u : World)
      → K.generate_data_key key_id context w ≡ (ok (key, encrypted), v)
      → (u' : World) × (K.decrypt key_id encrypted context u ≡ (ok key, u'))

module _ {World : Type 0} (K : Kms World) (key_id : String) where
  -- The parts of an envelope.
  pub record IsEnvelope (key encrypted_key nonce text env : List ℕ) : Type 0 where
    pub sealed : List ℕ
    pub length : List ℕ
    pub seals : K.seal key nonce text ≡ ok sealed
    pub counted : to_bytes4 (size encrypted_key) ≡ some length
    pub joined : env ≡ length ++ (encrypted_key ++ (nonce ++ sealed))

  envelope-parts :
      (encrypted_key nonce sealed env : List ℕ) (o : Option (List ℕ))
      → to_bytes4 (size encrypted_key) ≡ o
      → envelope_of encrypted_key nonce sealed ≡ ok env
      → (length : List ℕ) × (to_bytes4 (size encrypted_key) ≡ some length)
        × (env ≡ length ++ (encrypted_key ++ (nonce ++ sealed)))
  unfolding envelope_of
  envelope-parts encrypted_key nonce sealed env none p h =
      absurd (ground (arith, rw (p, envelope_of) at h))
  envelope-parts encrypted_key nonce sealed env (some length) p h =
      (length, p, cc (rw (p, envelope_of) at h))

  sealed-IsEnvelope :
      (key encrypted_key nonce text env : List ℕ) (r : Result Exn (List ℕ))
      → K.seal key nonce text ≡ r
      → seal_envelope K key encrypted_key nonce text ≡ ok env
      → IsEnvelope key encrypted_key nonce text env
  unfolding seal_envelope
  sealed-IsEnvelope key encrypted_key nonce text env (raised x) p h =
      absurd (ground (arith, rw (p, seal_envelope) at h))
  sealed-IsEnvelope key encrypted_key nonce text env (ok sealed) p h =
      let (length, counted, joined) =
        envelope-parts encrypted_key nonce sealed env _ refl (rw (p, seal_envelope) at h) in
      record { sealed = sealed; length = length; seals = p; counted = counted; joined = joined }

  generated :
      (context : Option (Dict String)) (w v : World) (keys : List ℕ × List ℕ)
      → generate_data_key K key_id context w ≡ (ok keys, v)
      → (u : World) × (K.generate_data_key key_id (context_of context) u ≡ (ok keys, v))
  unfolding generate_data_key
  generated context w v keys h =
      let (u, p) = aws_retry-ok 3 _ w keys v h in
      elim (except-ok (K.generate_data_key key_id (context_of context) u)
        (λ x. raise (generate_failure x)) keys v p) [
          | inl q ↦ (u, q)
          | inr (x, z, q, r) ↦ absurd (ground arith)
        ]

  -- Where the parts stand in an envelope.
  record HasParts (encrypted_key nonce sealed env : List ℕ) (n : ℕ) : Type 0 where
    pub key_at : take n (drop 4 env) ≡ encrypted_key
    pub nonce_at : take nonce_size (drop (4 + n) env) ≡ nonce
    pub sealed_at : drop (4 + n + nonce_size) env ≡ sealed
    pub long : 4 + n + nonce_size ≤ size env

  joined-HasParts :
      (length encrypted_key nonce sealed : List ℕ) (n : ℕ)
      → size length ≡ 4
      → size encrypted_key ≡ n
      → size nonce ≡ nonce_size
      → HasParts encrypted_key nonce sealed (length ++ (encrypted_key ++ (nonce ++ sealed))) n
  joined-HasParts length encrypted_key nonce sealed n l k m =
      let env = length ++ (encrypted_key ++ (nonce ++ sealed)) in
      let tail : drop 4 env ≡ encrypted_key ++ (nonce ++ sealed) = drop-append 4 length _ l in
      let rest : drop (4 + n) env ≡ nonce ++ sealed =
        drop_add 4 n (4 + n) env refl ∙ ap (λ x. drop n x) tail ∙ drop-append n encrypted_key _ k in
      record {
        key_at = ap (λ x. take n x) tail ∙ take-append n encrypted_key _ k;
        nonce_at = ap (λ x. take nonce_size x) rest ∙ take-append nonce_size nonce sealed m;
        sealed_at =
            drop_add (4 + n) nonce_size (4 + n + nonce_size) env refl
            ∙ ap (λ x. drop nonce_size x) rest
            ∙ drop-append nonce_size nonce sealed m;
        long = omega (
          arith,
          size-append length (encrypted_key ++ (nonce ++ sealed)),
          size-append encrypted_key (nonce ++ sealed),
          size-append nonce sealed,
        );
      }

  IsEnvelope-HasParts :
      (key encrypted_key nonce text env : List ℕ) (e : IsEnvelope key encrypted_key nonce text env)
      → size nonce ≡ nonce_size
      → HasParts encrypted_key nonce e.sealed env (from_bytes (take 4 env))
  IsEnvelope-HasParts key encrypted_key nonce text env e m =
      let (four, reads) = to_bytes4-some (size encrypted_key) e.length e.counted in
      let parts =
        joined-HasParts e.length encrypted_key nonce e.sealed (size encrypted_key) four refl m in
      let count : size encrypted_key ≡ from_bytes (take 4 env) =
        sym reads
        ∙ ap from_bytes (sym (ap (λ x. take 4 x) e.joined ∙ take-append 4 e.length _ four)) in
      subst (λ n. HasParts encrypted_key nonce e.sealed env n) count
        (subst (λ x. HasParts encrypted_key nonce e.sealed x (size encrypted_key)) (sym e.joined)
          parts)

  open_envelope-ok :
      (key encrypted_key nonce sealed text env : List ℕ) (context : Option (Dict String))
      (u u' : World)
      → HasParts encrypted_key nonce sealed env (from_bytes (take 4 env))
      → K.decrypt key_id encrypted_key (context_of context) u ≡ (ok key, u')
      → K.open_sealed key nonce sealed ≡ ok text
      → open_envelope K key_id env context u ≡ (ok text, u')
  unfolding open_envelope decrypt_data_key
  open_envelope-ok key encrypted_key nonce sealed text env context u u' h p o =
      let asked = ap (λ x. K.decrypt key_id x (context_of context) u) h.key_at ∙ p in
      bind-ok (decrypt_data_key K key_id (take (from_bytes (take 4 env)) (drop 4 env)) context) _ u
        key u'
        (aws_retry-returned 3 _ u u' key
          (ap (λ x. except x (λ y. raise (decrypt_failure y))) asked))
      ∙ cc (h.nonce_at, h.sealed_at, o)

  long-read_envelope :
      (env : List ℕ) (context : Option (Dict String)) (u : World)
      → 4 + from_bytes (take 4 env) + nonce_size ≤ size env
      → read_envelope K key_id env context u ≡ open_envelope K key_id env context u
  unfolding read_envelope
  long-read_envelope env context u h =
      let first : ltb (size env) 4 ≡ false = ground (arith, h) in
      let second : ltb (size env) (4 + from_bytes (take 4 env) + nonce_size) ≡ false =
        ground (arith, h) in
      rw (first, second, read_envelope) refl

  -- Reading an envelope back, when KMS gives the key.
  reopened :
      (L : IsReachable K key_id) (key encrypted_key nonce text env : List ℕ)
      (context : Option (Dict String)) (u u' : World)
      → IsEnvelope key encrypted_key nonce text env
      → size nonce ≡ nonce_size
      → K.decrypt key_id encrypted_key (context_of context) u ≡ (ok key, u')
      → decrypt K key_id env context u ≡ (ok text, u')
  unfolding decrypt read_envelope open_envelope
  reopened L key encrypted_key nonce text env context u u' e n p =
      let h = IsEnvelope-HasParts key encrypted_key nonce text env e n in
      ap (λ x. except x (λ y. raise (as_crypto_error "Decryption failed: " y)))
        (long-read_envelope env context u h.long
          ∙ open_envelope-ok key encrypted_key nonce e.sealed text env context u u' h p
              (L.opens key nonce text e.sealed e.seals))

  -- With a KMS that can be reached, whatever encrypt returns opens to the plaintext under the same
  -- context, from any later state.
  pub decrypt-encrypt :
      (L : IsReachable K key_id) (plaintext env : List ℕ) (context : Option (Dict String))
      (w w' u : World)
      → encrypt K key_id plaintext context w ≡ (ok env, w')
      → (u' : World) × (decrypt K key_id env context u ≡ (ok plaintext, u'))
  unfolding encrypt
  decrypt-encrypt L plaintext env context w w' u h =
      elim (except-ok _ (λ x. raise (as_crypto_error "Encryption failed: " x)) env w' h) [
        | inl p ↦
            bind-then (generate_data_key K key_id context) (encrypt_with K key_id plaintext) w env
              w' p
              (λ keys v q r.
                let (z, made) = generated context w v keys q in
                let (u', answer) = L.answers (context_of context) keys.0 keys.1 z v u made in
                (
                  u',
                  reopened L keys.0 keys.1 (K.urandom nonce_size v).0 plaintext env context u u'
                      (sealed-IsEnvelope keys.0 keys.1 (K.urandom nonce_size v).0 plaintext env _
                        refl (ap (λ o. o.0) (unfold encrypt_with in r)))
                      (L.nonce_length nonce_size v) answer,
                ))
        | inr (x, v, p, q) ↦ absurd (ground arith)
      ]
