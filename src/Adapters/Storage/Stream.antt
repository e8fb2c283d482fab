-- ===== src/Adapters/Storage/Stream.antt =====
-- The loop that reads a body.
use fsamp_processor.Prelude.{
  ℕ, zero, suc, ◌+◌, ◌≤◌, ◌≡◌, ◌≢◌, refl, ◌∙◌, ap, sym, inl, inr, false, Option, none, some, List,
  [], ◌∷◌, ◌++◌, Result, ok, raised, Exec, ◌>>=◌, continue, bind-then, pure-ok, ltb, Bool-cases,
  size, size-cons, size-append, arith,
}
use fsamp_processor.Domain.Errors.{Exn}
use fsamp_processor.Adapters.Storage.{S3, exceeds, after_chunk, read_chunks}

append_assoc {ℓ} : {A : Type ℓ} (a b c : List A) → (a ++ b) ++ c ≡ a ++ (b ++ c)
append_assoc [] b c = refl
append_assoc (x ∷ a) b c = ap (λ l. x ∷ l) (append_assoc a b c)

append_nil {ℓ} : {A : Type ℓ} (a : List A) → a ++ [] ≡ a
append_nil [] = refl
append_nil (x ∷ a) = ap (λ l. x ∷ l) (append_nil a)

-- No bytes exceed no maximum.
pub exceeds-none_yet : (max_bytes : Option ℕ) → exceeds max_bytes (size {A = ℕ} []) ≡ false
unfolding size
exceeds-none_yet none = refl
exceeds-none_yet (some n) = ground arith

module _ {World : Type 0} (S : S3 World) (body : S.Body) where
  -- The bytes that come out of the stream, chunk after chunk, until an empty one.
  pub data Streamed : World → List ℕ → World → Type 0 where
    end : (w v : World) → S.read body 1048576 w ≡ (ok [], v) → Streamed w [] v
    more :
        (w u v : World) (b : ℕ) (chunk rest : List ℕ)
        → S.read body 1048576 w ≡ (ok (b ∷ chunk), u)
        → Streamed u rest v
        → Streamed w ((b ∷ chunk) ++ rest) v

  -- What the loop adds to the chunks that it had, and that it stays within the maximum.
  pub record Collected (max_bytes : Option ℕ) (chunks bytes : List ℕ) (w v : World) : Type 0 where
    pub rest : List ℕ
    pub joined : bytes ≡ chunks ++ rest
    pub streamed : Streamed w rest v
    pub within : exceeds max_bytes (size bytes) ≡ false

  -- One pass of the loop, when the passes after it are known.
  after_chunk-Collected :
      (max_bytes : Option ℕ) (chunks bytes chunk : List ℕ) (w u v : World)
      (rest : List ℕ → Exec Exn World (Option (List ℕ)))
      → ((all : List ℕ)
          → exceeds max_bytes (size all) ≡ false
          → rest all u ≡ (ok (some bytes), v)
          → Collected max_bytes all bytes u v)
      → exceeds max_bytes (size chunks) ≡ false
      → S.read body 1048576 w ≡ (ok chunk, u)
      → after_chunk max_bytes chunks chunk some rest u ≡ (ok (some bytes), v)
      → Collected max_bytes chunks bytes w v
  after_chunk-Collected max_bytes chunks bytes [] w u v rest next le p h =
      let (found, stays) = pure-ok (some chunks) u (some bytes) v h in
      let same : chunks ≡ bytes = cc found in
      record {
        rest = [];
        joined = sym same ∙ sym (append_nil chunks);
        streamed = end w v (p ∙ ap (λ z. (ok [], z)) stays);
        within = ap (λ x. exceeds max_bytes (size x)) (sym same) ∙ le;
      }
  after_chunk-Collected max_bytes chunks bytes (b ∷ chunk) w u v rest next le p h =
      elim (Bool-cases (exceeds max_bytes (size (chunks ++ (b ∷ chunk))))) [
        | inl q ↦ absurd (ground (arith, rw q at h))
        | inr q ↦
            let c = next (chunks ++ (b ∷ chunk)) q (rw q at h) in
            record {
              rest = (b ∷ chunk) ++ c.rest;
              joined = c.joined ∙ append_assoc chunks (b ∷ chunk) c.rest;
              streamed = more w u v b chunk c.rest p c.streamed;
              within = c.within;
            }
      ]

  pub read_chunks-Collected :
      (fuel : ℕ) (max_bytes : Option ℕ) (chunks bytes : List ℕ) (w v : World)
      → exceeds max_bytes (size chunks) ≡ false
      → read_chunks S fuel body max_bytes chunks w ≡ (ok (some bytes), v)
      → Collected max_bytes chunks bytes w v
  unfolding read_chunks
  read_chunks-Collected zero max_bytes chunks bytes w v le h = absurd (ground arith)
  read_chunks-Collected (suc fuel) max_bytes chunks bytes w v le h =
      let rest : List ℕ → Exec Exn World (Option (List ℕ)) = read_chunks S fuel body max_bytes in
      bind-then (S.read body 1048576) (λ chunk. after_chunk max_bytes chunks chunk some rest) w
        (some bytes) v h
        (λ chunk u p q.
          after_chunk-Collected max_bytes chunks bytes chunk w u v rest
            (λ all l r. read_chunks-Collected fuel max_bytes all bytes u v l r) le p q)

  -- Every pass but the last adds a byte, so the maximum bounds their number.
  after_chunk-some :
      (n : ℕ) (chunks chunk : List ℕ) (u : World) (rest : List ℕ → Exec Exn World (Option (List ℕ)))
      → ((all : List ℕ) → size all ≤ n → suc (size chunks) ≤ size all → (rest all u).0 ≢ ok none)
      → (after_chunk (some n) chunks chunk some rest u).0 ≢ ok none
  after_chunk-some n chunks [] u rest next h = ground arith
  after_chunk-some n chunks (b ∷ chunk) u rest next h =
      elim (Bool-cases (ltb n (size (chunks ++ (b ∷ chunk))))) [
        | inl q ↦ ground (arith, rw q at h)
        | inr q ↦
            next (chunks ++ (b ∷ chunk)) (ground (arith, q))
              (omega (arith, size-append chunks (b ∷ chunk), size-cons b chunk)) (rw q at h)
      ]

  continued-some :
      (out : Result Exn (List ℕ) × World) (f : List ℕ → Exec Exn World (Option (List ℕ)))
      → ((chunk : List ℕ) (u : World) → (f chunk u).0 ≢ ok none)
      → (continue out f).0 ≢ ok none
  continued-some (ok chunk, u) f next h = next chunk u h
  continued-some (raised x, u) f next h = ground arith

  pub read_chunks-some :
      (fuel n : ℕ) (chunks : List ℕ) (w : World)
      → size chunks ≤ n
      → n + 2 ≤ fuel + size chunks
      → (read_chunks S fuel body (some n) chunks w).0 ≢ ok none
  unfolding read_chunks ◌>>=◌
  read_chunks-some zero n chunks w le enough = absurd (omega arith)
  read_chunks-some (suc fuel) n chunks w le enough =
      let rest : List ℕ → Exec Exn World (Option (List ℕ)) = read_chunks S fuel body (some n) in
      continued-some (S.read body 1048576 w) (λ chunk. after_chunk (some n) chunks chunk some rest)
        (λ chunk u.
          after_chunk-some n chunks chunk u rest
            (λ all l more_. read_chunks-some fuel n all u l (omega arith)))
