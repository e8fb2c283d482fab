-- ===== src/Adapters/Storage/Download.antt =====
-- The bounded download: what it returns, its end, and the closing of the body.
use fsamp_processor.Prelude.{
  ℕ, ◌+◌, ◌≤◌, String, ◌≡◌, ◌≢◌, refl, ◌∙◌, ap, sym, subst, inl, inr, false, Option, none, some,
  List, [], Result, ok, raised, ◌>>=◌, pure, raise, except, continue, bind-then, bind-ok, pure-ok,
  except-ok, Bool-cases, size, arith,
}
use mathlib.Core.Option as Option
use fsamp_processor.Domain.Errors.{Exn}
use fsamp_processor.Domain.Models.{FileContent}
use fsamp_processor.Adapters.Retry.{aws_retry, aws_retry-ok}
use fsamp_processor.Adapters.Storage.{
  S3, Response, content_of, exceeds, download_failure, after_close, try_finally, read_body, fetch,
  download_once, download,
}
use fsamp_processor.Adapters.Storage.Stream.{
  Streamed, Collected, read_chunks-Collected, read_chunks-some, exceeds-none_yet,
}

after_close-ok {ℓ} :
    {W : Type 0} {A : Type ℓ} (r : Result Exn A) (c : Result Exn (Unit {0}) × W) (a : A) (w : W)
    → after_close r c ≡ (ok a, w)
    → (r ≡ ok a) × (c ≡ (ok tt, w))
after_close-ok r (ok u, v) a w h = (cc, cc)
after_close-ok r (raised x, v) a w h = absurd (ground arith)

after_close-world {ℓ} :
    {W : Type 0} {A : Type ℓ} (r : Result Exn A) (c : Result Exn (Unit {0}) × W)
    → (after_close r c).1 ≡ c.1
after_close-world r (ok u, v) = refl
after_close-world r (raised x, v) = refl

except-world {ℓ} :
    {W : Type 0} {A : Type ℓ} (out : Result Exn A × W) (f : Exn → Exn)
    → (except out (λ x. raise (f x))).1 ≡ out.1
except-world (ok a, w) f = refl
except-world (raised x, w) f = refl

continue-world {ℓ κ} :
    {W : Type 0} {A : Type ℓ} {B : Type κ} (out : Result Exn A × W) (f : A → B)
    → (continue out (λ a. pure (f a))).1 ≡ out.1
continue-world (ok a, w) f = refl
continue-world (raised x, w) f = refl

map-none : (r : Response) (o : Option (List ℕ)) → Option.map (content_of r) o ≡ none → o ≡ none
map-none r none h = refl
map-none r (some bytes) h = absurd (ground arith)

module _ {World : Type 0} (S : S3 World) where
  -- What a returned download is.
  pub record IsDownloaded (bucket key : String) (max_bytes : Option ℕ) (c : FileContent) (w : World)
      : Type 0 where
    pub response : Response
    pub body : S.Body
    pub asked : World
    pub opened : World
    pub read_to : World
    pub got : S.get_object bucket key asked ≡ (ok (response, body), opened)
    -- the answer is made of the bytes of the whole stream, which are within the maximum
    pub streamed : Streamed S body opened c.bytes read_to
    pub within : exceeds max_bytes (size c.bytes) ≡ false
    pub declared : exceeds max_bytes response.declared_length ≡ false
    pub content : c ≡ content_of response c.bytes
    -- closing the body is the last call
    pub closed : S.close body read_to ≡ (ok tt, w)

  read_body-Collected :
      (fuel : ℕ) (max_bytes : Option ℕ) (r : Response) (body : S.Body) (bytes : List ℕ)
      (w v : World)
      → read_body S fuel max_bytes r body w ≡ (ok (some bytes), v)
      → (exceeds max_bytes r.declared_length ≡ false) × Collected S body max_bytes [] bytes w v
  unfolding read_body
  read_body-Collected fuel max_bytes r body bytes w v h =
      elim (Bool-cases (exceeds max_bytes r.declared_length)) [
        | inl q ↦ absurd (ground (arith, rw q at h))
        | inr q ↦ (
          q,
          read_chunks-Collected S body fuel max_bytes [] bytes w v (exceeds-none_yet max_bytes)
              (rw q at h),
        )
      ]

  map-some :
      (r : Response) (o : Option (List ℕ)) (c : FileContent)
      → Option.map (content_of r) o ≡ some c
      → (bytes : List ℕ) × (o ≡ some bytes) × (content_of r bytes ≡ c)
  map-some r none c h = absurd (ground arith)
  map-some r (some bytes) c h = (bytes, refl, cc)

  fetch-IsDownloaded :
      (fuel : ℕ) (bucket key : String) (max_bytes : Option ℕ) (r : Response) (body : S.Body)
      (c : FileContent) (asked opened w : World)
      → S.get_object bucket key asked ≡ (ok (r, body), opened)
      → fetch S fuel max_bytes (r, body) opened ≡ (ok (some c), w)
      → IsDownloaded bucket key max_bytes c w
  unfolding fetch
  fetch-IsDownloaded fuel bucket key max_bytes r body c asked opened w got h =
      bind-then (try_finally (read_body S fuel max_bytes r body) (S.close body))
        (λ o. pure (Option.map (content_of r) o)) opened (some c) w h
        (λ o v p q.
          let (returned, closed) = after_close-ok _ _ o v p in
          let (mapped, same) = pure-ok (Option.map (content_of r) o) v (some c) w q in
          let (bytes, found, content) = map-some r o c mapped in
          let read_to = (read_body S fuel max_bytes r body opened).1 in
          let (declared, coll) =
            read_body-Collected fuel max_bytes r body bytes opened read_to
              (ap (λ x. (x, read_to)) (returned ∙ ap (λ x. ok x) found)) in
          let same_bytes : bytes ≡ c.bytes = unfold content_of in ap (λ x. x.bytes) content in
          record {
            response = r;
            body = body;
            asked = asked;
            opened = opened;
            read_to = read_to;
            got = got;
            streamed =
                subst (λ x. Streamed S body opened x read_to) (sym coll.joined ∙ same_bytes)
                  coll.streamed;
            within = ap (λ x. exceeds max_bytes (size x)) (sym same_bytes) ∙ coll.within;
            declared = declared;
            content = sym content ∙ ap (content_of r) same_bytes;
            closed = closed ∙ ap (λ z. (ok tt, z)) same;
          })

  -- A download that returns gives exactly the bytes of the stream that S3 opened, up to its end;
  -- neither they nor the declared length exceed the maximum, and closing the body was the last call.
  pub download-IsDownloaded :
      (fuel : ℕ) (bucket key : String) (max_bytes : Option ℕ) (c : FileContent) (w w' : World)
      → download S fuel bucket key max_bytes w ≡ (ok (some c), w')
      → IsDownloaded bucket key max_bytes c w'
  unfolding download download_once
  download-IsDownloaded fuel bucket key max_bytes c w w' h =
      let (v, p) = aws_retry-ok 3 (download_once S fuel bucket key max_bytes) w (some c) w' h in
      elim (except-ok _ (λ x. raise (download_failure bucket key x)) (some c) w' p) [
        | inl q ↦
            bind-then (S.get_object bucket key) (fetch S fuel max_bytes) v (some c) w' q
              (λ answer u got r.
                fetch-IsDownloaded fuel bucket key max_bytes answer.0 answer.1 c v u w' got r)
        | inr (x, u, q, r) ↦ absurd (ground arith)
      ]

  -- Once S3 opened a body, closing it is the last call of the attempt, whatever comes of the reading.
  pub download_once-closes :
      (fuel : ℕ) (bucket key : String) (max_bytes : Option ℕ) (r : Response) (body : S.Body)
      (w v : World)
      → S.get_object bucket key w ≡ (ok (r, body), v)
      → (u : World) × ((download_once S fuel bucket key max_bytes w).1 ≡ (S.close body u).1)
  unfolding download_once fetch ◌>>=◌
  download_once-closes fuel bucket key max_bytes r body w v got =
      let read = read_body S fuel max_bytes r body v in
      (
        read.1,
        except-world _ (download_failure bucket key)
            ∙ ap (λ o. o.1)
                (bind-ok (S.get_object bucket key) (fetch S fuel max_bytes) w (r, body) v got)
            ∙ continue-world (after_close read.0 (S.close body read.1)) (Option.map (content_of r))
            ∙ after_close-world read.0 (S.close body read.1),
      )

  read_body-some :
      (fuel n : ℕ) (r : Response) (body : S.Body) (w : World)
      → n + 2 ≤ fuel
      → (read_body S fuel (some n) r body w).0 ≢ ok none
  unfolding read_body size
  read_body-some fuel n r body w enough h = elim (Bool-cases (exceeds (some n) r.declared_length)) [
    | inl q ↦ ground (arith, rw q at h)
    | inr q ↦ read_chunks-some S body fuel n [] w (omega arith) (omega arith) (rw q at h)
  ]

  fetch-some :
      (fuel n : ℕ) (answer : Response × S.Body) (w z : World)
      → n + 2 ≤ fuel
      → fetch S fuel (some n) answer w ≢ (ok none, z)
  unfolding fetch
  fetch-some fuel n answer w z enough h =
      bind-then (try_finally (read_body S fuel (some n) answer.0 answer.1) (S.close answer.1))
        (λ o. pure (Option.map (content_of answer.0) o)) w none z h
        (λ o v p q.
          let (returned, closed) = after_close-ok _ _ o v p in
          let missing =
            map-none answer.0 o (pure-ok (Option.map (content_of answer.0) o) v none z q).0 in
          read_body-some fuel n answer.0 answer.1 w enough (returned ∙ ap (λ x. ok x) missing))

  -- A maximum of n bytes and n + 2 passes are enough: the loop ends.
  pub download-some :
      (fuel n : ℕ) (bucket key : String) (w : World)
      → n + 2 ≤ fuel
      → (download S fuel bucket key (some n) w).0 ≢ ok none
  unfolding download download_once
  download-some fuel n bucket key w enough h =
      let out = aws_retry 3 (download_once S fuel bucket key (some n)) w in
      let (v, p) =
        aws_retry-ok 3 (download_once S fuel bucket key (some n)) w none out.1
          (ap (λ x. (x, out.1)) h) in
      elim (except-ok _ (λ x. raise (download_failure bucket key x)) none out.1 p) [
        | inl q ↦
            bind-then (S.get_object bucket key) (fetch S fuel (some n)) v none out.1 q
              (λ answer u got r. fetch-some fuel n answer u out.1 enough r)
        | inr (x, u, q, r) ↦ absurd (ground arith)
      ]
