-- ===== src/Publisher/Recovery.antt =====
-- The loop of `retry_pending_events` over the rows that its queries found.
use fsamp_processor.Prelude.{
  ℕ, ◌+◌, Bool, true, false, if◌then◌else◌, String, ◌≡◌, refl, ap, ◌∙◌, bind-ok, Option, none, some,
  List, [], ◌∷◌, Result, ok, raised, Exec, ◌>>=◌, ◌>>◌, pure, try_except, except, arith,
}
use fsamp_processor.Domain.Errors.{Exn, str_exn}
use fsamp_processor.Domain.Events.{Runtime}
use fsamp_processor.Domain.Wire.{Wire}
use fsamp_processor.Domain.Attributes.{Item}
use fsamp_processor.Domain.Models.{OutboxEvent}
use fsamp_processor.Domain.Models.Outbox.{from_dynamodb_item}
use fsamp_processor.Dynamo.{Client}
use fsamp_processor.Publisher.Settings.{Config}
use fsamp_processor.Publisher.Worker.{
  Message, claim_event_for_publish, publish_claimed, mark_event_failed,
}

-- What came of one row.
pub data Attempt : Type 0 where
  skipped succeeded failed : Attempt

-- The numbers of successes and failures.
abbrev count : Attempt → ℕ × ℕ → ℕ × ℕ
count skipped n = n
count succeeded (s, f) = (s + 1, f)
count failed (s, f) = (s, f + 1)

-- How many of the attempts came to `a`.
abbrev is_same : Attempt → Attempt → Bool
is_same skipped skipped = true
is_same succeeded succeeded = true
is_same failed failed = true
is_same _ _ = false

unfoldable pub occurrences : Attempt → List Attempt → ℕ
occurrences a [] = 0
occurrences a (b ∷ l) = let rest = occurrences a l in if is_same a b then rest + 1 else rest

count-occurrences :
    (a : Attempt) (l : List Attempt) (n : ℕ × ℕ)
    → ◌≡◌ {A = ℕ × ℕ}
        ((count a n).0 + occurrences succeeded l, (count a n).1 + occurrences failed l)
        (n.0 + occurrences succeeded (a ∷ l), n.1 + occurrences failed (a ∷ l))
unfolding occurrences
count-occurrences skipped l n = refl
count-occurrences succeeded l n = ground arith
count-occurrences failed l n = ground arith

module _ (R : Runtime) (W : Wire) (C : Client) (publish : Message → Exec Exn C.World String)
    (G : Config) where
  unfoldable pub retry_claimed : OutboxEvent → Option String → Exec Exn C.World Attempt
  retry_claimed e none = pure skipped
  retry_claimed e (some token) =
      try_except (do publish_claimed R W C publish G e token; pure succeeded)
        (λ error. do
          try_except (mark_event_failed R W C publish G e (str_exn error) token) (λ _. pure tt)
          pure failed)

  -- A claim that raises counts as a failure too.
  unfoldable pub retry_event : OutboxEvent → Exec Exn C.World Attempt
  unfolding retry_claimed
  retry_event e =
      try_except (do token ← claim_event_for_publish R W C publish G e; retry_claimed e token)
        (λ _. pure failed)

  unfoldable pub retry_each : List Item → ℕ × ℕ → Exec Exn C.World (ℕ × ℕ)
  unfolding retry_event
  retry_each [] n = pure n
  retry_each (item ∷ items) n = do
    e ← (λ w. (from_dynamodb_item R W item, w))
    attempt ← retry_event e
    retry_each items (count attempt n)

  -- A guarded block whose handler returns returns.
  except-returns {ℓ} :
      {A : Type ℓ} (out : Result Exn A × C.World) (a : A)
      → (b : A) × (v : C.World) × (except out (λ _. pure a) ≡ (ok b, v))
  except-returns (ok b, v) a = (b, v, refl)
  except-returns (raised x, v) a = (a, v, refl)

  retry_event-returns :
      (e : OutboxEvent) (w : C.World)
      → (a : Attempt) × (v : C.World) × (retry_event e w ≡ (ok a, v))
  unfolding retry_event
  retry_event-returns e w = except-returns _ failed

  -- Every row reads as an event.
  pub data AllRead : List Item → Type 0 where
    none_left : AllRead []
    reads :
        (item : Item) (items : List Item) (e : OutboxEvent)
        → from_dynamodb_item R W item ≡ ok e
        → AllRead items
        → AllRead (item ∷ items)

  -- Every row in turn was read and its event tried once, from the world that the row before it left.
  pub data Tried (end : C.World) : List Item → C.World → List Attempt → Type 0 where
    all_tried : Tried end [] end []
    tried :
        (item : Item) (items : List Item) (e : OutboxEvent) (a : Attempt) (l : List Attempt)
        (w v : C.World)
        → from_dynamodb_item R W item ≡ ok e
        → retry_event e w ≡ (ok a, v)
        → Tried end items v l
        → Tried end (item ∷ items) w (a ∷ l)

  pub retry_each-returns :
      (items : List Item) (n : ℕ × ℕ) (w : C.World)
      → AllRead items
      → (l : List Attempt) × (v : C.World) × Tried v items w l
        × (retry_each items n w
            ≡ (ok (n.0 + occurrences succeeded l, n.1 + occurrences failed l), v))
  unfolding retry_each ◌>>=◌ occurrences
  retry_each-returns [] n w all = ([], w, all_tried, ap (λ m. (ok m, w)) (start n))
    where
      start : (n : ℕ × ℕ) → n ≡ (n.0 + 0, n.1 + 0)
      start n = ground arith
  retry_each-returns (item ∷ items) n w (reads _ _ e p rest) =
      let (a, v, q) = retry_event-returns e w in
      let (l, u, all, r) = retry_each-returns items (count a n) v rest in
      let tail : Attempt → Exec Exn C.World (ℕ × ℕ) = λ b. retry_each items (count b n) in
      let parsed =
        bind-ok (λ x. (from_dynamodb_item R W item, x)) (λ d. retry_event d >>= tail) w e w
          (ap (λ x. (x, w)) p) in
      (
        a ∷ l,
        u,
        tried item items e a l w v p q all,
        parsed
            ∙ (bind-ok (retry_event e) tail w a v q
                ∙ (r ∙ ap (λ m. (ok m, u)) (count-occurrences a l n))),
      )
