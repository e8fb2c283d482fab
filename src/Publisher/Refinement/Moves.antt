-- ===== src/Publisher/Refinement/Moves.antt =====
-- The requests of the publishers against the abstract machine, one by one and interleaved.
use fsamp_processor.Prelude.{ℕ, ◌+◌, ◌≤◌, String, ◌≡◌, refl, ◌∙◌, sym, Option, none, some}
use fsamp_processor.Domain.Attributes.{text, number, Item}
use fsamp_processor.Domain.Models.{OutboxEvent, OutboxStatus}
use fsamp_processor.Publisher.Machine.{View, Move, IsSound, Move-IsSound, published-not-Move}
use fsamp_processor.Publisher.Refinement.{
  at, failures_at, owner_attr, IsView, Step, claim-open, claim-below, publishing_status,
  IsView-claim, published-IsView,
}
use fsamp_processor.Publisher.Refinement.Marks.{owned_held, IsView-publish, IsView-fail}

owner_held :
    (o : Option String) (token : String) → owner_attr o ≡ some (text token) → o ≡ some token
owner_held none token p = cc
owner_held (some t) token p = cc

-- The view of a row that carries the lease of `token`.
leased_view :
    (v : View) (row : Option Item) (token : String)
    → IsView v row
    → (at "status" row ≡ some (text "PUBLISHING"))
      × (at "publisherClaimToken" row ≡ some (text token))
    → (v.status ≡ OutboxStatus.publishing) × (v.owner ≡ some token)
leased_view v row token s (p, q) = (
  publishing_status v.status (cc (s.status_at, p)),
  owner_held v.owner token (sym s.owner_at ∙ q),
)

-- An applied request of a publisher, with a retry limit of at least 1, is a move of the machine from
-- the view of the row before to a view of the row after.
pub Step-Move :
    (table : String) (limit : ℕ) (e : OutboxEvent) (v : View) (row after : Option Item)
    → 1 ≤ limit
    → IsView v row
    → Step table limit e row after
    → (u : View) × IsView u after × Move limit v u
Step-Move table limit e v _ after l s (Step.claim now token ttl row i held h) = (
  record { status = OutboxStatus.publishing; failures = v.failures; owner = some token },
  IsView-claim table now token ttl limit e row i h v s,
  Move.claim token (λ p. claim-open now limit row held (published-IsView v row s p))
      (claim-below now limit v.failures row l s.counted held) refl,
)
Step-Move table limit e v _ after l s (Step.publish now token retention row i held h) =
    let (p, q) = leased_view v row token s (owned_held token row held) in
    (
      record { status = OutboxStatus.published; failures = v.failures; owner = none },
      IsView-publish table now token retention e row i h v s,
      Move.publish token p q refl,
    )
Step-Move table limit e v _ after l s (Step.fail error token row i held h) =
    let (p, q) = leased_view v row token s (owned_held token row held) in
    (
      record { status = OutboxStatus.failed; failures = v.failures + 1; owner = none },
      IsView-fail table error token e row i h v s,
      Move.fail token p q refl,
    )

-- Requests of any number of publishers, one after the other.
pub data Steps (table : String) (limit : ℕ) (e : OutboxEvent)
    : Option Item → Option Item → Type 0 where
  done : (row : Option Item) → Steps table limit e row row
  next :
      (row mid after : Option Item)
      → Step table limit e row mid
      → Steps table limit e mid after
      → Steps table limit e row after

pub Steps-trans :
    {table : String} {limit : ℕ} {e : OutboxEvent} {a b c : Option Item}
    → Steps table limit e a b
    → Steps table limit e b c
    → Steps table limit e a c
Steps-trans (done _) q = q
Steps-trans (next row mid after s p) q = next row mid _ s (Steps-trans p q)

IsSound-after :
    (table : String) (limit : ℕ) (e : OutboxEvent) (v : View) (row after : Option Item)
    → 1 ≤ limit
    → IsView v row
    → IsSound limit v
    → Steps table limit e row after
    → (u : View) × IsView u after × IsSound limit u
IsSound-after table limit e v row after l s i (done _) = (v, s, i)
IsSound-after table limit e v row after l s i (next _ mid _ step rest) =
    let (u, su, m) = Step-Move table limit e v row mid l s step in
    IsSound-after table limit e u mid after l su (Move-IsSound limit v u m i) rest

-- However the publishers' requests interleave, with a retry limit of at least 1, the count of
-- failures of a row that started sound stays within the limit.
pub Steps-failures_at :
    (table : String) (limit : ℕ) (e : OutboxEvent) (v : View) (row after : Option Item)
    → 1 ≤ limit
    → IsView v row
    → IsSound limit v
    → Steps table limit e row after
    → (n : ℕ) × (failures_at after ≡ some (number n)) × (n ≤ limit)
Steps-failures_at table limit e v row after l s i run =
    let (u, su, iu) = IsSound-after table limit e v row after l s i run in
    (u.failures, su.counted, iu.bounded)

-- With a retry limit of at least 1, no requests of publishers change a published row.
pub Steps-published :
    (table : String) (limit : ℕ) (e : OutboxEvent) (v : View) (row after : Option Item)
    → 1 ≤ limit
    → IsView v row
    → v.status ≡ OutboxStatus.published
    → Steps table limit e row after
    → after ≡ row
Steps-published table limit e v row after l s p (done _) = refl
Steps-published table limit e v row after l s p (next _ mid _ step rest) =
    let (u, su, m) = Step-Move table limit e v row mid l s step in
    absurd (published-not-Move limit v u p m)
