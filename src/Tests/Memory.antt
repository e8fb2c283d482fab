-- ===== src/Tests/Memory.antt =====
-- A DynamoDB in memory that keeps the laws that the theorems rely on. It remembers no token.
use fsamp_processor.Prelude.{
  ℕ, suc, String, ◌<>◌, ◌≡◌, refl, ◌∙◌, ap, inl, Bool, true, false, Option, none, some, Result, ok,
  raised, arith, eq_iff,
}
use fsamp_processor.Prelude.Decimal.{str_nat}
use fsamp_processor.Domain.Errors.{Exn, ClientError, client}
use fsamp_processor.Domain.Events.{Instant}
use fsamp_processor.Domain.Attributes.{Item}
use fsamp_processor.Dynamo.{Client, Key, Request, Put}
use fsamp_processor.Dynamo.Semantics.{holds, updated, item_of}
use fsamp_processor.Dynamo.Lawful.{
  IsLawful, Rows, SameRows, Applied, Committed, write, key_of, conditional_code, cancelled_code,
}

abbrev pub Disk : Type 0
Disk = Rows × ℕ

abbrev pub instant : ℕ → Instant
instant n = record { micros = n; iso = "2026-01-01T00:00:00" }

abbrev refusal : String → ClientError
refusal code = record { code = code; status = 400; text = "refused" }

abbrev validation_code : String
validation_code = "ValidationException"

-- Whether the condition held, and the item after the update.
abbrev answer_update : Bool → Option Item → Request → Disk → Result Exn Item × Disk
answer_update false o r w = (raised (client (refusal conditional_code)), w)
answer_update true none r w = (raised (client (refusal validation_code)), w)
answer_update true (some i) r w = (ok i, (write r.table r.key i w.0, w.1))

abbrev answer_transaction :
    Bool → Option Item → Bool → Option Key → Request → Put → Disk → Result Exn (Unit {0}) × Disk
answer_transaction true (some i) true (some k) r p w =
    (ok tt, (write p.table k p.item (write r.table r.key i w.0), w.1))
answer_transaction _ _ _ _ r p w = (raised (client (refusal cancelled_code)), w)

-- Whether the put's own row lets it happen.
abbrev may_put : Option Key → Put → Disk → Bool
may_put none p w = false
may_put (some k) p w = holds p.condition (item_of (w.0 p.table k))

abbrev pub memory : Client
memory = record {
  World = Disk;
  now = λ w. (instant w.1, (w.0, suc w.1));
  uuid4 = λ w. ("token-" <> str_nat w.1, (w.0, suc w.1));
  get_item = λ t k w. (ok (w.0 t k), w);
  update_item = λ r w.
      answer_update (holds r.condition (item_of (w.0 r.table r.key)))
        (updated r (w.0 r.table r.key)) r w;
  transact_write_items = λ token r p w.
      answer_transaction (holds r.condition (item_of (w.0 r.table r.key)))
        (updated r (w.0 r.table r.key)) (may_put (key_of p.item) p w) (key_of p.item) r p w;
}

codes_differ : validation_code ≡ conditional_code → ⊥
codes_differ h =
    let e : false ≡ true = (eq_iff validation_code conditional_code).1 h in ground arith

module _ (r : Request) (w : Disk) where
  pub update-ok :
      (b : Bool) (o : Option Item) (i : Item)
      → holds r.condition (item_of (w.0 r.table r.key)) ≡ b
      → updated r (w.0 r.table r.key) ≡ o
      → (answer_update b o r w).0 ≡ ok i
      → Applied r i w.0 (answer_update b o r w).1.0
  update-ok false o i p q h = absurd (ground arith)
  update-ok true none i p q h = absurd (ground arith)
  update-ok true (some j) i p q h =
      let same : j ≡ i = cc in
      record {
        condition = p;
        item = q ∙ ap some same;
        rows = λ t k. ap (λ x. write r.table r.key x w.0 t k) same;
      }

  pub update-refused :
      (b : Bool) (o : Option Item) (e : ClientError)
      → holds r.condition (item_of (w.0 r.table r.key)) ≡ b
      → (answer_update b o r w).0 ≡ raised (client e)
      → e.code ≡ conditional_code
      → (holds r.condition (item_of (w.0 r.table r.key)) ≡ false)
        × SameRows w.0 (answer_update b o r w).1.0
  update-refused false o e p h c = (p, λ t k. refl)
  update-refused true none e p h c =
      let same : refusal validation_code ≡ e = cc in
      absurd (codes_differ (ap (λ x. x.code) same ∙ c))
  update-refused true (some j) e p h c = absurd (ground arith)

  pub update-raised :
      (b : Bool) (o : Option Item) (e : Exn)
      → (answer_update b o r w).0 ≡ raised e
      → SameRows w.0 (answer_update b o r w).1.0
  update-raised false o e h t k = refl
  update-raised true none e h t k = refl
  update-raised true (some j) e h t k = absurd (ground arith)

module _ (r : Request) (p : Put) (w : Disk) where
  pub transaction-ok :
      (b c : Bool) (o : Option Item) (k : Option Key)
      → holds r.condition (item_of (w.0 r.table r.key)) ≡ b
      → updated r (w.0 r.table r.key) ≡ o
      → may_put (key_of p.item) p w ≡ c
      → key_of p.item ≡ k
      → (answer_transaction b o c k r p w).0 ≡ ok tt
      → Committed r p w.0 (answer_transaction b o c k r p w).1.0
  transaction-ok true true (some i) (some k) held u put key h = record {
    item = i;
    key = k;
    condition = held;
    updates = u;
    put_key = key;
    put_condition = rw key at put;
    rows = λ t j. refl;
  }
  transaction-ok true true (some i) none held u put key h = absurd (ground arith)
  transaction-ok true true none k held u put key h = absurd (ground arith)
  transaction-ok true false none k held u put key h = absurd (ground arith)
  transaction-ok true false (some i) k held u put key h = absurd (ground arith)
  transaction-ok false c o k held u put key h = absurd (ground arith)

  pub transaction-raised :
      (b c : Bool) (o : Option Item) (k : Option Key) (e : Exn)
      → (answer_transaction b o c k r p w).0 ≡ raised e
      → SameRows w.0 (answer_transaction b o c k r p w).1.0
  transaction-raised true true (some i) (some k) e h t j = absurd (ground arith)
  transaction-raised true true (some i) none e h t j = refl
  transaction-raised true true none k e h t j = refl
  transaction-raised true false none k e h t j = refl
  transaction-raised true false (some i) k e h t j = refl
  transaction-raised false c o k e h t j = refl

abbrev sent : Option Item → Result Exn (Option Item)
sent a = ok a

pub got : (a b : Option Item) → sent a ≡ sent b → b ≡ a
got a b h = cc

abbrev pub memory_laws : IsLawful memory
memory_laws = record {
  rows = λ w. w.0;
  remembered = λ w t. ⊥;
  remembered-Committed = λ w t h. absurd h;
  remembered-now = λ w t h. h;
  rows-now = λ w t k. refl;
  rows-uuid4 = λ w t k. refl;
  rows-get_item = λ t k w u j. refl;
  get_item-ok = λ t k w o h. got _ _ h;
  update_item-ok = λ r w i h. update-ok r w _ _ i refl refl h;
  update_item-refused = λ r w e h c. update-refused r w _ _ e refl h c;
  update_item-raised = λ r w e h. inl (update-raised r w _ _ e h);
  transact-ok = λ token r p w h. inl (transaction-ok r p w _ _ _ _ refl refl refl refl h);
  transact-raised = λ token r p w e h. inl (transaction-raised r p w _ _ _ _ e h);
  remembered-transact = λ token r p w t h. absurd h;
}
