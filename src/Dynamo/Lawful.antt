-- ===== src/Dynamo/Lawful.antt =====
-- What the program relies on of DynamoDB. `rows` are the table contents; between the calls of one
-- operation no other writer is assumed, and interleaved writers are the subject of
-- `Adapters.Metadata.Lease.Interleaving`. A transaction carries a client request token, which
-- DynamoDB remembers for a while (ten minutes): the same request under a token that it remembers is
-- answered with success and writes nothing, and another request under it is refused.
use fsamp_processor.Prelude.{
  String, ◌==◌, eq_refl, ◌≡◌, Bool, true, false, ◌&&◌, ◌⊎◌, Option, some, ok, raised, if◌then◌else◌,
}
use fsamp_processor.Domain.Errors.{Exn, ClientError, client}
use fsamp_processor.Domain.Attributes.{Item, text_at}
use fsamp_processor.Dynamo.{Client, Key, Request, Put}
use fsamp_processor.Dynamo.Semantics.{holds, updated, item_of}

abbrev pub conditional_code : String
conditional_code = "ConditionalCheckFailedException"

abbrev pub cancelled_code : String
cancelled_code = "TransactionCanceledException"

abbrev pub same_key : Key → Key → Bool
same_key a b = a.pk == b.pk && a.sk == b.sk

abbrev pub Rows : Type 0
Rows = String → Key → Option Item

abbrev pub write : String → Key → Item → Rows → Rows
write table k i rows t j = if table == t && same_key k j then some i else rows t j

abbrev pub SameRows : Rows → Rows → Type 0
SameRows a b = (t : String) (k : Key) → b t k ≡ a t k

-- The key that an item carries.
abbrev pub key_of : Item → Option Key
key_of i = elim (text_at "PK" i) [
  | Option.none ↦ Option.none
  | some pk ↦ elim (text_at "SK" i) [
    | Option.none ↦ Option.none
    | some sk ↦ some (record { pk = pk; sk = sk })
  ]
]

-- The condition held and the row was replaced by `i`.
pub record Applied (r : Request) (i : Item) (before after : Rows) : Type 0 where
  pub condition : holds r.condition (item_of (before r.table r.key)) ≡ true
  pub item : updated r (before r.table r.key) ≡ some i
  pub rows : SameRows (write r.table r.key i before) after

-- Both parts of a transaction were applied.
pub record Committed (r : Request) (p : Put) (before after : Rows) : Type 0 where
  pub item : Item
  pub key : Key
  pub condition : holds r.condition (item_of (before r.table r.key)) ≡ true
  pub updates : updated r (before r.table r.key) ≡ some item
  pub put_key : key_of p.item ≡ some key
  pub put_condition : holds p.condition (item_of (before p.table key)) ≡ true
  pub rows : SameRows (write p.table key p.item (write r.table r.key item before)) after

-- A transaction of the past, with the rows right before and right after it.
pub record Transaction : Type 0 where
  pub token : String
  pub request : Request
  pub put : Put
  pub before : Rows
  pub after : Rows

-- The transaction that a call makes.
abbrev pub transaction : String → Request → Put → Rows → Rows → Transaction
transaction token r p before after = record {
  token = token;
  request = r;
  put = p;
  before = before;
  after = after;
}

pub record IsLawful (C : Client) : Type 1 where
  pub rows : C.World → Rows
  -- The committed transactions whose tokens DynamoDB still remembers.
  pub remembered : C.World → Transaction → Type 0
  pub remembered-Committed :
      (w : C.World) (t : Transaction) → remembered w t → Committed t.request t.put t.before t.after
  pub remembered-now : (w : C.World) (t : Transaction) → remembered (C.now w).1 t → remembered w t
  pub rows-now : (w : C.World) → SameRows (rows w) (rows (C.now w).1)
  pub rows-uuid4 : (w : C.World) → SameRows (rows w) (rows (C.uuid4 w).1)
  pub rows-get_item :
      (t : String) (k : Key) (w : C.World) → SameRows (rows w) (rows (C.get_item t k w).1)
  pub get_item-ok :
      (t : String) (k : Key) (w : C.World) (o : Option Item)
      → (C.get_item t k w).0 ≡ ok o
      → o ≡ rows w t k
  pub update_item-ok :
      (r : Request) (w : C.World) (i : Item)
      → (C.update_item r w).0 ≡ ok i
      → Applied r i (rows w) (rows (C.update_item r w).1)
  pub update_item-refused :
      (r : Request) (w : C.World) (e : ClientError)
      → (C.update_item r w).0 ≡ raised (client e)
      → e.code ≡ conditional_code
      → (holds r.condition (item_of (rows w r.table r.key)) ≡ false)
        × SameRows (rows w) (rows (C.update_item r w).1)
  -- Any other failure may come after the write.
  pub update_item-raised :
      (r : Request) (w : C.World) (e : Exn)
      → (C.update_item r w).0 ≡ raised e
      → SameRows (rows w) (rows (C.update_item r w).1)
        ⊎ ((i : Item) × Applied r i (rows w) (rows (C.update_item r w).1))
  pub transact-ok :
      (token : String) (r : Request) (p : Put) (w : C.World)
      → (C.transact_write_items token r p w).0 ≡ ok tt
      → Committed r p (rows w) (rows (C.transact_write_items token r p w).1)
        ⊎ (SameRows (rows w) (rows (C.transact_write_items token r p w).1)
            × ((before : Rows) × (after : Rows) × remembered w
                  (transaction token r p before after)))
  pub transact-raised :
      (token : String) (r : Request) (p : Put) (w : C.World) (e : Exn)
      → (C.transact_write_items token r p w).0 ≡ raised e
      → SameRows (rows w) (rows (C.transact_write_items token r p w).1)
        ⊎ Committed r p (rows w) (rows (C.transact_write_items token r p w).1)
  -- A transaction that was not remembered before the call is the one that the call committed.
  pub remembered-transact :
      (token : String) (r : Request) (p : Put) (w : C.World) (t : Transaction)
      → remembered (C.transact_write_items token r p w).1 t
      → remembered w t
        ⊎ ((t ≡ transaction token r p (rows w) (rows (C.transact_write_items token r p w).1))
            × Committed r p (rows w) (rows (C.transact_write_items token r p w).1))

-- The written row holds the written item.
pub write_self :
    (table : String) (k : Key) (i : Item) (rows : Rows) → write table k i rows table k ≡ some i
write_self table k i rows = simp eq_refl
