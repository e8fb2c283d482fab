-- ===== src/Dynamo/Semantics.antt =====
-- What DynamoDB documents of conditions and update expressions, on one item. Comparisons are
-- defined on texts, numbers and flags, which are all that the program compares.
use fsamp_processor.Prelude.{
  ℕ, ◌+◌, String, ◌==◌, ◌≡◌, refl, ap, eq_iff, Bool, true, false, not, ◌&&◌, ◌||◌, Option, none,
  some, List, [], ◌∷◌, ◌++◌, lookup, insert, erase, nat_eq, leb, ltb, or_else, if◌then◌else◌, arith,
  lookup-insert, lookup-erase, Option-cases, inl, inr,
}
use fsamp_processor.Domain.Attributes.{Attr, text, number, flag, Item}
use fsamp_processor.Dynamo.{
  Operand, value, if_not_exists, plus, Condition, always, exists, missing, equals, differs, below,
  up_to, both, either, Key, Request,
}

abbrev pub same_attr : Attr → Attr → Bool
same_attr (text a) (text b) = a == b
same_attr (number a) (number b) = nat_eq a b
same_attr (flag true) (flag true) = true
same_attr (flag false) (flag false) = true
same_attr _ _ = false

abbrev equals_at : Option Attr → Attr → Bool
equals_at none a = false
equals_at (some b) a = same_attr b a

abbrev below_at : Option Attr → ℕ → Bool
below_at (some (number m)) n = ltb m n
below_at _ n = false

abbrev up_to_at : Option Attr → ℕ → Bool
up_to_at (some (number m)) n = leb m n
up_to_at _ n = false

abbrev pub is_there {ℓ} : {A : Type ℓ} → Option A → Bool
is_there none = false
is_there (some a) = true

-- A missing attribute differs from every value, and is not below any.
unfoldable pub holds : Condition → Item → Bool
holds always i = true
holds (exists n) i = is_there (lookup n i)
holds (missing n) i = not (is_there (lookup n i))
holds (equals n a) i = equals_at (lookup n i) a
holds (differs n a) i = not (equals_at (lookup n i) a)
holds (below n b) i = below_at (lookup n i) b
holds (up_to n b) i = up_to_at (lookup n i) b
holds (both c d) i = holds c i && holds d i
holds (either c d) i = holds c i || holds d i

abbrev add_attr : Option Attr → Option Attr → Option Attr
add_attr (some (number a)) (some (number b)) = some (number (a + b))
add_attr _ _ = none

-- `none` is a `ValidationException`.
unfoldable pub eval : Item → Operand → Option Attr
eval i (value a) = some a
eval i (if_not_exists n a) = or_else (lookup n i) (some a)
eval i (plus a b) = add_attr (eval i a) (eval i b)

abbrev then_set : Option Attr → (Attr → Option Item) → Option Item
then_set none k = none
then_set (some a) k = k a

-- All right sides are evaluated on the item before the update.
unfoldable pub apply_sets : Item → List (String × Operand) → Item → Option Item
apply_sets old [] i = some i
apply_sets old ((n, e) ∷ sets) i = then_set (eval old e) (λ a. apply_sets old sets (insert n a i))

unfoldable pub apply_removes : List String → Item → Item
apply_removes [] i = i
apply_removes (n ∷ names) i = apply_removes names (erase n i)

abbrev pub item_of : Option Item → Item
item_of none = []
item_of (some i) = i

-- An update of a missing row creates it under its key.
abbrev pub base : Key → Option Item → Item
base k none = ("PK", text k.pk) ∷ ("SK", text k.sk) ∷ []
base k (some i) = i

abbrev remove_from : List String → Option Item → Option Item
remove_from names none = none
remove_from names (some i) = some (apply_removes names i)

-- The item after an update whose condition holds.
unfoldable pub updated : Request → Option Item → Option Item
updated r row =
    remove_from r.update.removes (apply_sets (item_of row) r.update.sets (base r.key row))

-- The last assignment of a name.
unfoldable pub assigned : String → List (String × Operand) → Option Operand
assigned k [] = none
assigned k ((n, e) ∷ sets) = or_else (assigned k sets) (if n == k then some e else none)

pub assigned-append :
    (k : String) (a b : List (String × Operand))
    → assigned k (a ++ b) ≡ or_else (assigned k b) (assigned k a)
unfolding assigned
assigned-append k [] b = ground arith
assigned-append k ((n, e) ∷ a) b = ground (arith, assigned-append k a b)

pub assigned-nil : (k : String) → assigned k [] ≡ none
unfolding assigned
assigned-nil k = refl

pub assigned-cons :
    (k n : String) (e : Operand) (sets : List (String × Operand))
    → assigned k ((n, e) ∷ sets) ≡ or_else (assigned k sets) (if n == k then some e else none)
unfolding assigned
assigned-cons k n e sets = refl

unfoldable pub removed : String → List String → Bool
removed k [] = false
removed k (n ∷ names) = n == k || removed k names

abbrev pub after_sets : Item → Option Operand → Option Attr → Option Attr
after_sets old none a = a
after_sets old (some e) a = eval old e

lookup-apply_sets :
    (k : String) (old : Item) (sets : List (String × Operand)) (i j : Item)
    → apply_sets old sets i ≡ some j
    → lookup k j ≡ after_sets old (assigned k sets) (lookup k i)
unfolding apply_sets assigned
lookup-apply_sets k old [] i j h = ground arith
lookup-apply_sets k old ((n, e) ∷ sets) i j h = elim (Option-cases (eval old e)) [
  | inl p ↦ absurd (ground arith)
  | inr (a, p) ↦
      ground (arith, lookup-apply_sets k old sets (insert n a i) j, lookup-insert k n a i)
]

lookup-apply_removes :
    (k : String) (names : List String) (i : Item)
    → lookup k (apply_removes names i) ≡ (if removed k names then none else lookup k i)
unfolding apply_removes removed
lookup-apply_removes k [] i = refl
lookup-apply_removes k (n ∷ names) i =
    ground (arith, lookup-apply_removes k names (erase n i), lookup-erase k n i)

-- An attribute after an update.
pub lookup-updated :
    (k : String) (r : Request) (row : Option Item) (j : Item)
    → updated r row ≡ some j
    → lookup k j ≡ (
        if removed k r.update.removes
        then none
        else after_sets (item_of row) (assigned k r.update.sets) (lookup k (base r.key row)))
unfolding updated
lookup-updated k r row j h =
    elim (Option-cases (apply_sets (item_of row) r.update.sets (base r.key row))) [
      | inl p ↦ absurd (ground arith)
      | inr (i, p) ↦ ground (
        arith,
        lookup-apply_removes k r.update.removes i,
        lookup-apply_sets k (item_of row) r.update.sets (base r.key row) i p,
      )
    ]

apply_sets-evaluates :
    (k : String) (e : Operand) (old : Item) (sets : List (String × Operand)) (i j : Item)
    → apply_sets old sets i ≡ some j
    → assigned k sets ≡ some e
    → (a : Attr) × (eval old e ≡ some a)
unfolding apply_sets assigned
apply_sets-evaluates k e old [] i j h q = absurd (ground arith)
apply_sets-evaluates k e old ((n, d) ∷ sets) i j h q = elim (Option-cases (eval old d)) [
  | inl p ↦ absurd (ground arith)
  | inr (b, p) ↦ elim (Option-cases (assigned k sets)) [
    | inl u ↦ (b, ground arith)
    | inr (d', u) ↦ apply_sets-evaluates k e old sets (insert n b i) j (ground arith) (ground arith)
  ]
]

-- In an update that is applied, what is assigned has a value.
pub updated-evaluates :
    (k : String) (e : Operand) (r : Request) (row : Option Item) (j : Item)
    → updated r row ≡ some j
    → assigned k r.update.sets ≡ some e
    → (a : Attr) × (eval (item_of row) e ≡ some a)
unfolding updated
updated-evaluates k e r row j h q =
    elim (Option-cases (apply_sets (item_of row) r.update.sets (base r.key row))) [
      | inl p ↦ absurd (ground arith)
      | inr (i, p) ↦ apply_sets-evaluates k e (item_of row) r.update.sets (base r.key row) i p q
    ]

add_attr_number :
    (o : Option Attr) (n : ℕ) (a : Attr)
    → add_attr o (some (number n)) ≡ some a
    → (m : ℕ) × (o ≡ some (number m)) × (a ≡ number (m + n))
add_attr_number none n a h = cc
add_attr_number (some (number m)) n a h = (m, refl, ground arith)
add_attr_number (some _) n a h = cc

-- `if_not_exists(name, :zero) + :n` has a value only where it adds to a number.
pub eval-counter :
    (name : String) (i : Item) (n : ℕ) (a : Attr)
    → eval i (plus (if_not_exists name (number 0)) (value (number n))) ≡ some a
    → (m : ℕ) × (or_else (lookup name i) (some (number 0)) ≡ some (number m)) × (a ≡ number (m + n))
unfolding eval
eval-counter name i n a h = add_attr_number _ n a h

pub holds-both :
    (c d : Condition) (i : Item)
    → holds (both c d) i ≡ true
    → (holds c i ≡ true) × (holds d i ≡ true)
unfolding holds
holds-both c d i h = ground arith

equals_at-text : (o : Option Attr) (t : String) → equals_at o (text t) ≡ true → o ≡ some (text t)
equals_at-text none t h = cc
equals_at-text (some (text s)) t h = ap (λ u. some (text u)) ((eq_iff s t).0 h)
equals_at-text (some _) t h = ground arith

equals_at-number : (o : Option Attr) (n : ℕ) → equals_at o (number n) ≡ true → o ≡ some (number n)
equals_at-number none n h = cc
equals_at-number (some (number m)) n h = ground arith
equals_at-number (some _) n h = ground arith

pub holds-equals_text :
    (k t : String) (i : Item) → holds (equals k (text t)) i ≡ true → lookup k i ≡ some (text t)
unfolding holds
holds-equals_text k t i h = equals_at-text (lookup k i) t h

pub holds-equals_number :
    (k : String) (n : ℕ) (i : Item)
    → holds (equals k (number n)) i ≡ true
    → lookup k i ≡ some (number n)
unfolding holds
holds-equals_number k n i h = equals_at-number (lookup k i) n h
