-- ===== src/Domain/Attributes.antt =====
-- DynamoDB attribute values as boto3 passes them: wire attributes such as `{"S": text}`, and the
-- plain values of a deserialised stream image. A number is kept as the number that its text shows.
use Prim.Native.Char.{code}
use fsamp_processor.Prelude.{
  zero, suc, ◌+◌, ◌*◌, ◌-◌, leb, ◌&&◌, ℕ, String, ◌≡◌, refl, ◌==◌, Bool, true, false, Option, none,
  some, List, [], ◌∷◌, Dict, lookup, Result, ok, raised, if◌then◌else◌, truthy, arith,
}
use fsamp_processor.Prelude.Decimal.{str_nat}
use fsamp_processor.Domain.Errors.{Exn, key_error, value_error}

mutual
  pub data Json : Type 0 where
    null_json : Json
    text_json : String → Json
    number_json : ℕ → Json
    bool_json : Bool → Json
    array_json : Elements → Json
    object_json : Fields → Json

  pub data Elements : Type 0 where
    no_elements : Elements
    element : Json → Elements → Elements

  pub data Fields : Type 0 where
    no_fields : Fields
    field : String → Json → Fields → Fields

-- A Python value read out of an item.
pub data Value : Type 0 where
  text_value : String → Value
  number_value : ℕ → Value
  bool_value : Bool → Value
  none_value : Value
  dict_value : Json → Value
  -- an attribute of another type, read as it is
  raw_value : Value

pub data Attr : Type 0 where
  text : String → Attr
  number : ℕ → Attr
  flag : Bool → Attr
  null : Attr
  texts : List String → Attr
  plain : Value → Attr

abbrev pub Item : Type 0
Item = Dict Attr

abbrev pub text_of : Option Attr → Option String
text_of (some (text t)) = some t
text_of _ = none

abbrev pub number_of : Option Attr → Option ℕ
number_of (some (number n)) = some n
number_of _ = none

abbrev pub flag_of : Option Attr → Option Bool
flag_of (some (flag b)) = some b
flag_of _ = none

abbrev pub texts_of : Option Attr → List String
texts_of (some (texts l)) = l
texts_of _ = []

-- `item.get(name, {}).get("S")`
abbrev pub text_at : String → Item → Option String
text_at name item = text_of (lookup name item)

abbrev pub demand {ℓ} : {A : Type ℓ} → String → Option A → Result Exn A
demand name none = raised (key_error name)
demand name (some a) = ok a

-- `item[name] = {"S": value}` under `if value:`
unfoldable pub optional_text : String → Option String → Item
optional_text name value = elim value [
  | none ↦ []
  | some t ↦ if truthy t then (name, text t) ∷ [] else []
]

-- A text that is missing or empty is not stored.
abbrev pub kept : Option String → Option String
kept none = none
kept (some t) = if truthy t then some t else none

-- What a reader finds under the name.
abbrev pub stored_text : Option String → Option Attr
stored_text none = none
stored_text (some t) = if truthy t then some (text t) else none

pub text_of-stored_text : (value : Option String) → text_of (stored_text value) ≡ kept value
text_of-stored_text none = refl
text_of-stored_text (some t) = ground arith

pub lookup-optional_text :
    (k name : String) (value : Option String)
    → lookup k (optional_text name value) ≡ (if name == k then stored_text value else none)
unfolding optional_text lookup
lookup-optional_text k name none = ground arith
lookup-optional_text k name (some t) = ground arith

-- `OutboxEvent._dynamodb_value` of an attribute, which may be missing
unfoldable pub dynamodb_value : Option Attr → Value
dynamodb_value none = none_value
dynamodb_value (some (text t)) = text_value t
dynamodb_value (some (number n)) = number_value n
dynamodb_value (some (flag b)) = bool_value b
dynamodb_value (some null) = none_value
dynamodb_value (some (texts l)) = raw_value
dynamodb_value (some (plain v)) = v

-- `str(value)`. The text of a dict or of another attribute is not modelled.
abbrev pub str_value : Value → Result Exn String
str_value (text_value t) = ok t
str_value (number_value n) = ok (str_nat n)
str_value (bool_value true) = ok "True"
str_value (bool_value false) = ok "False"
str_value none_value = ok "None"
str_value (dict_value j) = raised (value_error "dict")
str_value raw_value = raised (value_error "attribute")

-- `value` where a text or `None` is expected
abbrev pub text_or_none : Value → Option String
text_or_none (text_value t) = some t
text_or_none _ = none

-- `value or default`
abbrev pub value_or : Value → Value → Value
value_or (text_value t) d = if truthy t then text_value t else d
value_or (number_value zero) d = d
value_or (number_value (suc n)) d = number_value (suc n)
value_or (bool_value true) d = bool_value true
value_or (bool_value false) d = d
value_or none_value d = d
value_or (dict_value j) d = dict_value j
value_or raw_value d = raw_value

digits_value : ℕ → String → Result Exn ℕ
digits_value acc String.[] = ok acc
digits_value acc (String.◌∷◌ c s) =
    let d = code c in
    if leb 48 d && leb d 57
    then digits_value (acc * 10 + (d - 48)) s
    else raised (value_error "int")

-- `int(value)` of digits or of a number; a sign, spaces and `_` are not read.
unfoldable pub int_value : Value → Result Exn ℕ
unfolding digits_value
int_value (number_value n) = ok n
int_value (text_value t) = if truthy t then digits_value 0 t else raised (value_error "int")
int_value (bool_value b) = ok (if b then 1 else 0)
int_value _ = raised (value_error "int")
