-- ===== src/Domain/Models/Metadata/RoundTrip.antt =====
-- A metadata record survives its item format.
use fsamp_processor.Prelude.{
  ℕ, zero, suc, String, ◌<>◌, ◌==◌, ◌≡◌, refl, Bool, true, Option, none, some, List, [], ◌∷◌,
  lookup, ok, if◌then◌else◌, truthy, or_present, or_else, dict_laws, text_length, text_drop, arith,
}
use fsamp_processor.Domain.Events.{Instant}
use fsamp_processor.Domain.Attributes.{
  text, Attr, number, flag, texts, flag_of, texts_of, kept, stored_text, text_of-stored_text,
  lookup-optional_text,
}
use fsamp_processor.Domain.Models.{MetadataRecord, ProcessingStatus, status_value}
use fsamp_processor.Domain.Models.Metadata.{
  parse_status, optional_flag, optional_texts, optional_number, checksum_item, required_fields,
  to_dynamodb_item, text_or, read_ttl, filename_required, from_dynamodb_item, remove_prefix,
}

parse_status-status_value : (s : ProcessingStatus) → parse_status (status_value s) ≡ ok s
unfolding parse_status status_value
parse_status-status_value ProcessingStatus.pending = refl
parse_status-status_value ProcessingStatus.uploaded = refl
parse_status-status_value ProcessingStatus.scanning = refl
parse_status-status_value ProcessingStatus.processing = refl
parse_status-status_value ProcessingStatus.completed = refl
parse_status-status_value ProcessingStatus.failed = refl

abbrev pub stored_flag : Option Bool → Option Attr
stored_flag none = none
stored_flag (some b) = some (flag b)

abbrev pub stored_texts : List String → Option Attr
stored_texts [] = none
stored_texts (x ∷ l) = some (texts (x ∷ l))

abbrev pub stored_number : Option ℕ → Option Attr
stored_number none = none
stored_number (some zero) = none
stored_number (some (suc n)) = some (number (suc n))

abbrev pub nonzero : Option ℕ → Option ℕ
nonzero none = none
nonzero (some zero) = none
nonzero (some (suc n)) = some (suc n)

lookup-optional_flag :
    (k name : String) (b : Option Bool)
    → lookup k (optional_flag name b) ≡ (if name == k then stored_flag b else none)
unfolding optional_flag lookup
lookup-optional_flag k name none = ground arith
lookup-optional_flag k name (some b) = refl

lookup-optional_texts :
    (k name : String) (l : List String)
    → lookup k (optional_texts name l) ≡ (if name == k then stored_texts l else none)
unfolding optional_texts lookup
lookup-optional_texts k name [] = ground arith
lookup-optional_texts k name (x ∷ l) = refl

pub lookup-optional_number :
    (k name : String) (n : Option ℕ)
    → lookup k (optional_number name n) ≡ (if name == k then stored_number n else none)
unfolding optional_number lookup
lookup-optional_number k name none = ground arith
lookup-optional_number k name (some zero) = ground arith
lookup-optional_number k name (some (suc n)) = refl

abbrev pub stored_checksum : Option String → Option Attr
stored_checksum c = elim (kept c) [ none ↦ none | some t ↦ some (text "SHA256") ]

-- The checksum's two entries, seen under any other name.
lookup-checksum_item :
    (k : String) (c : Option String)
    → lookup k (checksum_item c) ≡ (
        if "checksumSHA256" == k
        then stored_text c
        else if "checksumAlgorithm" == k
        then stored_checksum c
        else none)
unfolding checksum_item lookup
lookup-checksum_item k none = ground arith
lookup-checksum_item k (some t) = ground arith

ruleset item_laws = (
  dict_laws, lookup-optional_text, lookup-optional_flag, lookup-optional_texts,
  lookup-optional_number, lookup-checksum_item,
)

pub or_else-none {ℓ} : {A : Type ℓ} (o : Option A) → or_else o none ≡ o
or_else-none none = refl
or_else-none (some a) = refl

or_present-kept : (o : Option String) → or_present (kept o) none ≡ kept o
or_present-kept none = refl
or_present-kept (some String.[]) = refl
or_present-kept (some (String.◌∷◌ c s)) = refl

flag_of-stored_flag : (o : Option Bool) → flag_of (stored_flag o) ≡ o
flag_of-stored_flag none = refl
flag_of-stored_flag (some b) = refl

texts_of-stored_texts : (l : List String) → texts_of (stored_texts l) ≡ l
texts_of-stored_texts [] = refl
texts_of-stored_texts (x ∷ l) = refl

read_ttl-stored_number : (o : Option ℕ) → read_ttl (stored_number o) ≡ ok (nonzero o)
read_ttl-stored_number none = refl
read_ttl-stored_number (some zero) = refl
read_ttl-stored_number (some (suc n)) = refl

ruleset stored_laws = (
  or_else-none, or_present-kept, text_of-stored_text, flag_of-stored_flag, texts_of-stored_texts,
  read_ttl-stored_number, parse_status-status_value,
)

text_or-file_id : (t : String) → text_or (some t) (remove_prefix ("FILE#" <> t) "FILE#") ≡ t
unfolding remove_prefix text_length text_drop
text_or-file_id String.[] = refl
text_or-file_id (String.◌∷◌ c s) = refl

filename_required-some :
    (t : String) → truthy t ≡ true → filename_required (or_present (some t) none) ≡ ok t
filename_required-some String.[] h = cc
filename_required-some (String.◌∷◌ c s) h = refl

-- What the item keeps of a record: optional texts that are not empty, and the last update as its
-- timestamp.
abbrev pub restored : Instant → MetadataRecord → MetadataRecord
restored now r = record r {
  timestamp = text_or (or_present (kept r.updated_at) (kept r.created_at)) now.iso;
  mime_type = kept r.mime_type;
  checksum_sha256 = kept r.checksum_sha256;
  file_hash = kept r.file_hash;
  kms_key_id = kept r.kms_key_id;
  created_at = kept r.created_at;
  created_by = kept r.created_by;
  updated_at = kept r.updated_at;
  processed_at = kept r.processed_at;
  error_message = kept r.error_message;
  error_code = kept r.error_code;
  last_processed_event_id = kept r.last_processed_event_id;
  ttl = nonzero r.ttl;
}

-- Reading back the item of a record with a filename gives the record, except that an empty optional
-- text and a zero `ttl` become missing and the timestamp is the last update, the creation or now.
pub from_dynamodb_item-to_dynamodb_item :
    (now : Instant) (r : MetadataRecord)
    → truthy r.original_filename ≡ true
    → from_dynamodb_item now (to_dynamodb_item r) ≡ ok (restored now r)
unfolding from_dynamodb_item to_dynamodb_item required_fields
from_dynamodb_item-to_dynamodb_item now r h =
    simp (item_laws, stored_laws, text_or-file_id, filename_required-some r.original_filename h)
