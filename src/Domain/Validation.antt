-- ===== src/Domain/Validation.antt =====
-- The validators of src/processor/domain/events.py and the derivation of output events. A
-- `ValidationError` carries no field list.
pub mod Derived
use Prim.Native.Char.{code}
use fsamp_processor.Prelude.{
  ℕ, ◌+◌, ◌*◌, ◌-◌, String, ◌<>◌, ◌==◌, ◌≡◌, arith, Bool, true, false, not, ◌&&◌, ◌||◌, Option,
  none, some, List, [], ◌∷◌, Result, ok, raised, if◌then◌else◌, leb, nat_eq, text_length,
}
use fsamp_processor.Domain.Errors.{Exn, validation}
use fsamp_processor.Domain.Events.{
  EventType, file_uploaded, analysis_completed, processing_failed, EventSource, gateway, processor,
  type_value, is_type, is_source, Instant, filename, mime, checksum, bucket, region_name, kms_arn,
  Runtime, FileMetadata, StorageLocation, SecurityContext, ProcessingResultDetails, FailureDetails,
  FileEvent,
}

abbrev pub max_schema_bytes : ℕ
max_schema_bytes = 104857600

abbrev within : ℕ → ℕ → String → Bool
within lo hi s = leb lo (text_length s) && leb (text_length s) hi

abbrev optional : (String → Bool) → Option String → Bool
optional p none = true
optional p (some s) = p s

codes : String → List ℕ
codes String.[] = []
codes (String.◌∷◌ c s) = code c ∷ codes s

-- `value.split(".")`
split_dots : List ℕ → List (List ℕ)
split_dots [] = [] ∷ []
split_dots (c ∷ s) = grow (nat_eq c b'.') c (split_dots s)
  where
    grow : Bool → ℕ → List (List ℕ) → List (List ℕ)
    grow true c labels = [] ∷ labels
    grow false c [] = (c ∷ []) ∷ []
    grow false c (l ∷ labels) = (c ∷ l) ∷ labels

starts_dash : List ℕ → Bool
starts_dash [] = false
starts_dash (c ∷ s) = nat_eq c b'-'

ends_dash : List ℕ → Bool
ends_dash [] = false
ends_dash (c ∷ []) = nat_eq c b'-'
ends_dash (c ∷ d ∷ s) = ends_dash (d ∷ s)

is_digit : ℕ → Bool
is_digit c = leb b'0' c && leb c b'9'

unfoldable pub all_of {ℓ} : {A : Type ℓ} → (A → Bool) → List A → Bool
all_of p [] = true
all_of p (x ∷ xs) = p x && all_of p xs

unfoldable pub any_of {ℓ} : {A : Type ℓ} → (A → Bool) → List A → Bool
any_of p [] = false
any_of p (x ∷ xs) = p x || any_of p xs

decimal : ℕ → List ℕ → ℕ
decimal acc [] = acc
decimal acc (c ∷ s) = decimal (acc * 10 + (c - 48)) s

is_empty {ℓ} : {A : Type ℓ} → List A → Bool
is_empty [] = true
is_empty (x ∷ xs) = false

-- `label.isdigit() and int(label) <= 255`
is_octet : List ℕ → Bool
unfolding is_empty is_digit decimal
is_octet label = not (is_empty label) && all_of is_digit label && leb (decimal 0 label) 255

has_four {ℓ} : {A : Type ℓ} → List A → Bool
has_four (a ∷ b ∷ c ∷ d ∷ []) = true
has_four _ = false

-- Two dots in a row make an empty label that is neither the first nor the last one.
has_double_dot : List ℕ → Bool
has_double_dot [] = false
has_double_dot (c ∷ []) = false
has_double_dot (c ∷ d ∷ s) = (nat_eq c b'.' && nat_eq d b'.') || has_double_dot (d ∷ s)

-- `StorageLocation.validate_bucket_name`
unfoldable pub valid_bucket_name : String → Bool
unfolding codes split_dots has_double_dot starts_dash ends_dash is_octet has_four any_of all_of
valid_bucket_name value =
    let labels = split_dots (codes value) in
    not (has_double_dot (codes value) || any_of (λ l. starts_dash l || ends_dash l) labels)
    && not (has_four labels && all_of is_octet labels)

unfoldable pub valid_metadata : Runtime → FileMetadata → Bool
valid_metadata R m =
    within 1 255 m.original_filename
    && R.matches filename m.original_filename
    && leb 1 m.file_size_bytes
    && leb m.file_size_bytes max_schema_bytes
    && optional (R.matches mime) m.mime_type
    && R.matches checksum m.checksum_sha256

unfoldable pub valid_location : Runtime → StorageLocation → Bool
valid_location R l =
    within 3 63 l.bucket_name
    && R.matches bucket l.bucket_name
    && valid_bucket_name l.bucket_name
    && within 1 1024 l.object_key
    && optional (R.matches region_name) l.region

unfoldable pub valid_security : Runtime → SecurityContext → Bool
valid_security R s =
    s.is_encrypted
    && s.encryption_algorithm == "AES/GCM/NoPadding"
    && R.matches kms_arn s.kms_key_id

-- A list field has at most `n` entries.
at_most : ℕ → List String → Bool
at_most ℕ.zero [] = true
at_most ℕ.zero (x ∷ xs) = false
at_most (ℕ.suc n) [] = true
at_most (ℕ.suc n) (x ∷ xs) = at_most n xs

unfoldable pub valid_result : Runtime → ProcessingResultDetails → Bool
unfolding at_most all_of
valid_result R r =
    at_most 100 r.findings
    && all_of (within 1 1000) r.findings
    && optional (R.matches checksum) r.file_hash_sha256
    && optional (within 1 100) r.scan_engine

unfoldable pub valid_failure : FailureDetails → Bool
valid_failure f = within 1 100 f.code && within 1 2000 f.message

-- Constructing a model validates it.
unfoldable pub make_result : Runtime → ProcessingResultDetails → Result Exn ProcessingResultDetails
make_result R r = if valid_result R r then ok r else raised (validation "ProcessingResultDetails")

unfoldable pub make_failure : FailureDetails → Result Exn FailureDetails
make_failure f = if valid_failure f then ok f else raised (validation "FailureDetails")

unfoldable pub make_location : Runtime → StorageLocation → Result Exn StorageLocation
make_location R l = if valid_location R l then ok l else raised (validation "StorageLocation")

pub make_location-ok : (R : Runtime) (l m : StorageLocation) → make_location R l ≡ ok m → l ≡ m
unfolding make_location
make_location-ok R l m h = ground arith

abbrev absent {ℓ} : {A : Type ℓ} → Option A → Bool
absent none = true
absent (some a) = false

abbrev holds_of {ℓ} : {A : Type ℓ} → (A → Bool) → Option A → Bool
holds_of p none = true
holds_of p (some a) = p a

-- `require_uuid4` and `require_event_uuid`
unfoldable pub valid_ids : FileEvent → Bool
valid_ids e =
    nat_eq e.file_id.version 4
    && nat_eq e.correlation_id.version 4
    && (nat_eq e.event_id.version 4 || nat_eq e.event_id.version 5)

-- The service that must produce an event of the type.
unfoldable pub expected_source : EventType → EventSource
expected_source t = if is_type t file_uploaded then gateway else processor

-- `validate_event_variant`
unfoldable pub valid_variant : FileEvent → Bool
unfolding expected_source
valid_variant e =
    is_source e.source (expected_source e.event_type)
    && (if is_type e.event_type analysis_completed
        then not (absent e.processing_result) && absent e.failure
        else if is_type e.event_type processing_failed
        then not (absent e.failure) && absent e.processing_result
        else absent e.processing_result && absent e.failure)

-- Every check of `FileEvent` and of the models inside it.
unfoldable pub valid_event : Runtime → FileEvent → Bool
valid_event R e =
    e.schema_version == "1.2.0"
    && valid_ids e
    && valid_metadata R e.file_metadata
    && valid_location R e.storage_location
    && valid_security R e.security_context
    && holds_of (valid_result R) e.processing_result
    && holds_of valid_failure e.failure
    && valid_variant e

-- `FileEvent.model_validate` once pydantic has read the fields
unfoldable pub validate : Runtime → FileEvent → Result Exn FileEvent
validate R e = if valid_event R e then ok e else raised (validation "FileEvent")

abbrev suffix : Option String → String
suffix none = ""
suffix (some d) = ":" <> d

abbrev location_or : Option StorageLocation → StorageLocation → StorageLocation
location_or none l = l
location_or (some k) l = k

-- The name whose UUID v5 identifies an output event.
unfoldable pub occurrence : FileEvent → EventType → Option String → String
unfolding type_value
occurrence e t discriminator =
    "urn:fsamp:event:" <> e.event_id.text <> ":" <> type_value t <> suffix discriminator

-- The event that `with_new_event_type` builds, before its validation.
unfoldable pub derived :
    Runtime
    → Instant
    → FileEvent
    → EventType
    → Option ProcessingResultDetails
    → Option FailureDetails
    → Option StorageLocation
    → Option String
    → FileEvent
unfolding occurrence expected_source
derived R now e t result failed location discriminator = record e {
  event_id = record { text = R.uuid5 (occurrence e t discriminator); version = 5 };
  event_type = t;
  timestamp = now;
  source = expected_source t;
  processing_result = result;
  failure = failed;
  storage_location = location_or location e.storage_location;
}

unfoldable pub with_new_event_type :
    Runtime
    → Instant
    → FileEvent
    → EventType
    → Option ProcessingResultDetails
    → Option FailureDetails
    → Option StorageLocation
    → Option String
    → Result Exn FileEvent
unfolding derived validate
with_new_event_type R now e t result failed location discriminator =
    validate R (derived R now e t result failed location discriminator)
