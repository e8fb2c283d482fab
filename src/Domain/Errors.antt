-- ===== src/Domain/Errors.antt =====
-- src/processor/domain/exceptions.py and the SDK's exceptions, as values. The `context` dict of a
-- domain error is left out: the program only logs it.
use fsamp_processor.Prelude.{ℕ, String, ◌<>◌, Bool, false, Option, none, some, or_present}

-- One constructor for each class of the hierarchy below `DomainError`.
pub data Kind : Type 0 where
  domain_error event_validation processing claim_unavailable storage crypto : Kind
  message configuration retryable_error non_retryable : Kind

unfoldable pub class_code : Kind → String
class_code domain_error = "DOMAIN_ERROR"
class_code event_validation = "EVENT_VALIDATION_ERROR"
class_code processing = "PROCESSING_ERROR"
class_code claim_unavailable = "PROCESSING_CLAIM_UNAVAILABLE"
class_code storage = "STORAGE_ERROR"
class_code crypto = "CRYPTO_ERROR"
class_code message = "MESSAGE_ERROR"
class_code configuration = "CONFIGURATION_ERROR"
class_code retryable_error = "RETRYABLE_ERROR"
class_code non_retryable = "NON_RETRYABLE_ERROR"

pub record DomainError : Type 0 where
  pub kind : Kind
  pub text : String
  pub error_code : String
  pub retryable : Bool

-- A `ClientError` of the SDK: its error code, HTTP status and message.
pub record ClientError : Type 0 where
  pub code : String
  pub status : ℕ
  pub text : String

pub data Exn : Type 0 where
  domain : DomainError → Exn
  caused : DomainError → Exn → Exn
  client : ClientError → Exn
  boto_core : String → Exn
  -- pydantic's `ValidationError` and Python's `ValueError`
  validation : String → Exn
  value_error : String → Exn
  key_error : String → Exn
  -- the publisher's `ClaimUnavailableError`
  lease_error : String → Exn
  other : String → Exn

-- `DomainError.__init__`: an empty or missing code falls back to the class's code.
unfoldable pub make_error : Kind → String → Option String → Bool → DomainError
unfolding class_code
make_error k text code retryable = record {
  kind = k;
  text = text;
  error_code = elim (or_present code none) [ none ↦ class_code k | some c ↦ c ];
  retryable = retryable;
}

unfoldable pub str_error : DomainError → String
str_error e = "[" <> e.error_code <> "] " <> e.text

-- `str(error)`
unfoldable pub str_exn : Exn → String
unfolding str_error
str_exn (domain e) = str_error e
str_exn (caused e c) = str_error e
str_exn (client e) = e.text
str_exn (boto_core t) = t
str_exn (validation t) = t
str_exn (value_error t) = t
str_exn (key_error t) = t
str_exn (lease_error t) = t
str_exn (other t) = t

abbrev pub non_retryable_error : String → String → Exn
non_retryable_error text code = domain (make_error non_retryable text (some code) false)

abbrev pub storage_error : String → Exn → Exn
storage_error text cause = caused (make_error storage text none false) cause

abbrev pub crypto_error : String → Exn
crypto_error text = domain (make_error crypto text none false)

abbrev pub crypto_caused : String → Exn → Exn
crypto_caused text cause = caused (make_error crypto text none false) cause
