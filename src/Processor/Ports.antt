-- ===== src/Processor/Ports.antt =====
-- The ports of the service (src/processor/ports/outbound.py) and its settings. An implementation of
-- the ports may raise anything; the clock is a port too.
use fsamp_processor.Prelude.{
  ℕ, String, ◌<>◌, ◌==◌, Bool, ◌&&◌, Option, List, Exec, if◌then◌else◌, or_text,
}
use fsamp_processor.Domain.Errors.{Exn}
use fsamp_processor.Domain.Events.{Instant, FileEvent}
use fsamp_processor.Domain.Models.{MetadataRecord, OutboxEvent, ProcessingClaim, FileContent}

pub record Ports : Type 1 where
  pub World : Type 0
  pub now : World → Instant × World
  -- MetadataRepository
  pub get_by_id : String → Exec Exn World (Option MetadataRecord)
  pub claim_processing : MetadataRecord → String → ℕ → Exec Exn World (Option ProcessingClaim)
  pub save : MetadataRecord → Option ProcessingClaim → Exec Exn World (Unit {0})
  -- OutboxRepository
  pub save_with_outbox :
      MetadataRecord → OutboxEvent → Option ProcessingClaim → Exec Exn World (Unit {0})
  -- FileStorage
  pub download : String → String → Option ℕ → Exec Exn World FileContent
  pub copy : String → String → String → String → Exec Exn World String
  pub delete : String → String → Exec Exn World (Unit {0})
  -- CryptoProvider
  pub compute_hash : List ℕ → String → Exec Exn World String
  -- EventPublisher
  pub publish : FileEvent → Exec Exn World String

-- The attributes that `__init__` sets.
pub record Config : Type 0 where
  pub max_file_size : ℕ
  pub use_outbox : Bool
  pub allowed_bucket : Option String
  pub allowed_region : Option String
  pub quarantine_prefix : String
  pub claim_ttl : ℕ

-- `text.strip("/")`
lstrip_slash : String → String
lstrip_slash String.[] = String.[]
lstrip_slash (String.◌∷◌ c s) =
    let rest = lstrip_slash s in if String.◌∷◌ c String.[] == "/" then rest else String.◌∷◌ c s

rstrip_slash : String → String
rstrip_slash String.[] = String.[]
rstrip_slash (String.◌∷◌ c s) = join (String.◌∷◌ c String.[]) (rstrip_slash s)
  where
    join : String → String → String
    join c String.[] = if c == "/" then String.[] else c
    join c (String.◌∷◌ d rest) = c <> String.◌∷◌ d rest

-- `__init__`; `has_outbox` says whether an outbox repository was given.
unfoldable pub make_config : ℕ → Bool → Bool → Option String → Option String → String → ℕ → Config
unfolding lstrip_slash rstrip_slash
make_config max_size use_outbox has_outbox bucket region prefix ttl = record {
  max_file_size = max_size;
  use_outbox = use_outbox && has_outbox;
  allowed_bucket = bucket;
  allowed_region = region;
  quarantine_prefix = or_text (rstrip_slash (lstrip_slash prefix)) "quarantine";
  claim_ttl = ttl;
}
