-- ===== src/Domain/Wire.antt =====
-- The JSON form of an event: pydantic writes and reads it, `json` writes and reads its text. Both are
-- parameters; the validators that pydantic then calls are those of `Validation`.
use fsamp_processor.Prelude.{String, ◌≡◌, Result, ok}
use fsamp_processor.Prelude.Fallible.{◌>>=◌}
use fsamp_processor.Domain.Errors.{Exn}
use fsamp_processor.Domain.Events.{Runtime, FileEvent}
use fsamp_processor.Domain.Validation.{validate}
use fsamp_processor.Domain.Attributes.{Json}

pub record Wire : Type 0 where
  -- `model_dump(mode="json", by_alias=True, exclude_none=True)`
  pub dump : FileEvent → Json
  -- the fields and their types, before the validators
  pub parse : Json → Result Exn FileEvent
  -- `json.dumps` and `json.loads`
  pub dumps : Json → String
  pub loads : String → Result Exn Json
  -- `json.dumps(value, separators=(",", ":"))`
  pub compact : Json → String

-- An event whose dump is read back.
pub record IsFaithful (W : Wire) (e : FileEvent) : Type 0 where
  pub parse-dump : W.parse (W.dump e) ≡ ok e
  pub loads-dumps : W.loads (W.dumps (W.dump e)) ≡ ok (W.dump e)

-- `FileEvent.model_validate(payload)`
unfoldable pub model_validate : Runtime → Wire → Json → Result Exn FileEvent
model_validate R W payload = do e ← W.parse payload; validate R e
