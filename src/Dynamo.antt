-- ===== src/Dynamo.antt =====
-- The requests that the program sends to DynamoDB, as syntax. The placeholders of an expression
-- (`#name`, `:value`) are replaced by what they stand for. The service is the parameter `Client`.
pub mod Semantics
pub mod Lawful
use fsamp_processor.Prelude.{ℕ, String, List, Option, Exec}
use fsamp_processor.Domain.Errors.{Exn}
use fsamp_processor.Domain.Events.{Instant}
use fsamp_processor.Domain.Attributes.{Attr, Item}

-- The right side of an assignment in a `SET` clause.
pub data Operand : Type 0 where
  value : Attr → Operand
  if_not_exists : String → Attr → Operand
  plus : Operand → Operand → Operand

pub record Update : Type 0 where
  pub sets : List (String × Operand)
  pub removes : List String

pub data Condition : Type 0 where
  always : Condition
  exists missing : String → Condition
  equals differs : String → Attr → Condition
  -- `name < n` and `name <= n`
  below up_to : String → ℕ → Condition
  both either : Condition → Condition → Condition

pub record Key : Type 0 where
  pub pk : String
  pub sk : String

pub record Request : Type 0 where
  pub table : String
  pub key : Key
  pub condition : Condition
  pub update : Update

pub record Put : Type 0 where
  pub table : String
  pub item : Item
  pub condition : Condition

-- The outside of one process: the clock, fresh identifiers and the DynamoDB client. Any call may
-- raise.
pub record Client : Type 1 where
  pub World : Type 0
  pub now : World → Instant × World
  pub uuid4 : World → String × World
  pub get_item : String → Key → Exec Exn World (Option Item)
  -- with `ReturnValues="ALL_NEW"`
  pub update_item : Request → Exec Exn World Item
  -- one update and one put, with a client request token
  pub transact_write_items : String → Request → Put → Exec Exn World (Unit {0})
