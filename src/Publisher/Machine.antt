-- ===== src/Publisher/Machine.antt =====
-- The abstract machine of an outbox row, apart from its attributes: what a row is to the publishers.
use fsamp_processor.Prelude.{ℕ, ◌+◌, ◌≤◌, ◌<◌, String, ◌≡◌, ◌≢◌, Option, none, some, arith}
use fsamp_processor.Domain.Models.{OutboxStatus}

-- The status, the failed attempts and the holder of the lease.
pub record View : Type 0 where
  pub status : OutboxStatus
  pub failures : ℕ
  pub owner : Option String

pub data Move (limit : ℕ) (v u : View) : Type 0 where
  claim :
      (token : String)
      → v.status ≢ OutboxStatus.published
      → v.failures < limit
      → u ≡ record { status = OutboxStatus.publishing; failures = v.failures; owner = some token }
      → Move limit v u
  publish :
      (token : String)
      → v.status ≡ OutboxStatus.publishing
      → v.owner ≡ some token
      → u ≡ record { status = OutboxStatus.published; failures = v.failures; owner = none }
      → Move limit v u
  fail :
      (token : String)
      → v.status ≡ OutboxStatus.publishing
      → v.owner ≡ some token
      → u ≡ record { status = OutboxStatus.failed; failures = v.failures + 1; owner = none }
      → Move limit v u

-- A lease is held only while there are retries left, and the failures stay within the limit.
pub record IsSound (limit : ℕ) (v : View) : Type 0 where
  pub bounded : v.failures ≤ limit
  pub leased_below : v.status ≡ OutboxStatus.publishing → v.failures < limit

pub Move-IsSound : (limit : ℕ) (v u : View) → Move limit v u → IsSound limit v → IsSound limit u
Move-IsSound limit v u (claim token s h e) i = ground arith
Move-IsSound limit v u (publish token s o e) i = ground arith
Move-IsSound limit v u (fail token s o e) i = ground (arith, i.leased_below s)

-- Nothing moves a published row.
pub published-not-Move :
    (limit : ℕ) (v u : View) → v.status ≡ OutboxStatus.published → ¬ Move limit v u
published-not-Move limit v u p (claim token s h e) = s p
published-not-Move limit v u p (publish token s o e) = ground arith
published-not-Move limit v u p (fail token s o e) = ground arith
