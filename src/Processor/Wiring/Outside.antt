-- ===== src/Processor/Wiring/Outside.antt =====
-- The adapters that src/processor/main.py gives the service beside the repositories.
use fsamp_processor.Prelude.{
  ℕ, ◌+◌, String, ◌≡◌, Option, none, some, List, Result, ok, raised, Exec, arith,
}
use fsamp_processor.Domain.Errors.{Exn, other}
use fsamp_processor.Domain.Events.{FileEvent}
use fsamp_processor.Domain.Models.{FileContent}
use fsamp_processor.Adapters.Storage as Storage
use fsamp_processor.Adapters.Storage.{S3}
use fsamp_processor.Adapters.Storage.Download.{IsDownloaded, download-IsDownloaded}
use fsamp_processor.Adapters.Crypto as Crypto
use fsamp_processor.Adapters.Crypto.{Kms, is_approved, without_dashes}
use fsamp_processor.Processor.Wiring.{Services}

-- The passes that are enough for a maximum. Without one, which the service never asks for, there are none.
abbrev passes : Option ℕ → ℕ
passes none = 0
passes (some n) = n + 2

abbrev within_passes :
    {W : Type 0} → Result Exn (Option FileContent) × W → Result Exn FileContent × W
within_passes (ok (some c), w) = (ok c, w)
within_passes (ok none, w) = (raised (other "no passes left"), w)
within_passes (raised x, w) = (raised x, w)

module _ {World : Type 0} (S : S3 World) (K : Kms World) (kms_key : String)
    (publish : FileEvent → Exec Exn World String) where
  abbrev pub storage_download : String → String → Option ℕ → Exec Exn World FileContent
  storage_download bucket key max_bytes w =
      within_passes (Storage.download S (passes max_bytes) bucket key max_bytes w)

  abbrev pub adapters : Services World
  adapters = record {
    download = storage_download;
    copy = Storage.copy S (some kms_key);
    delete = Storage.delete S;
    compute_hash = λ bytes algorithm w. (Crypto.compute_hash K bytes algorithm, w);
    publish = publish;
  }

  pub storage_download-IsDownloaded :
      (bucket key : String) (max_bytes : Option ℕ) (c : FileContent) (w w' : World)
      → storage_download bucket key max_bytes w ≡ (ok c, w')
      → IsDownloaded S bucket key max_bytes c w'
  storage_download-IsDownloaded bucket key max_bytes c w w' h =
      download-IsDownloaded S (passes max_bytes) bucket key max_bytes c w w' (found _ h)
    where
      found :
          (out : Result Exn (Option FileContent) × World)
          → within_passes out ≡ (ok c, w')
          → out ≡ (ok (some c), w')
      found (ok (some d), v) p = cc
      found (ok none, v) p = absurd (ground arith)
      found (raised x, v) p = absurd (ground arith)

  -- `upper` leaves the name of the algorithm as it is.
  pub sha256-digest :
      K.upper "SHA-256" ≡ "SHA-256"
      → (bytes : List ℕ) (digest : String) → Crypto.compute_hash K bytes "SHA-256" ≡ ok digest
      → K.hexdigest "SHA256" bytes ≡ digest
  unfolding Crypto.compute_hash without_dashes
  sha256-digest u bytes digest h = let h' = rw u at h in cc h'
