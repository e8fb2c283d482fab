-- ===== src/Tests/Storage.antt =====
-- The S3 storage over a bucket in memory, and its theorems at concrete data.
use fsamp_processor.Prelude.{
  ℕ, suc, ◌≡◌, ◌≢◌, refl, none, some, List, [], ◌∷◌, Option, Result, ok, Dict, ◌>>=◌, String, size,
  arith,
}
use fsamp_processor.Domain.Errors.{Exn}
use fsamp_processor.Adapters.Retry.{aws_retry}
use fsamp_processor.Adapters.Storage.{
  S3, Response, content_of, read_chunks, read_body, fetch, download_once, download, upload, copy,
}
use fsamp_processor.Adapters.Storage.Download.{
  IsDownloaded, download-IsDownloaded, download-some, download_once-closes,
}
use fsamp_processor.Adapters.Storage.Encryption.{KeptByKms, writes-IsKms}

-- The chunks that the stream still has, the number of closed bodies, and the encryptions of the
-- objects that were written.
abbrev Disk : Type 0
Disk = List (List ℕ) × ℕ × List String

abbrev next_chunk : Disk → Result Exn (List ℕ) × Disk
next_chunk ([], n, l) = (ok [], ([], n, l))
next_chunk (c ∷ cs, n, l) = (ok c, (cs, n, l))

abbrev response : Response
response = record {
  declared_length = 3;
  content_type = some "text/plain";
  etag = "\"e\"";
  encryption = some "aws:kms";
  kms_key = some "key-1";
}

abbrev bucket : S3 Disk
bucket = record {
  Body = Unit;
  get_object = λ b k w. (ok (response, tt), w);
  read = λ body n w. next_chunk w;
  close = λ body w. (ok tt, (w.0, suc w.1, w.2));
  put_object = λ r w. (ok "\"e\"", (w.0, w.1, r.encryption ∷ w.2));
  copy_object = λ r w. (ok "\"e\"", (w.0, w.1, r.encryption ∷ w.2));
  head_object = λ b k w. (ok tt, w);
  delete_object = λ b k w. (ok tt, w);
}

abbrev disk : Disk
disk = ((104 ∷ 105 ∷ []) ∷ (33 ∷ []) ∷ [], 0, [])

abbrev bytes : List ℕ
bytes = 104 ∷ 105 ∷ 33 ∷ []

download-IsDownloaded_example :
    IsDownloaded bucket "uploads" "in/a" (some 5) (content_of response bytes) ([], 1, [])
unfolding download aws_retry download_once fetch read_body read_chunks size ◌>>=◌
download-IsDownloaded_example =
    download-IsDownloaded bucket 7 "uploads" "in/a" (some 5) (content_of response bytes) disk
      ([], 1, []) refl

download-some_example : (download bucket 7 "uploads" "in/a" (some 5) disk).0 ≢ ok none
download-some_example = download-some bucket 7 5 "uploads" "in/a" disk (omega arith)

download_once-closes_example :
    (u : Disk) × ((download_once bucket 2 "uploads" "in/a" (some 1) disk).1 ≡ (bucket.close tt u).1)
download_once-closes_example =
    download_once-closes bucket 2 "uploads" "in/a" (some 1) response tt disk disk refl

-- Every object was written with KMS.
abbrev AllKms : List String → Type 0
AllKms [] = Unit
AllKms (e ∷ l) = (e ≡ "aws:kms") × AllKms l

abbrev Safe : Disk → Type 0
Safe w = AllKms w.2

kept : KeptByKms bucket Safe
kept = record { put = λ r w k p. (k.0, p); copied = λ r w k p. (k.0, p) }

writes-IsKms_example :
    ((b k : String) (body : List ℕ) (t : Option String) (m : Dict String)
      → Safe (upload bucket (some "key-1") b k body t m disk).1)
    × ((sb sk b k : String) → Safe (copy bucket (some "key-1") sb sk b k disk).1)
writes-IsKms_example = writes-IsKms bucket Safe kept (some "key-1") disk tt
