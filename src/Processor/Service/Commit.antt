-- ===== src/Processor/Service/Commit.antt =====
-- What an upload that is processed successfully has verified and committed.
use fsamp_processor.Prelude.{◌≤◌, String, ◌≡◌, none, ok, bind-then, lift-then, pure-ok, subst, sym}
use fsamp_processor.Domain.Events.{Instant, Runtime, FileEvent, StorageLocation}
use fsamp_processor.Domain.Wire.{Wire}
use fsamp_processor.Domain.Models.{
  OutboxEvent, ProcessingClaim, ProcessingResult, ProcessingStatus, with_completion, FileContent,
}
use fsamp_processor.Processor.Ports.{Ports, Config}
use fsamp_processor.Processor.Checks.{validate_event_location, validate_declared_size, analyze_file}
use fsamp_processor.Processor.Failure.{persist_and_publish}
use fsamp_processor.Processor.Service.{completed_record, upload_metadata, process_uploaded_file}
use fsamp_processor.Processor.Service.Verified.{
  IsVerified, IsCompletion, destination, fetch_verified-ok, output_location-ok, completion_of-ok,
  within_limit,
}

module _ (R : Runtime) (W : Wire) (P : Ports) (S : Config) (e : FileEvent) where
  -- What a successful upload has committed before it returned.
  pub record IsCommitted (result : ProcessingResult) (claim : ProcessingClaim)
      (done : ProcessingResult) : Type 0 where
    pub content : FileContent
    pub file_hash : String
    pub started : Instant
    pub analyzed : Instant
    pub processed : Instant
    pub finished : Instant
    pub completion : FileEvent
    pub row : OutboxEvent
    pub before_commit : P.World
    pub after_commit : P.World
    pub trusted : validate_event_location S e ≡ ok tt
    pub small : e.file_metadata.file_size_bytes ≤ S.max_file_size
    pub object : IsVerified R W P S e content file_hash
    pub announced :
        IsCompletion R W P S e processed
          (analyze_file content file_hash analyzed)
          (destination R W P S e (analyze_file content file_hash analyzed))
          completion
          row
    pub committed :
        persist_and_publish R W P S
          (completed_record e started processed content
            (analyze_file content file_hash analyzed)
            (destination R W P S e (analyze_file content file_hash analyzed)))
          completion
          row
          claim
          before_commit
        ≡ (ok tt, after_commit)
    pub returned :
        with_completion finished result ProcessingStatus.completed none none
          (upload_metadata R W P S (analyze_file content file_hash analyzed) row)
        ≡ done

  committed_upload :
      (result : ProcessingResult) (claim : ProcessingClaim) (done : ProcessingResult)
      (content : FileContent) (file_hash : String) (started analyzed processed finished : Instant)
      (location : StorageLocation) (completion : FileEvent) (row : OutboxEvent) (w1 w2 : P.World)
      → validate_event_location S e ≡ ok tt
      → validate_declared_size S e ≡ ok tt
      → IsVerified R W P S e content file_hash
      → destination R W P S e (analyze_file content file_hash analyzed) ≡ location
      → IsCompletion R W P S e processed
          (analyze_file content file_hash analyzed)
          location
          completion
          row
      → persist_and_publish R W P S
          (completed_record e started processed content
            (analyze_file content file_hash analyzed)
            location)
          completion
          row
          claim
          w1
        ≡ (ok tt, w2)
      → with_completion finished result ProcessingStatus.completed none none
          (upload_metadata R W P S (analyze_file content file_hash analyzed) row)
        ≡ done
      → IsCommitted result claim done
  unfolding analyze_file
  committed_upload result claim done content file_hash started analyzed processed finished location
        completion row w1 w2 trusted small object placed announced committed returned =
      record {
        content = content;
        file_hash = file_hash;
        started = started;
        analyzed = analyzed;
        processed = processed;
        finished = finished;
        completion = completion;
        row = row;
        before_commit = w1;
        after_commit = w2;
        trusted = trusted;
        small = within_limit R W P S e small;
        object = object;
        announced =
            subst
              (λ l.
                IsCompletion R W P S e processed (analyze_file content file_hash analyzed) l
                  completion row)
              (sym placed) announced;
        committed =
            subst
              (λ l.
                persist_and_publish R W P S
                  (completed_record e started processed content
                    (analyze_file content file_hash analyzed) l)
                  completion row claim w1
                ≡ (ok tt, w2))
              (sym placed) committed;
        returned = returned;
      }

  pub process_uploaded_file-ok :
      (result : ProcessingResult) (claim : ProcessingClaim) (w : P.World) (done : ProcessingResult)
      (w' : P.World)
      → process_uploaded_file R W P S e result claim w ≡ (ok done, w')
      → IsCommitted result claim done
  unfolding process_uploaded_file analyze_file
  process_uploaded_file-ok result claim w done w' h = lift-then _ _ _ _ _ h λ u trusted h1.
      lift-then _ _ _ _ _ h1 λ u2 small h2. bind-then _ _ _ _ _ h2 λ started w1 p1 h3.
        bind-then _ _ _ _ _ h3 λ fetched w2 p2 h4. bind-then _ _ _ _ _ h4 λ analyzed wa pa h4a.
          bind-then _ _ _ _ _ h4a λ location w3 p3 h5. bind-then _ _ _ _ _ h5 λ processed w4 p4 h6.
            bind-then _ _ _ _ _ h6 λ announced w5 p5 h7. bind-then _ _ _ _ _ h7 λ u3 w6 p6 h8.
              bind-then _ _ _ _ _ h8 λ u4 w7 p7 h9. bind-then _ _ _ _ _ h9 λ finished w8 p8 h10.
                committed_upload result claim done fetched.0 fetched.1 started analyzed processed
                  finished location announced.0 announced.1 w5 w6 trusted small
                  (fetch_verified-ok R W P S e w1 fetched w2 p2)
                  (output_location-ok R W P S e (analyze_file fetched.0 fetched.1 analyzed) wa
                    location w3 p3)
                  (completion_of-ok R W P S e processed (analyze_file fetched.0 fetched.1 analyzed)
                    location w4 announced w5 p5)
                  p6 (pure-ok _ w8 done w' h10).0
