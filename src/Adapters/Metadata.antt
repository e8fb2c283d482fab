-- ===== src/Adapters/Metadata.antt =====
-- src/processor/adapters/outbound/dynamodb_repo.py: the metadata row `FILE#id` / `METADATA` and the
-- token-fenced lease on it.
pub mod Items
pub mod Lease
use fsamp_processor.Prelude.{
  ℕ, ◌+◌, ◌/◌, String, ◌<>◌, ◌==◌, Bool, true, false, ◌||◌, Option, none, some, List, [], ◌∷◌, ◌++◌,
  insert, Result, ok, raised, Exec, pure, raise, continue, ◌>>=◌, if◌then◌else◌, truthy, lookup,
}
use fsamp_processor.Domain.Errors.{Exn, client, ClientError, storage_error}
use fsamp_processor.Domain.Events.{Instant}
use fsamp_processor.Domain.Attributes.{Attr, text, number, Item, number_of, demand}
use fsamp_processor.Domain.Models.{ProcessingStatus, status_value, ProcessingClaim, MetadataRecord}
use fsamp_processor.Domain.Models.Metadata.{to_dynamodb_item, from_dynamodb_item, text_or}
use fsamp_processor.Dynamo.{
  Operand, value, if_not_exists, plus, Update, Condition, always, missing, equals, differs, up_to,
  both, either, Key, Request, Client,
}
use fsamp_processor.Dynamo.Lawful.{conditional_code}
use fsamp_processor.Adapters.Retry.{mem_text, aws_retry}

abbrev pub metadata_key : String → Key
metadata_key file_id = record { pk = "FILE#" <> file_id; sk = "METADATA" }

-- `apply_claim_fence`: what it adds to the update, and its condition
unfoldable pub fence_removes : List String
fence_removes = "processorClaimToken" ∷ "processorClaimExpiresAt" ∷ "processingEventId" ∷ []

unfoldable pub fence : ProcessingClaim → Condition
fence claim =
    both
      (both (equals "processorClaimToken" (text claim.token))
        (equals "processorClaimVersion" (number claim.version)))
      (equals "processingEventId" (text claim.event_id))

-- `is_conditional_failure`
unfoldable pub is_conditional_failure : ClientError → Bool
is_conditional_failure e = e.code == conditional_code

-- `f"{name} = {placeholder}"` for each item but those named
unfoldable pub assignments :
    List String → (String → Attr → Operand) → Item → List (String × Operand)
assignments except f [] = []
assignments except f ((k, a) ∷ i) =
    let rest = assignments except f i in if mem_text k except then rest else (k, f k a) ∷ rest

-- The attributes that a save never overwrites.
abbrev pub preserved : List String
preserved = "PK" ∷ "SK" ∷ "createdAt" ∷ "createdBy" ∷ []

unfoldable pub created_by_set : Option String → List (String × Operand)
created_by_set none = []
created_by_set (some t) =
    if truthy t then ("createdBy", if_not_exists "createdBy" (text t)) ∷ [] else []

-- The item whose attributes `build_metadata_update` assigns.
unfoldable pub updated_item : Instant → MetadataRecord → Item
updated_item now r = insert "updatedAt" (text now.iso) (
    insert "GSI1SK" (text now.iso) (
      insert "GSI1PK" (text ("STATUS#" <> status_value r.status))
        (to_dynamodb_item (record r { updated_at = some now.iso }))))

unfoldable pub build_metadata_update : Instant → MetadataRecord → List (String × Operand)
unfolding updated_item created_by_set
build_metadata_update now r =
    assignments preserved (λ k a. value a) (updated_item now r)
    ++ ("createdAt", if_not_exists "createdAt" (text (text_or r.created_at now.iso)))
      ∷ created_by_set r.created_by

abbrev pub Claim? : Type 0
Claim? = Option ProcessingClaim

unfoldable pub save_removes : Claim? → List String
unfolding fence_removes
save_removes none = []
save_removes (some c) = fence_removes

unfoldable pub save_condition : Claim? → Condition
unfolding fence
save_condition none = always
save_condition (some c) = fence c

unfoldable pub save_request : String → Instant → MetadataRecord → Claim? → Request
unfolding build_metadata_update save_removes save_condition
save_request table now r claim = record {
  table = table;
  key = metadata_key r.file_id;
  condition = save_condition claim;
  update = record { sets = build_metadata_update now r; removes = save_removes claim };
}

-- `except ClientError as error: raise StorageError(...) from error`
abbrev pub client_to_storage {ℓ} :
    {W : Type 0} {A : Type ℓ} → String → Result Exn A × W → Result Exn A × W
client_to_storage prefix (ok a, w) = (ok a, w)
client_to_storage prefix (raised (client e), w) =
    (raised (storage_error (prefix <> e.text) (client e)), w)
client_to_storage prefix (raised e, w) = (raised e, w)

-- The attributes that a claim leaves to the commit of its result.
abbrev pub claim_excepts : List String
claim_excepts =
    "PK" ∷ "SK" ∷ "status" ∷ "updatedAt" ∷ "errorMessage" ∷ "errorCode" ∷ "lastProcessedEventId"
    ∷ []

abbrev pub epoch : Instant → ℕ
epoch t = t.micros / 1000000

unfoldable pub claim_condition : String → Instant → Condition
claim_condition event_id now =
    both (either (missing "lastProcessedEventId") (differs "lastProcessedEventId" (text event_id)))
      (either (missing "processorClaimToken") (up_to "processorClaimExpiresAt" (epoch now)))

unfoldable pub claim_sets : Instant → String → MetadataRecord → String → ℕ → List (String × Operand)
claim_sets now token r event_id lease =
    (("status", value (text (status_value ProcessingStatus.processing)))
      ∷ ("GSI1PK", value (text ("STATUS#" <> status_value ProcessingStatus.processing)))
      ∷ ("GSI1SK", value (text now.iso))
      ∷ ("updatedAt", value (text now.iso))
      ∷ ("processorClaimToken", value (text token))
      ∷ ("processorClaimExpiresAt", value (number (epoch now + lease)))
      ∷ (
        "processorClaimVersion",
        plus (if_not_exists "processorClaimVersion" (number 0)) (value (number 1)),
      )
      ∷ ("processingEventId", value (text event_id))
      ∷ [])
    ++ assignments claim_excepts if_not_exists (to_dynamodb_item r)

unfoldable pub claim_request : String → Instant → String → MetadataRecord → String → ℕ → Request
unfolding claim_condition claim_sets
claim_request table now token r event_id lease = record {
  table = table;
  key = metadata_key r.file_id;
  condition = claim_condition event_id now;
  update = record {
    sets = claim_sets now token r event_id lease;
    removes = "errorMessage" ∷ "errorCode" ∷ [];
  };
}

module _ (C : Client) (table : String) where
  -- One attempt of `save`.
  unfoldable pub save_once : MetadataRecord → Claim? → Exec Exn C.World (Unit {0})
  unfolding save_request
  save_once r claim w =
      let (now, w1) = C.now w in
      continue
        (client_to_storage "Failed to save metadata record: "
          (C.update_item (save_request table now r claim) w1))
        (λ _. pure tt)

  unfoldable pub save : MetadataRecord → Claim? → Exec Exn C.World (Unit {0})
  unfolding save_once
  save r claim = aws_retry 3 (save_once r claim)

  -- The claim that the returned attributes describe.
  unfoldable pub read_claim : String → String → Item → Exec Exn C.World Claim?
  read_claim event_id token i w =
      continue (demand "processorClaimVersion" (number_of (lookup "processorClaimVersion" i)), w)
        λ version w.
          continue
            (demand "processorClaimExpiresAt" (number_of (lookup "processorClaimExpiresAt" i)), w)
            λ expires. pure (
              some (record {
                event_id = event_id;
                token = token;
                version = version;
                expires_at_epoch = expires;
              }))

  unfoldable pub refused_claim : Exn → Exec Exn C.World Claim?
  unfolding is_conditional_failure
  refused_claim (client e) w =
      if is_conditional_failure e
      then (ok none, w)
      else (raised (storage_error ("Failed to claim metadata record: " <> e.text) (client e)), w)
  refused_claim e w = (raised e, w)

  abbrev claim_reply : String → String → Result Exn Item × C.World → Result Exn Claim? × C.World
  claim_reply event_id token (ok i, w) = read_claim event_id token i w
  claim_reply event_id token (raised e, w) = refused_claim e w

  -- One attempt of `claim_processing`.
  unfoldable pub claim_once : MetadataRecord → String → ℕ → Exec Exn C.World Claim?
  unfolding claim_request read_claim refused_claim
  claim_once r event_id lease w =
      let (now, w1) = C.now w in
      let (token, w2) = C.uuid4 w1 in
      claim_reply event_id token (C.update_item (claim_request table now token r event_id lease) w2)

  unfoldable pub claim_processing : MetadataRecord → String → ℕ → Exec Exn C.World Claim?
  unfolding claim_once
  claim_processing r event_id lease = aws_retry 3 (claim_once r event_id lease)

  abbrev read_record : Instant → Option Item → Result Exn (Option MetadataRecord)
  read_record now none = ok none
  read_record now (some []) = ok none
  read_record now (some (a ∷ i)) = elim (from_dynamodb_item now (a ∷ i)) [
    | ok r ↦ ok (some r)
    | raised e ↦ raised e
  ]

  unfoldable pub get_once : String → Exec Exn C.World (Option MetadataRecord)
  get_once file_id w =
      continue
        (client_to_storage "Failed to get metadata record: "
          (C.get_item table (metadata_key file_id) w))
        λ item w. let (now, w1) = C.now w in (read_record now item, w1)

  unfoldable pub get_by_id : String → Exec Exn C.World (Option MetadataRecord)
  unfolding get_once
  get_by_id file_id = aws_retry 3 (get_once file_id)
