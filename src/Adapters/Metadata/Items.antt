-- ===== src/Adapters/Metadata/Items.antt =====
-- Which attributes the requests of the metadata repository set.
use fsamp_processor.Prelude.{
  ℕ, ◌+◌, String, ◌==◌, ◌≡◌, refl, Bool, false, Option, none, some, List, [], ◌∷◌, ◌++◌, insert,
  or_else, if◌then◌else◌, arith, eq_iff,
}
use fsamp_processor.Domain.Attributes.{Attr, text, number, Item, optional_text, stored_text}
use fsamp_processor.Domain.Events.{Instant}
use fsamp_processor.Domain.Models.{MetadataRecord, status_value, ProcessingStatus}
use fsamp_processor.Domain.Models.Metadata.{
  to_dynamodb_item, required_fields, optional_flag, optional_texts, optional_number, checksum_item,
}
use fsamp_processor.Domain.Models.Metadata.RoundTrip.{
  stored_flag, stored_texts, stored_number, stored_checksum, or_else-none,
}
use fsamp_processor.Dynamo.{Operand, value, if_not_exists, plus}
use fsamp_processor.Dynamo.Semantics.{assigned, assigned-append, assigned-cons, assigned-nil}
use fsamp_processor.Adapters.Retry.{mem_text}
use fsamp_processor.Adapters.Metadata.{
  assignments, preserved, created_by_set, updated_item, build_metadata_update, claim_sets, epoch,
}

abbrev pub mapped {ℓ κ} : {A : Type ℓ} {B : Type κ} → (A → B) → Option A → Option B
mapped f none = none
mapped f (some a) = some (f a)

module _ (except : List String) (f : String → Attr → Operand) (k : String) where
  abbrev In : Item → Option Operand
  In i = assigned k (assignments except f i)

  In-nil : In [] ≡ none
  unfolding assignments assigned
  In-nil = refl

  In-cons :
      (n : String) (a : Attr) (i : Item)
      → In ((n, a) ∷ i)
        ≡ or_else (In i) (if mem_text n except then none else if n == k then some (f n a) else none)
  unfolding assignments assigned
  In-cons n a i = ground (arith, or_else-none (In i))

  In-append : (i j : Item) → In (i ++ j) ≡ or_else (In j) (In i)
  In-append [] j = unfold assignments assigned in ground (arith, or_else-none (In j))
  In-append ((n, a) ∷ i) j = ground (arith, In-cons n a i, In-cons n a (i ++ j), In-append i j)

  abbrev segment : String → Option Attr → Option Operand
  segment n a = if mem_text n except then none else if n == k then mapped (f n) a else none

  In-optional_text :
      (n : String) (v : Option String) → In (optional_text n v) ≡ segment n (stored_text v)
  unfolding optional_text assignments assigned
  In-optional_text n none = ground arith
  In-optional_text n (some t) = ground arith

  In-optional_flag :
      (n : String) (v : Option Bool) → In (optional_flag n v) ≡ segment n (stored_flag v)
  unfolding optional_flag assignments assigned
  In-optional_flag n none = ground arith
  In-optional_flag n (some b) = ground arith

  In-optional_texts :
      (n : String) (v : List String) → In (optional_texts n v) ≡ segment n (stored_texts v)
  unfolding optional_texts assignments assigned
  In-optional_texts n [] = ground arith
  In-optional_texts n (t ∷ l) = ground arith

  In-optional_number :
      (n : String) (v : Option ℕ) → In (optional_number n v) ≡ segment n (stored_number v)
  unfolding optional_number assignments assigned
  In-optional_number n none = ground arith
  In-optional_number n (some ℕ.zero) = ground arith
  In-optional_number n (some (ℕ.suc m)) = ground arith

  In-checksum_item :
      (c : Option String)
      → In (checksum_item c)
        ≡ or_else
            (segment "checksumAlgorithm" (stored_checksum c))
            (segment "checksumSHA256" (stored_text c))
  unfolding checksum_item assignments assigned
  In-checksum_item none = ground arith
  In-checksum_item (some t) = ground arith

  -- An insertion under another name changes nothing.
  In-insert : (n : String) (a : Attr) (i : Item) → (n == k) ≡ false → In (insert n a i) ≡ In i
  unfolding insert assignments assigned
  In-insert n a [] h = ground arith
  In-insert n a ((m, b) ∷ i) h = ground (arith, eq_iff m n, eq_iff n k, In-insert n a i h)

ruleset In_laws = (
  In-nil, In-cons, In-append, In-optional_text, In-optional_flag, In-optional_texts,
  In-optional_number, In-checksum_item, assigned-append, assigned-cons, assigned-nil, or_else-none,
)

-- Names that a save treats by themselves.
abbrev IsPlain : String → Type 0
IsPlain k =
    (("updatedAt" == k) ≡ false)
    × (("GSI1SK" == k) ≡ false)
    × (("GSI1PK" == k) ≡ false)
    × (("createdAt" == k) ≡ false)
    × (("createdBy" == k) ≡ false)

abbrev direct : String → Attr → Operand
direct k a = value a

module _ (now : Instant) (r : MetadataRecord) where
  assigned-created_by_set :
      (k : String) (v : Option String)
      → ("createdBy" == k) ≡ false
      → assigned k (created_by_set v) ≡ none
  unfolding created_by_set assigned
  assigned-created_by_set k none h = refl
  assigned-created_by_set k (some t) h = ground arith

  -- What a save assigns to a plain name is what the record's item holds.
  assigned-build_metadata_update :
      (k : String)
      → IsPlain k
      → assigned k (build_metadata_update now r)
        ≡ In preserved direct k (to_dynamodb_item (record r { updated_at = some now.iso }))
  assigned-build_metadata_update k (u, s, p, c, b) =
      unfold build_metadata_update updated_item in
      rw assigned-append (
        rw (assigned-cons, assigned-created_by_set k r.created_by b)
          (rw (c, In-insert preserved direct k "updatedAt" _ _ u)
            (rw (In-insert preserved direct k "GSI1SK" _ _ s)
              (rw (In-insert preserved direct k "GSI1PK" _ _ p)))))

  pub save_token : assigned "processorClaimToken" (build_metadata_update now r) ≡ none
  unfolding to_dynamodb_item required_fields mem_text
  save_token = rw (assigned-build_metadata_update _ (refl, refl, refl, refl, refl)) (simp In_laws)

  pub save_version : assigned "processorClaimVersion" (build_metadata_update now r) ≡ none
  unfolding to_dynamodb_item required_fields mem_text
  save_version = rw (assigned-build_metadata_update _ (refl, refl, refl, refl, refl)) (simp In_laws)

  pub save_status :
      assigned "status" (build_metadata_update now r) ≡ some (value (text (status_value r.status)))
  unfolding to_dynamodb_item required_fields mem_text
  save_status = rw (assigned-build_metadata_update _ (refl, refl, refl, refl, refl)) (simp In_laws)

  pub save_last :
      assigned "lastProcessedEventId" (build_metadata_update now r)
      ≡ mapped value (stored_text r.last_processed_event_id)
  unfolding to_dynamodb_item required_fields mem_text
  save_last = rw (assigned-build_metadata_update _ (refl, refl, refl, refl, refl)) (simp In_laws)

module _ (now : Instant) (token : String) (r : MetadataRecord) (event_id : String) (lease : ℕ) where
  abbrev pub sets : List (String × Operand)
  sets = claim_sets now token r event_id lease

  pub claim_token : assigned "processorClaimToken" sets ≡ some (value (text token))
  unfolding claim_sets to_dynamodb_item required_fields mem_text
  claim_token = simp In_laws

  pub claim_version :
      assigned "processorClaimVersion" sets
      ≡ some (plus (if_not_exists "processorClaimVersion" (number 0)) (value (number 1)))
  unfolding claim_sets to_dynamodb_item required_fields mem_text
  claim_version = simp In_laws

  pub claim_expiry :
      assigned "processorClaimExpiresAt" sets ≡ some (value (number (epoch now + lease)))
  unfolding claim_sets to_dynamodb_item required_fields mem_text
  claim_expiry = simp In_laws

  pub claim_event : assigned "processingEventId" sets ≡ some (value (text event_id))
  unfolding claim_sets to_dynamodb_item required_fields mem_text
  claim_event = simp In_laws

  pub claim_status :
      assigned "status" sets ≡ some (value (text (status_value ProcessingStatus.processing)))
  unfolding claim_sets to_dynamodb_item required_fields mem_text
  claim_status = simp In_laws

  pub claim_last : assigned "lastProcessedEventId" sets ≡ none
  unfolding claim_sets to_dynamodb_item required_fields mem_text
  claim_last = simp In_laws
