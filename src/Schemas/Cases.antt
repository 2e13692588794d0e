-- ===== src/Schemas/Cases.antt =====
-- packages/schemas/cases.py and documents.py. A distance is a float that the program only hands on:
-- it is counted in some fixed unit here.
use multi_agent_system.Base.{ℕ, String, List, Option, Bool, true, false, Uuid, DateTime}

pub data CaseStatus : Type 0 where
  new in_review pending_approval approved rejected review_failed : CaseStatus

abbrev pub same_case_status : CaseStatus → CaseStatus → Bool
same_case_status CaseStatus.new CaseStatus.new = true
same_case_status CaseStatus.in_review CaseStatus.in_review = true
same_case_status CaseStatus.pending_approval CaseStatus.pending_approval = true
same_case_status CaseStatus.approved CaseStatus.approved = true
same_case_status CaseStatus.rejected CaseStatus.rejected = true
same_case_status CaseStatus.review_failed CaseStatus.review_failed = true
same_case_status _ _ = false

pub record DocumentInput : Type 0 where
  pub title : String
  pub content : String
  pub source_uri : Option String

pub record SupplierCaseCreate : Type 0 where
  pub supplier_name : String
  pub description : String
  pub documents : List DocumentInput

pub record SupplierCase : Type 0 where
  pub id : Uuid
  pub tenant_id : String
  pub supplier_name : String
  pub description : String
  pub status : CaseStatus
  pub documents : List DocumentInput
  pub created_at : DateTime
  pub updated_at : DateTime

pub record DocumentChunk : Type 0 where
  pub id : Uuid
  pub document_id : Uuid
  pub case_id : Uuid
  pub position : ℕ
  pub heading : Option (List ℕ)
  pub content : List ℕ
  pub token_count : ℕ

pub record RetrievedChunk : Type 0 where
  pub chunk : DocumentChunk
  pub open chunk use *
  pub document_title : String
  pub source_uri : Option String
  pub distance : ℕ

pub record IndexResult : Type 0 where
  pub case_id : Uuid
  pub document_count : ℕ
  pub chunk_count : ℕ
  pub embedding_backend : String
