-- ===== src/Kb.antt =====
-- services/kb-service/app/models.py, services/kb-service/app/tech_stacks.py and the answers of
-- services/kb-service/app/services/clients.py: the tables of the knowledge banks, as lists of rows in
-- the order of insertion. Primary keys that no code reads, and time stamps, are left out.
pub mod Stores
pub mod Daos
pub mod Banks
pub mod Ingest
pub mod Jobs
pub mod Growth
pub mod Counted
pub mod Purged
pub mod Sound
pub mod Tenants
pub mod Usage
pub mod Examples
use image2prompt.Base.{ℕ, String, Bool, Option, List, [], ◌∷◌, contains}

pub record KbGroup : Type 0 where
  pub id : String
  pub customer_id : String
  pub project_id : String
  pub name : String

pub record ProjectKb : Type 0 where
  pub id : String
  pub group_id : String
  pub customer_id : String
  pub project_id : String
  pub name : String
  pub tech_stack : String
  pub doc_count : ℕ
  pub backend_ready : Bool

-- the dict `payload` of an ingested generation
pub record Payload : Type 0 where
  pub generation_id : String
  pub title : String
  pub project_id : Option String
  pub file_ref_id : Option String

pub record KbDocument : Type 0 where
  pub kb_id : String
  pub generation_id : String
  pub title : String
  pub meta : Payload

-- a vector of the embedder's type V
pub record KbVector (V : Type 0) : Type 0 where
  pub kb_id : String
  pub doc_id : String
  pub vector : V
  pub payload : Payload

pub data JobStatus : Type 0 where
  pending : JobStatus
  running : JobStatus
  done : JobStatus
  error : JobStatus

pub record KbIngestJob : Type 0 where
  pub id : String
  pub kb_id : String
  pub customer_id : String
  pub status : JobStatus
  pub requested_ids : List String
  pub requested : ℕ
  pub ingested : ℕ
  pub skipped : ℕ
  pub error_text : Option String

pub record KbDb (V : Type 0) : Type 0 where
  pub groups : List KbGroup
  pub kbs : List ProjectKb
  pub documents : List KbDocument
  pub vectors : List (KbVector V)
  pub jobs : List KbIngestJob

-- TECH_STACKS
abbrev pub tech_stacks : List String
tech_stacks =
    "bedrock" ∷ "opensearch" ∷ "pgvector" ∷ "mongodb" ∷ "weaviate" ∷ "pinecone" ∷ "chroma" ∷ "neo4j"
    ∷ []

unfoldable pub is_valid_stack : String → Bool
is_valid_stack stack = contains tech_stacks stack

-- what the admin service answers for a customer's plan; a limit that is absent is `none`, the
-- name of a stack that is absent is ""
pub record Subscription : Type 0 where
  pub has_subscription : Bool
  pub stacks : List String
  pub plan_name : Option String
  pub max_kbs : Option ℕ
  pub max_docs_per_kb : Option ℕ

-- A prompt of a resolved generation: the outer option says whether the key is there, the inner one
-- whether its value is null.
pub record Prompt : Type 0 where
  pub output_text : Option (Option String)
  pub provider_key : Option (Option String)

pub record Generation : Type 0 where
  pub id : Option String
  pub instruction : Option String
  pub prompts : List Prompt
  pub project_id : Option String
  pub file_ref_id : Option String
