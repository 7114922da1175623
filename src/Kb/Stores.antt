-- ===== src/Kb/Stores.antt =====
-- services/kb-service/app/services/vectorstores: base.py (the in-process index), sql.py, and the
-- registry of __init__.py. The six stores over third-party clients are parameters. Ranking by cosine
-- needs floating point and is not modelled.
use image2prompt.Base.{
  String, Bool, true, false, not, ◌&&◌, List, [], ◌∷◌, ◌++◌, keep_if, ◌==◌, if◌then◌else◌, Option,
  none, some,
}
use image2prompt.Kb.{Payload, KbVector, KbDb}

-- a row of `_MEM`, with its key (stack, namespace)
pub record MemRow (V : Type 0) : Type 0 where
  pub stack : String
  pub row : KbVector V

-- what the stores change: the tables of the open transaction, and the process's own index
pub record Index (V : Type 0) : Type 0 where
  pub db : KbDb V
  pub mem : List (MemRow V)

pub record VectorStore (V : Type 0) : Type 0 where
  pub ready : Bool
  pub upsert : (namespace doc_id : String) → V → (text : String) → Payload → Index V → Index V
  pub delete_namespace : (namespace : String) → Index V → Index V

-- A store over a third-party client: it works outside the tables, or on the in-process index.
pub record ThirdParty (V : Type 0) : Type 0 where
  pub ready : Bool
  pub upsert :
      (namespace doc_id : String)
      → V
      → (text : String) → Payload
      → List (MemRow V)
      → List (MemRow V)
  pub delete_namespace : (namespace : String) → List (MemRow V) → List (MemRow V)

module _ {V : Type 0} where
  abbrev pub outside : ThirdParty V → VectorStore V
  outside t = record {
    ready = t.ready;
    upsert = λ namespace doc_id vector text payload i. record i {
      mem = t.upsert namespace doc_id vector text payload i.mem;
    };
    delete_namespace = λ namespace i. record i { mem = t.delete_namespace namespace i.mem };
  }

  abbrev pub in_namespace : String → String → MemRow V → Bool
  in_namespace stack namespace r = r.stack == stack && r.row.kb_id == namespace

  -- _mem_upsert
  unfoldable pub mem_upsert : String → KbVector V → Index V → Index V
  mem_upsert stack v i = record i {
    mem =
        keep_if (λ r. not (in_namespace stack v.kb_id r && r.row.doc_id == v.doc_id)) i.mem
        ++ record { stack = stack; row = v } ∷ [];
  }

  -- _mem_delete
  unfoldable pub mem_delete : String → String → Index V → Index V
  mem_delete stack namespace i = record i {
    mem = keep_if (λ r. not (in_namespace stack namespace r)) i.mem;
  }

  -- VectorStore
  abbrev pub memory_store : VectorStore V
  memory_store = record {
    ready = false;
    upsert = λ namespace doc_id vector text payload.
        mem_upsert "memory"
          (record { kb_id = namespace; doc_id = doc_id; vector = vector; payload = payload });
    delete_namespace = mem_delete "memory";
  }

  abbrev pub is_vector : String → String → KbVector V → Bool
  is_vector namespace doc_id v = v.kb_id == namespace && v.doc_id == doc_id

  -- SqlVectorStore.upsert
  unfoldable pub sql_upsert : KbVector V → Index V → Index V
  sql_upsert v i = record i {
    db = record i.db {
      vectors = keep_if (λ w. not (is_vector v.kb_id v.doc_id w)) i.db.vectors ++ v ∷ [];
    };
  }

  -- SqlVectorStore.delete_namespace
  unfoldable pub sql_delete : String → Index V → Index V
  sql_delete namespace i = record i {
    db = record i.db { vectors = keep_if (λ w. not (w.kb_id == namespace)) i.db.vectors };
  }

  abbrev pub sql_store : VectorStore V
  sql_store = record {
    ready = true;
    upsert = λ namespace doc_id vector text payload.
        sql_upsert
          (record { kb_id = namespace; doc_id = doc_id; vector = vector; payload = payload });
    delete_namespace = sql_delete;
  }

  -- build_vector_store; `third_party` is the rest of _REGISTRY
  unfoldable pub build_vector_store : (String → Option (ThirdParty V)) → String → VectorStore V
  build_vector_store third_party stack =
      if stack == "pgvector"
      then sql_store
      else elim (third_party stack) [ none ↦ memory_store | some client ↦ outside client ]
