-- ===== src/Kb/Examples.antt =====
-- Banks at concrete rows and generations.
use image2prompt.Base.{
  ℕ, ◌+◌, ◌-◌, ◌≤◌, ◌≡◌, ◌≢◌, refl, String, true, false, sum_by, keep_if, none, some, [], ◌∷◌,
  arith, count_if, ◌==◌, eq_iff, opened, IsClean, success, failure,
}
use image2prompt.Kb.{ProjectKb, KbVector, Generation}
use image2prompt.Kb.Daos.{
  get_kb, docs_of, count_kbs, usage_by_customer, new_job, doc_exists, add_doc, get_ingest_job_by_id,
}
use image2prompt.Kb.Banks.{Env, State, db_of, list_docs, delete_kb}
use image2prompt.Kb.Ingest.{
  ingest_loop, round_of, put_doc, close_ingest, remaining_of, doc_text, ingest, Ingested, answered,
}
use image2prompt.Kb.Stores.{build_vector_store, sql_upsert}
use image2prompt.Kb.Jobs.{run_ingest_job, on_job, create_ingest_job}
use image2prompt.Kb.Counted.{ingest-answers, IsSound, start, next, ingested, closed}
use image2prompt.Kb.Sound.{reaches-IsSound}
use image2prompt.Kb.Usage.{usage_by_customer-totals}
use image2prompt.Kb.Tenants.{foreign_kb, delete_kb-removes}

abbrev kb : ProjectKb
kb = record {
  id = "k1";
  group_id = "g1";
  customer_id = "u1";
  project_id = "p1";
  name = "bank";
  tech_stack = "pgvector";
  doc_count = 0;
  backend_ready = true;
}

abbrev gen : String → Generation
gen id = record {
  id = some id;
  instruction = some "describe";
  prompts = [];
  project_id = none;
  file_ref_id = none;
}

abbrev env : Env ℕ
env = record {
  kb_require_subscription = true;
  subscription = λ c. record {
    has_subscription = true;
    stacks = "pgvector" ∷ [];
    plan_name = some "basic";
    max_kbs = some 2;
    max_docs_per_kb = some 1;
  };
  resolve = λ c ids. gen "a" ∷ gen "b" ∷ gen "a" ∷ [];
  embed = λ t. 7;
  third_party = λ stack. none;
}

abbrev s : State ℕ
s = record {
  session = opened (record { groups = []; kbs = kb ∷ []; documents = []; vectors = []; jobs = [] });
  mem = [];
}

found : get_kb "u1" "k1" (db_of s) ≡ success kb
unfolding get_kb
found = refl

readable : (id : String) → doc_text (gen id) ≢ none
unfolding doc_text
readable id e = ground arith

ingest-answers_example :
    (r : Ingested) × ((ingest env "u1" "k1" [] s).0 ≡ answered (success r))
    × (r.ingested + r.skipped ≡ 3)
    × (r.doc_count ≡ 0 + r.ingested)
    × (docs_of "k1" (db_of (ingest env "u1" "k1" [] s).1) ≡ docs_of "k1" (db_of s) + r.ingested)
    × ((cap : ℕ) → true ≡ true → some 1 ≡ some cap → r.ingested ≤ cap - 0)
    × IsClean (ingest env "u1" "k1" [] s).1.session
ingest-answers_example =
    ingest-answers env "u1" "k1" [] s kb found (readable "a", (readable "b", (readable "a", tt)))

s-IsSound : IsSound env s
s-IsSound = record {
  clean = refl;
  counted = record { counts = (refl, tt); unique = λ k g. ground arith };
}

reaches-IsSound_example : IsSound env (closed env (ingest env "u1" "k1" [] s))
reaches-IsSound_example =
    reaches-IsSound env s (closed env (ingest env "u1" "k1" [] s))
      (next start (ingested "u1" "k1" [])) s-IsSound

foreign_kb_example :
    (list_docs env "u2" "k1" s ≡ failure "not_found" "KB not found")
    × (ingest env "u2" "k1" [] s ≡ (answered (failure "not_found" "KB not found"), s))
    × (create_ingest_job env "j1" "u2" "k1" [] s ≡ (failure "not_found" "KB not found", s))
    × (delete_kb env "u2" "k1" s ≡ (failure "not_found" "KB not found", s))
foreign_kb_example =
    foreign_kb env "u2" "k1" "j1" [] s ((λ _ e. ground (arith, eq_iff "u1" "u2")), tt)

delete_kb-removes_example :
    (kb.id ≡ "k1")
    × ((delete_kb env "u1" "k1" s).0
        ≡ success (record { deleted_kbs = 1; deleted_docs = docs_of "k1" (db_of s) }))
    × (get_kb "u1" "k1" (db_of (delete_kb env "u1" "k1" s).1) ≡ failure "not_found" "KB not found")
    × (docs_of "k1" (db_of (delete_kb env "u1" "k1" s).1) ≡ 0)
    × ((other : String)
        → other ≢ "k1"
        → docs_of other (db_of (delete_kb env "u1" "k1" s).1) ≡ docs_of other (db_of s))
    × (kb.tech_stack ≡ "pgvector"
        → count_if
            (λ (v : KbVector ℕ). v.kb_id == "k1")
            (db_of (delete_kb env "u1" "k1" s).1).vectors
          ≡ 0)
    × IsClean (delete_kb env "u1" "k1" s).1.session
delete_kb-removes_example = delete_kb-removes env "u1" "k1" s kb found

usage_by_customer-totals_example :
    (sum_by (λ u. u.kb_count) (usage_by_customer "u1" (db_of s)) ≡ count_kbs "u1" (db_of s))
    × (sum_by (λ u. u.doc_count) (usage_by_customer "u1" (db_of s))
        ≡ sum_by (λ k. k.doc_count) (keep_if (λ k. k.customer_id == "u1") (db_of s).kbs))
    × ((t : String) → count_if (λ u. u.stack == t) (usage_by_customer "u1" (db_of s)) ≤ 1)
usage_by_customer-totals_example = usage_by_customer-totals "u1" (db_of s)

-- a generation whose first prompt has no text makes the ingest throw
abbrev broken : Generation
broken = record (gen "b") { prompts = record { output_text = none; provider_key = none } ∷ [] }

abbrev broken_env : Env ℕ
broken_env = record env {
  kb_require_subscription = false;
  resolve = λ c ids. gen "a" ∷ broken ∷ [];
}

abbrev queued : State ℕ
queued = record s {
  session = opened (record {
    groups = [];
    kbs = kb ∷ [];
    documents = [];
    vectors = [];
    jobs = new_job "j1" "u1" "k1" ("a" ∷ "b" ∷ []) ∷ [];
  });
}

-- the job that fails has committed a document that the bank's count does not know
job-miscounts :
    (docs_of "k1" (run_ingest_job broken_env "j1" "KeyError" queued).1.session.durable ≡ 1)
    × ((run_ingest_job broken_env "j1" "KeyError" queued).1.session.durable.kbs ≡ kb ∷ [])
unfolding run_ingest_job on_job ingest ingest_loop round_of doc_text put_doc close_ingest
    remaining_of get_ingest_job_by_id new_job doc_exists add_doc get_kb build_vector_store
    sql_upsert
job-miscounts = (refl, refl)
