-- ===== src/Kb/Tenants.antt =====
-- Whose banks a request reaches, what a deletion removes, and when a new bank is allowed.
use image2prompt.Base.{
  ◌≡◌, ◌≢◌, refl, String, Bool, not, ◌&&◌, ◌||◌, none, List, [], ◌∷◌, All, contains, count_if,
  keep_if, find?, ◌==◌, eq_iff, arith, IsClean, success, failure, succeeded,
}
use image2prompt.Kb.{ProjectKb, KbDocument, KbDb, KbVector, is_valid_stack}
use image2prompt.Kb.Stores.{build_vector_store, sql_delete}
use image2prompt.Kb.Daos
use image2prompt.Kb.Daos.{get_kb, delete_kb_row, docs_of}
use image2prompt.Kb.Banks
use image2prompt.Kb.Banks.{
  Env, State, db_of, list_docs, purge_kb, delete_kb, gate, insert_kb, create_kb, plan_refusal,
}
use image2prompt.Kb.Ingest.{answered, ingest}
use image2prompt.Kb.Growth.{delete_namespace-kbs}
use image2prompt.Kb.Counted.{find?-kb, found_kb}
use image2prompt.Kb.Purged.{All-unit, count_if-keep_if}
use image2prompt.Kb.Sound.{purge_kb-Purged}
use image2prompt.Kb.Jobs.{create_ingest_job}

get_kb-foreign :
    {V : Type 0} (customer_id kb_id : String) (d : KbDb V)
    → All (λ k. k.id ≡ kb_id → k.customer_id ≢ customer_id) d.kbs
    → get_kb customer_id kb_id d ≡ failure "not_found" "KB not found"
unfolding get_kb
get_kb-foreign customer_id kb_id d h = go d.kbs h
  where
    go :
        (ks : List ProjectKb)
        → All (λ k. k.id ≡ kb_id → k.customer_id ≢ customer_id) ks
        → Daos.own_kb customer_id (find? (λ k. k.id == kb_id) ks)
          ≡ failure "not_found" "KB not found"
    go [] a = refl
    go (k ∷ ks) (p, a) =
        ground (arith, go ks a, p, eq_iff k.id kb_id, eq_iff k.customer_id customer_id)

count_if-keep_if-not :
    {A : Type 0} (p : A → Bool) (xs : List A) → count_if p (keep_if (λ x. not (p x)) xs) ≡ 0
count_if-keep_if-not p [] = refl
count_if-keep_if-not p (x ∷ xs) = ground (arith, count_if-keep_if-not p xs)

find?-keep_if-not :
    {A : Type 0} (p : A → Bool) (xs : List A) → find? p (keep_if (λ x. not (p x)) xs) ≡ none
find?-keep_if-not p [] = refl
find?-keep_if-not p (x ∷ xs) = ground (arith, find?-keep_if-not p xs)

module _ {V : Type 0} (env : Env V) where
  -- A customer who names a bank that is not theirs is told that it does not exist, by the listing of
  -- its documents, the ingest, the ingest job and the deletion, and none of them changes anything.
  pub foreign_kb :
      (customer_id kb_id job_id : String) (ids : List String) (s : State V)
      → All (λ k. k.id ≡ kb_id → k.customer_id ≢ customer_id) (db_of s).kbs
      → (list_docs env customer_id kb_id s ≡ failure "not_found" "KB not found")
        × (ingest env customer_id kb_id ids s ≡ (answered (failure "not_found" "KB not found"), s))
        × (create_ingest_job env job_id customer_id kb_id ids s
            ≡ (failure "not_found" "KB not found", s))
        × (delete_kb env customer_id kb_id s ≡ (failure "not_found" "KB not found", s))
  unfolding list_docs ingest create_ingest_job delete_kb
  foreign_kb customer_id kb_id job_id ids s h =
      let e = get_kb-foreign customer_id kb_id (db_of s) h in
      (
        rw (e, list_docs) refl,
        rw (e, ingest) refl,
        rw (e, create_ingest_job) refl,
        rw (e, delete_kb) refl,
      )

  -- A new bank is made exactly when its stack is in the catalogue and, where the service asks for a
  -- subscription, the customer has one whose plan has the stack and room for one more bank.
  pub create_kb-allowed :
      (id group_id customer_id project_id name stack : String) (s : State V)
      → succeeded (create_kb env id group_id customer_id project_id name stack s).0 ≡ (
          is_valid_stack stack
          && (not env.kb_require_subscription
              || ((env.subscription customer_id).has_subscription
                  && (contains (env.subscription customer_id).stacks stack
                      && not (
                          Banks.reached
                            (env.subscription customer_id).max_kbs
                            (Daos.count_kbs customer_id (db_of s)))))))
  unfolding create_kb insert_kb gate
  create_kb-allowed id group_id customer_id project_id name stack s = ground arith

  purge_kb-vectors :
      (kb : ProjectKb) (s : State V)
      → kb.tech_stack ≡ "pgvector"
      → count_if (λ (v : KbVector V). v.kb_id == kb.id) (db_of (purge_kb env kb s).1).vectors ≡ 0
  unfolding purge_kb delete_kb_row build_vector_store sql_delete
  purge_kb-vectors kb s e =
      rw e (count_if-keep_if-not (λ (v : KbVector V). v.kb_id == kb.id) (db_of s).vectors)

  purge_kb-docs : (kb : ProjectKb) (s : State V) → (purge_kb env kb s).0 ≡ docs_of kb.id (db_of s)
  unfolding purge_kb delete_kb_row
  purge_kb-docs kb s =
      let same =
        delete_namespace-kbs env.third_party kb.tech_stack kb.id
          (record { db = db_of s; mem = s.mem }) in
      rw same.1 refl

  -- The deletion of a bank that the customer has reports the bank and its documents, and commits:
  -- the bank is not found any more, none of its documents is left, nor any of its vectors where they
  -- are in the tables, and every other bank has as many documents as before.
  pub delete_kb-removes :
      (customer_id kb_id : String) (s : State V) (kb : ProjectKb)
      → get_kb customer_id kb_id (db_of s) ≡ success kb
      → (kb.id ≡ kb_id)
        × ((delete_kb env customer_id kb_id s).0
            ≡ success (record { deleted_kbs = 1; deleted_docs = docs_of kb.id (db_of s) }))
        × (get_kb customer_id kb.id (db_of (delete_kb env customer_id kb_id s).1)
            ≡ failure "not_found" "KB not found")
        × (docs_of kb.id (db_of (delete_kb env customer_id kb_id s).1) ≡ 0)
        × ((other : String)
            → other ≢ kb.id
            → docs_of other (db_of (delete_kb env customer_id kb_id s).1) ≡ docs_of other (db_of s))
        × (kb.tech_stack ≡ "pgvector"
            → count_if
                (λ (v : KbVector V). v.kb_id == kb.id)
                (db_of (delete_kb env customer_id kb_id s).1).vectors
              ≡ 0)
        × IsClean (delete_kb env customer_id kb_id s).1.session
  unfolding delete_kb
  delete_kb-removes customer_id kb_id s kb h =
      let p = (purge_kb-Purged env kb s).0 in
      rw (h, delete_kb)
        (
          (found_kb (λ _. Unit) kb_id (db_of s).kbs kb (find?-kb customer_id kb_id (db_of s) kb h).0
              (All-unit (db_of s).kbs)).1,
          rw purge_kb-docs refl,
          (unfold get_kb in
              rw (p.kbs, find?-keep_if-not (λ (k : ProjectKb). k.id == kb.id) (db_of s).kbs) refl),
          rw p.documents
              (count_if-keep_if-not (λ (r : KbDocument). r.kb_id == kb.id) (db_of s).documents),
          (λ other ne. rw p.documents (
              count_if-keep_if (λ (r : KbDocument). r.kb_id == other)
                (λ (r : KbDocument). not (r.kb_id == kb.id)) (db_of s).documents
                (λ r is. ground (arith, eq_iff r.kb_id other, eq_iff r.kb_id kb.id)))),
          purge_kb-vectors kb s,
          refl,
        )
