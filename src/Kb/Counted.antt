-- ===== src/Kb/Counted.antt =====
-- The count that a bank keeps of its documents, over every sequence of requests.
use image2prompt.Base.{
  ℕ, ◌+◌, ◌-◌, ◌≤◌, ◌≡◌, ◌≢◌, refl, sym, subst, Bool-cases, ◌∙◌, String, true, inl, inr, none, some,
  List, [], ◌∷◌, All, length, update_if, find?, ◌==◌, eq_iff, eq_refl, if◌then◌else◌, arith,
  IsClean, rollback, Option-cases, success,
}
use image2prompt.Kb.{KbIngestJob, KbGroup, ProjectKb, KbDb}
use image2prompt.Kb.Daos.{docs_of, copies, get_kb, get_ingest_job_by_id}
use image2prompt.Kb.Banks
use image2prompt.Kb.Banks.{
  Env, State, db_of, on_db, committed, Deleted, purge_kb, delete_kb, gate, insert_kb,
}
use image2prompt.Kb.Ingest.{
  doc_text, Loop, raised, finished, Ingested, Outcome, answered, threw, ingest_loop, remaining_of,
  set_count, close_ingest, ingest,
}
use image2prompt.Kb.Jobs.{started, create_ingest_job, run_ingest_job}
use image2prompt.Kb.Growth.{Grown, loop-Ended, loop-answers}

pub found_kb :
    (P : ProjectKb → Type 0) (kb_id : String) (ks : List ProjectKb) (kb : ProjectKb)
    → find? (λ k. k.id == kb_id) ks ≡ some kb
    → All P ks
    → P kb × (kb.id ≡ kb_id)
found_kb P kb_id [] kb h a = absurd (ground (arith, h))
found_kb P kb_id (k ∷ ks) kb h (p, a) = elim (Bool-cases (k.id == kb_id)) [
  | inl e ↦
      let same : k ≡ kb = ground (arith, e) in
      (
        subst P same p,
        subst (λ (x : ProjectKb). x.id ≡ kb_id) same (ground (arith, eq_iff k.id kb_id)),
      )
  | inr e ↦ found_kb P kb_id ks kb (ground (arith, e)) a
]

module _ {V : Type 0} where
  -- Every bank's count is the number of its documents, and no generation is in a bank twice.
  pub record IsCounted (d : KbDb V) : Type 0 where
    pub counts : All (λ k. k.doc_count ≡ docs_of k.id d) d.kbs
    pub unique : (kb_id g : String) → copies kb_id g d ≤ 1

  pub find?-kb :
      (customer_id kb_id : String) (d : KbDb V) (kb : ProjectKb)
      → get_kb customer_id kb_id d ≡ success kb
      → (find? (λ k. k.id == kb_id) d.kbs ≡ some kb) × (kb.customer_id ≡ customer_id)
  unfolding get_kb
  find?-kb customer_id kb_id d kb h =
      elim (Option-cases (find? (λ (k : ProjectKb). k.id == kb_id) d.kbs)) [
        | inl e ↦ absurd (ground (arith, e))
        | inr (k, e) ↦ ground (arith, e, eq_iff k.customer_id customer_id)
      ]

  counts-set_count :
      (id : String) (m n : ℕ) (d d' : KbDb V) (ks : List ProjectKb)
      → All (λ k. k.doc_count ≡ docs_of k.id d) ks
      → ((k : String) → docs_of k d' ≡ docs_of k d + (if id == k then n else 0))
      → docs_of id d + n ≡ m
      → All
          (λ k. k.doc_count ≡ docs_of k.id d')
          (update_if (λ k. k.id == id) (λ k. record k { doc_count = m }) ks)
  counts-set_count id m n d d' [] a grown e = tt
  counts-set_count id m n d d' (k ∷ ks) (h, a) grown e = (
    ground (arith, grown k.id, eq_iff k.id id, eq_iff id k.id),
    counts-set_count id m n d d' ks a grown e,
  )

module _ {V : Type 0} (env : Env V) where
  open env use {kb_require_subscription, subscription, resolve, third_party}

  close-finished :
      (kb : ProjectKb) (x : Loop × State V) (i k : ℕ)
      → x.0 ≡ finished i k
      → close_ingest env kb x ≡ (
        answered (success (record { ingested = i; skipped = k; doc_count = kb.doc_count + i })),
        committed (on_db (set_count env kb.id (kb.doc_count + i)) x.1),
      )
  unfolding close_ingest
  close-finished kb (raised, s) i k h = absurd (ground (arith, h))
  close-finished kb (finished i' k', s) i k h = ground (arith, h)

  -- An ingest of a bank that the customer has, of generations with readable prompts, answers: what
  -- it ingested and what it skipped add up to the generations that were resolved, the answered count
  -- and the bank's documents have grown by what it ingested, no cap of the plan is crossed, and all
  -- is committed.
  pub ingest-answers :
      (customer_id kb_id : String) (ids : List String) (s : State V) (kb : ProjectKb)
      → get_kb customer_id kb_id (db_of s) ≡ success kb
      → All (λ g. doc_text g ≢ none) (resolve customer_id ids)
      → (r : Ingested) × ((ingest env customer_id kb_id ids s).0 ≡ answered (success r))
        × (r.ingested + r.skipped ≡ length (resolve customer_id ids))
        × (r.doc_count ≡ kb.doc_count + r.ingested)
        × (docs_of kb.id (db_of (ingest env customer_id kb_id ids s).1)
            ≡ docs_of kb.id (db_of s) + r.ingested)
        × ((cap : ℕ)
            → kb_require_subscription ≡ true
            → (subscription customer_id).max_docs_per_kb ≡ some cap
            → r.ingested ≤ cap - kb.doc_count)
        × IsClean (ingest env customer_id kb_id ids s).1.session
  unfolding ingest
  ingest-answers customer_id kb_id ids s kb h ok =
      let room = remaining_of env customer_id kb in
      let gens = resolve customer_id ids in
      let (i, k, e) = loop-answers env room kb gens 0 0 s ok in
      let end = loop-Ended env room kb gens 0 0 s i k e in
      let loop = ingest_loop env room kb gens 0 0 s in
      rw (h, ingest, close-finished kb loop i k e)
        (
          record { ingested = i; skipped = k; doc_count = kb.doc_count + i },
          refl,
          omega (arith, end.every),
          refl,
          unfold set_count in ground (arith, end.grown.docs kb.id, eq_refl kb.id),
          λ cap on is.
              end.within (cap - kb.doc_count) (unfold remaining_of in ground arith) (omega arith),
          refl,
        )

  -- A request that throws is rolled back when its session closes; the in-process index is not.
  abbrev pub closed : Outcome × State V → State V
  closed (answered r, s) = s
  closed (threw, s) = record s { session = rollback s.session }

  -- The ingest of the job, should there be one, does not raise.
  abbrev pub Completes : (job_id : String) → State V → Type 0
  Completes job_id s =
      (job : KbIngestJob)
      → get_ingest_job_by_id job_id (db_of s) ≡ some job
      → (ingest env job.customer_id job.kb_id job.requested_ids (started env job_id s)).0 ≢ threw

  -- The requests and background jobs that change the banks, with a primary key that no row has for a
  -- new bank.
  pub data Step (s : State V) : State V → Type 0 where
    group_created : (g : KbGroup) → Step s (Banks.create_group g s).1
    kb_created :
        (id group_id customer_id project_id name stack : String)
        → docs_of id (db_of s) ≡ 0
        → Step s (Banks.create_kb env id group_id customer_id project_id name stack s).1
    ingested :
        (customer_id kb_id : String) (ids : List String)
        → Step s (closed (ingest env customer_id kb_id ids s))
    job_created :
        (id customer_id kb_id : String) (ids : List String)
        → Step s (create_ingest_job env id customer_id kb_id ids s).1
    job_ran :
        (job_id exc : String) → Completes job_id s → Step s (run_ingest_job env job_id exc s).1
    kb_deleted : (customer_id kb_id : String) → Step s (delete_kb env customer_id kb_id s).1
    group_deleted :
        (customer_id group_id : String) → Step s (Banks.delete_group env customer_id group_id s).1

  -- one request after the other
  pub data Reaches (s : State V) : State V → Type 0 where
    start : Reaches s s
    next : {t u : State V} → Reaches s t → Step t u → Reaches s u

  pub record IsSound (s : State V) : Type 0 where
    pub clean : IsClean s.session
    pub counted : IsCounted (db_of s)

  pub closed-IsSound :
      (kb : ProjectKb) (s t : State V) (out : Loop)
      → IsSound s
      → find? (λ k. k.id == kb.id) (db_of s).kbs ≡ some kb
      → t.session.durable ≡ s.session.durable
      → ((i k : ℕ) → out ≡ finished i k → Grown kb.id i (db_of s) (db_of t))
      → IsSound (closed (close_ingest env kb (out, t)))
  unfolding close_ingest set_count
  closed-IsSound kb s t raised h found same grown = record {
    clean = refl;
    counted = subst IsCounted (sym (same ∙ h.clean)) h.counted;
  }
  closed-IsSound kb s t (finished i k) h found same grown =
      let g = grown i k refl in
      let count =
        (found_kb (λ k. k.doc_count ≡ docs_of k.id (db_of s)) kb.id (db_of s).kbs kb found
          h.counted.counts).0 in
      record {
        clean = refl;
        counted = record {
          counts = rw g.kbs (
              counts-set_count kb.id (kb.doc_count + i) i (db_of s) (db_of t) (db_of s).kbs
                h.counted.counts g.docs (ground (arith, count)));
          unique = g.unique h.counted.unique;
        };
      }
