-- ===== src/Kb/Sound.antt =====
-- Every sequence of requests keeps the banks' counts right.
use image2prompt.Base.{
  ◌-◌, ◌≡◌, ◌≢◌, refl, sym, String, some, List, [], ◌∷◌, find?, ◌==◌, arith, Option-cases, inl, inr,
  subst, Resp-cases, Bool-cases,
}
use image2prompt.Kb.{JobStatus, ProjectKb, KbIngestJob, KbDb, is_valid_stack}
use image2prompt.Kb.Daos
use image2prompt.Kb.Daos.{docs_of, copies, delete_kb_row, get_kb}
use image2prompt.Kb.Banks
use image2prompt.Kb.Banks.{
  Env, State, db_of, committed, on_db, purge_kb, purge_all, delete_kb, delete_group, gate,
  insert_kb,
}
use image2prompt.Kb.Ingest.{Outcome, answered, threw, ingest_loop, remaining_of, ingest}
use image2prompt.Kb.Jobs.{finish, started, on_job, create_ingest_job, run_ingest_job}
use image2prompt.Kb.Growth.{Grown, loop-Ended, loop-durable, delete_namespace-kbs}
use image2prompt.Kb.Counted.{
  IsCounted, IsSound, Step, group_created, kb_created, ingested, job_created, job_ran, Completes,
  kb_deleted, group_deleted, Reaches, start, next, closed, closed-IsSound, find?-kb, found_kb,
}
use image2prompt.Kb.Purged.{Purged, Purged-IsCounted, append-counts, All-unit}

module _ {V : Type 0} (env : Env V) where
  open env use {third_party, resolve}

  pub purge_kb-Purged :
      (kb : ProjectKb) (s : State V)
      → Purged kb.id (db_of s) (db_of (purge_kb env kb s).1)
        × ((purge_kb env kb s).1.session.durable ≡ s.session.durable)
  unfolding purge_kb delete_kb_row
  purge_kb-Purged kb s =
      let same =
        delete_namespace-kbs third_party kb.tech_stack kb.id
          (record { db = db_of s; mem = s.mem }) in
      (record { kbs = rw same.0 refl; documents = rw same.1 refl }, refl)

  purge_all-IsCounted :
      (kbs : List ProjectKb) (s : State V)
      → IsCounted (db_of s)
      → IsCounted (db_of (purge_all env kbs s).1)
  unfolding purge_all
  purge_all-IsCounted [] s h = h
  purge_all-IsCounted (kb ∷ kbs) s h =
      purge_all-IsCounted kbs (purge_kb env kb s).1
        (Purged-IsCounted kb.id (db_of s) _ (purge_kb-Purged kb s).0 h)

  delete_kb-IsSound :
      (customer_id kb_id : String) (s : State V)
      → IsSound env s
      → IsSound env (delete_kb env customer_id kb_id s).1
  unfolding delete_kb
  delete_kb-IsSound customer_id kb_id s h = elim (Resp-cases (get_kb customer_id kb_id (db_of s))) [
    | inl (kb, e) ↦
        rw (e, delete_kb)
          (record {
            clean = refl;
            counted = Purged-IsCounted kb.id (db_of s) _ (purge_kb-Purged kb s).0 h.counted;
          })
    | inr (code, message, e) ↦ rw (e, delete_kb) h
  ]

  delete_group-IsSound :
      (customer_id group_id : String) (s : State V)
      → IsSound env s
      → IsSound env (delete_group env customer_id group_id s).1
  unfolding delete_group Daos.delete_group_row
  delete_group-IsSound customer_id group_id s h =
      elim (Option-cases (Daos.get_group customer_id group_id (db_of s))) [
        | inl e ↦ rw (e, delete_group) h
        | inr (g, e) ↦
            let kept =
              purge_all-IsCounted (Daos.list_kbs customer_id group_id (db_of s)) s h.counted in
            rw (e, delete_group)
              (record {
                clean = refl;
                counted = record { counts = kept.counts; unique = kept.unique };
              })
      ]

  create_kb-IsSound :
      (id group_id customer_id project_id name stack : String) (s : State V)
      → docs_of id (db_of s) ≡ 0
      → IsSound env s
      → IsSound env (Banks.create_kb env id group_id customer_id project_id name stack s).1
  unfolding Banks.create_kb insert_kb Daos.create_kb
  create_kb-IsSound id group_id customer_id project_id name stack s unused h =
      elim (Bool-cases (is_valid_stack stack)) [
        | inr bad ↦ rw (bad, Banks.create_kb) h
        | inl good ↦ elim (Option-cases (gate env customer_id stack s)) [
          | inr (why, e) ↦ rw (good, e, Banks.create_kb) h
          | inl e ↦
              rw (good, e, Banks.create_kb)
                (record {
                  clean = refl;
                  counted = append-counts _ (db_of s) _ refl refl (sym unused) h.counted;
                })
        ]
      ]

  ingest-IsSound :
      (customer_id kb_id : String) (ids : List String) (s : State V)
      → IsSound env s
      → IsSound env (closed env (ingest env customer_id kb_id ids s))
  unfolding ingest
  ingest-IsSound customer_id kb_id ids s h =
      elim (Resp-cases (get_kb customer_id kb_id (db_of s))) [
        | inr (code, message, e) ↦ rw (e, ingest) h
        | inl (kb, e) ↦
            let room = remaining_of env customer_id kb in
            let gens = resolve customer_id ids in
            let loop = ingest_loop env room kb gens 0 0 s in
            let (found, _) = find?-kb customer_id kb_id (db_of s) kb e in
            let (_, same) = found_kb (λ _. Unit) kb_id (db_of s).kbs kb found (All-unit _) in
            rw (e, ingest)
              (closed-IsSound env kb s loop.1 loop.0 h
                (subst (λ i. find? (λ (k : ProjectKb). k.id == i) (db_of s).kbs ≡ some kb)
                  (sym same) found)
                (loop-durable env room kb gens 0 0 s)
                (λ i k is.
                  let count : i - 0 ≡ i = omega arith in
                  subst (λ n. Grown kb.id n (db_of s) (db_of loop.1)) count
                    (loop-Ended env room kb gens 0 0 s i k is).grown))
      ]

  jobs-IsSound :
      (f : KbDb V → KbDb V) (s : State V)
      → ((d : KbDb V) → ((f d).kbs ≡ d.kbs) × ((f d).documents ≡ d.documents))
      → IsCounted (db_of s)
      → IsSound env (committed (on_db f s))
  jobs-IsSound f s same h =
      let (kbs, documents) = same (db_of s) in
      record {
        clean = refl;
        counted = record {
          counts = rw (kbs, documents) h.counts;
          unique = λ k g. rw documents (h.unique k g);
        };
      }

  closed-answered :
      (p : Outcome × State V) → p.0 ≢ threw → IsSound env (closed env p) → IsSound env p.1
  closed-answered (answered r, s) n h = h
  closed-answered (threw, s) n h = absurd (n refl)

  on_job-same :
      (job_id : String) (f : KbIngestJob → KbIngestJob) (d : KbDb V)
      → ((on_job env job_id f d).kbs ≡ d.kbs) × ((on_job env job_id f d).documents ≡ d.documents)
  unfolding on_job
  on_job-same job_id f d = (refl, refl)

  create_ingest_job-IsSound :
      (id customer_id kb_id : String) (ids : List String) (s : State V)
      → IsSound env s
      → IsSound env (create_ingest_job env id customer_id kb_id ids s).1
  unfolding create_ingest_job Daos.add_job
  create_ingest_job-IsSound id customer_id kb_id ids s h =
      elim (Resp-cases (get_kb customer_id kb_id (db_of s))) [
        | inr (code, message, e) ↦ rw (e, create_ingest_job) h
        | inl (kb, e) ↦
            rw (e, create_ingest_job)
              (jobs-IsSound (Daos.add_job (Daos.new_job id customer_id kb_id ids)) s
                (λ d. (refl, refl)) h.counted)
      ]

  run_ingest_job-IsSound :
      (job_id exc : String) (s : State V)
      → Completes env job_id s
      → IsSound env s
      → IsSound env (run_ingest_job env job_id exc s).1
  unfolding run_ingest_job
  run_ingest_job-IsSound job_id exc s completes h =
      elim (Option-cases (Daos.get_ingest_job_by_id job_id (db_of s))) [
        | inl e ↦ rw (e, run_ingest_job) h
        | inr (job, e) ↦
            let start =
              jobs-IsSound (on_job env job_id (λ j. record j { status = JobStatus.running })) s
                (on_job-same job_id (λ j. record j { status = JobStatus.running })) h.counted in
            let out =
              ingest env job.customer_id job.kb_id job.requested_ids (started env job_id s) in
            let ran = closed-answered out (completes job e) (
              ingest-IsSound job.customer_id job.kb_id job.requested_ids (started env job_id s)
                start) in
            rw (e, run_ingest_job)
              (jobs-IsSound (on_job env job_id (finish out.0 exc)) out.1
                (on_job-same job_id (finish out.0 exc)) ran.counted)
      ]

  Step-IsSound : (s t : State V) → Step env s t → IsSound env s → IsSound env t
  unfolding Banks.create_group Daos.create_group
  Step-IsSound s t (group_created g) h = record {
    clean = refl;
    counted = record { counts = h.counted.counts; unique = h.counted.unique };
  }
  Step-IsSound s t (kb_created id group_id customer_id project_id name stack unused) h =
      create_kb-IsSound id group_id customer_id project_id name stack s unused h
  Step-IsSound s t (ingested customer_id kb_id ids) h = ingest-IsSound customer_id kb_id ids s h
  Step-IsSound s t (job_created id customer_id kb_id ids) h =
      create_ingest_job-IsSound id customer_id kb_id ids s h
  Step-IsSound s t (job_ran job_id exc completes) h =
      run_ingest_job-IsSound job_id exc s completes h
  Step-IsSound s t (kb_deleted customer_id kb_id) h = delete_kb-IsSound customer_id kb_id s h
  Step-IsSound s t (group_deleted customer_id group_id) h =
      delete_group-IsSound customer_id group_id s h

  -- Whatever requests create groups and banks, ingest into banks (those that raise rolled back),
  -- queue and run ingest jobs whose ingest does not raise, and delete banks and groups: from tables
  -- that satisfy it, nothing is left uncommitted, every bank's count is the number of its documents,
  -- and no generation is in a bank twice. A new bank's primary key is one that no document names.
  pub reaches-IsSound : (s t : State V) → Reaches env s t → IsSound env s → IsSound env t
  reaches-IsSound s t start h = h
  reaches-IsSound s t (next r step) h = Step-IsSound _ t step (reaches-IsSound s _ r h)
