-- ===== src/Kb/Growth.antt =====
-- What the loop of `ingest` does to the tables.
use image2prompt.Base.{
  ℕ, ◌+◌, ◌-◌, ◌≤◌, ◌≡◌, ◌≢◌, refl, ◌∙◌, subst, ◌⊎◌, String, false, ◌&&◌, inl, inr, Option, none,
  some, List, [], ◌∷◌, All, length, count_if-append, ◌==◌, eq_iff, if◌then◌else◌, arith,
}
use image2prompt.Kb.{ProjectKb, KbDocument, KbDb, Generation}
use image2prompt.Kb.Stores.{
  Index, ThirdParty, build_vector_store, mem_upsert, mem_delete, sql_upsert, sql_delete,
}
use image2prompt.Kb.Daos.{docs_of, copies, doc_exists, add_doc}
use image2prompt.Kb.Banks.{Env, State, db_of}
use image2prompt.Kb.Ingest.{
  doc_text, finished, put_doc, Round, skip, insert, raise, round_of, ingest_loop, used_up,
}

-- What `n` insertions into a bank do to the tables.
pub record Grown {V : Type 0} (kb_id : String) (n : ℕ) (d d' : KbDb V) : Type 0 where
  pub kbs : d'.kbs ≡ d.kbs
  pub docs : (id : String) → docs_of id d' ≡ docs_of id d + (if kb_id == id then n else 0)
  pub unique : ((k g : String) → copies k g d ≤ 1) → (k g : String) → copies k g d' ≤ 1

module _ {V : Type 0} where
  -- A store leaves the banks and the documents alone.
  upsert-kbs :
      (third_party : String → Option (ThirdParty V)) (stack ns doc text : String) (v : V) (p : _)
      (i : Index V)
      → (((build_vector_store third_party stack).upsert ns doc v text p i).db.kbs ≡ i.db.kbs)
        × (((build_vector_store third_party stack).upsert ns doc v text p i).db.documents
            ≡ i.db.documents)
  unfolding build_vector_store mem_upsert sql_upsert
  upsert-kbs third_party stack ns doc text v p i = ground arith

  pub delete_namespace-kbs :
      (third_party : String → Option (ThirdParty V)) (stack ns : String) (i : Index V)
      → (((build_vector_store third_party stack).delete_namespace ns i).db.kbs ≡ i.db.kbs)
        × (((build_vector_store third_party stack).delete_namespace ns i).db.documents
            ≡ i.db.documents)
  unfolding build_vector_store mem_delete sql_delete
  delete_namespace-kbs third_party stack ns i = ground arith

module _ {V : Type 0} (env : Env V) where
  open env use {third_party, embed, resolve}

  add_doc-Grown :
      (id gid title : String) (meta : _) (d d' : KbDb V)
      → copies id gid d ≡ 0
      → d'.kbs ≡ d.kbs
      → d'.documents ≡ d.documents
      → Grown id 1 d (add_doc id gid title meta d')
  unfolding add_doc
  add_doc-Grown id gid title meta d d' none_yet kbs docs =
      let row : KbDocument = record {
        kb_id = id;
        generation_id = gid;
        title = title;
        meta = meta;
      } in
      record {
        kbs = kbs;
        docs = λ k. ground (
          arith,
          docs,
          count_if-append (λ (r : KbDocument). r.kb_id == k) d.documents (row ∷ []),
        );
        unique = λ h k g. ground (
          arith,
          docs,
          h k g,
          eq_iff id k,
          eq_iff gid g,
          count_if-append (λ (r : KbDocument). r.kb_id == k && r.generation_id == g) d.documents
              (row ∷ []),
        );
      }

  put_doc-Grown :
      (kb : ProjectKb) (gen : Generation) (gid text title : String) (s : State V)
      → copies kb.id gid (db_of s) ≡ 0
      → Grown kb.id 1 (db_of s) (db_of (put_doc env kb gen gid text title s))
  unfolding put_doc
  put_doc-Grown kb gen gid text title s none_yet =
      let same =
        upsert-kbs third_party kb.tech_stack kb.id gid text (embed text) _
          (record { db = db_of s; mem = s.mem }) in
      add_doc-Grown kb.id gid title _ (db_of s) _ none_yet same.0 same.1

  Grown-trans :
      (id : String) (m n : ℕ) (d d' d'' : KbDb V)
      → Grown id m d d'
      → Grown id n d' d''
      → Grown id (m + n) d d''
  Grown-trans id m n d d' d'' f g = record {
    kbs = g.kbs ∙ f.kbs;
    docs = λ k. ground (arith, f.docs k, g.docs k);
    unique = λ h. g.unique (f.unique h);
  }

  Grown-refl : (id : String) (d : KbDb V) → Grown id 0 d d
  Grown-refl id d = record { kbs = refl; docs = λ k. ground arith; unique = λ h. h }

  pub put_doc-durable :
      (kb : ProjectKb) (gen : Generation) (gid text title : String) (s : State V)
      → (put_doc env kb gen gid text title s).session.durable ≡ s.session.durable
  unfolding put_doc
  put_doc-durable kb gen gid text title s = refl

  -- A round inserts only a generation that the bank does not hold, while there is room.
  round_of-insert :
      (r : Option ℕ) (kb : ProjectKb) (gen : Generation) (n : ℕ) (s : State V)
      (gid text title : String)
      → round_of env r kb gen n s ≡ insert gid text title
      → (copies kb.id gid (db_of s) ≡ 0) × (used_up r n ≡ false)
  unfolding round_of doc_exists
  round_of-insert r kb gen n s gid text title h = ground arith

  pub round_of-raise :
      (r : Option ℕ) (kb : ProjectKb) (gen : Generation) (n : ℕ) (s : State V)
      → doc_text gen ≢ none
      → round_of env r kb gen n s ≢ raise
  unfolding round_of
  round_of-raise r kb gen n s h e = ground arith

  pub Round-cases :
      (x : Round env)
      → (x ≡ skip) ⊎ (x ≡ raise) ⊎ ((gid text title : String) × (x ≡ insert gid text title))
  Round-cases skip = inl refl
  Round-cases raise = inr (inl refl)
  Round-cases (insert gid text title) = inr (inr (gid, text, title, refl))

  -- How the loop ends, from what it started with.
  pub record Ended (r : Option ℕ) (kb : ProjectKb) (gens : List Generation) (i k : ℕ) (s : State V)
      (i' k' : ℕ) (s' : State V) : Type 0 where
    pub grown : Grown kb.id (i' - i) (db_of s) (db_of s')
    pub more : i ≤ i'
    pub every : i' + k' ≡ i + k + length gens
    pub within : (cap : ℕ) → r ≡ some cap → i ≤ cap → i' ≤ cap
    pub durable : s'.session.durable ≡ s.session.durable

  Ended-step :
      (r : Option ℕ) (kb : ProjectKb) (gen : Generation) (gens : List Generation) (i k n m j l : ℕ)
      (s t u : State V) (i' k' : ℕ)
      → Grown kb.id n (db_of s) (db_of t)
      → t.session.durable ≡ s.session.durable
      → (n + m ≡ 1) × (j ≡ i + n) × (l ≡ k + m)
      → (used_up r i ≡ false) ⊎ (n ≡ 0)
      → Ended r kb gens j l t i' k' u
      → Ended r kb (gen ∷ gens) i k s i' k' u
  Ended-step r kb gen gens i k n m j l s t u i' k' g same (one, jn, lm) room e = record {
    grown =
        let total : n + (i' - j) ≡ i' - i = omega (arith, e.more) in
        subst (λ x. Grown kb.id x (db_of s) (db_of u)) total
          (Grown-trans kb.id n (i' - j) (db_of s) (db_of t) (db_of u) g e.grown);
    more = omega (arith, e.more);
    every = omega (arith, e.every);
    within = λ cap is le. e.within cap is (ground (arith, is, room, jn));
    durable = e.durable ∙ same;
  }

  pub loop-Ended :
      (r : Option ℕ) (kb : ProjectKb) (gens : List Generation) (i k : ℕ) (s : State V) (i' k' : ℕ)
      → (ingest_loop env r kb gens i k s).0 ≡ finished i' k'
      → Ended r kb gens i k s i' k' (ingest_loop env r kb gens i k s).1
  unfolding ingest_loop
  loop-Ended r kb [] i k s i' k' h = record {
    grown =
        let nothing : 0 ≡ i' - i = ground arith in
        subst (λ x. Grown kb.id x (db_of s) (db_of s)) nothing (Grown-refl kb.id (db_of s));
    more = ground arith;
    every = ground arith;
    within = λ cap is le. ground arith;
    durable = refl;
  }
  loop-Ended r kb (gen ∷ gens) i k s i' k' h = elim (Round-cases (round_of env r kb gen i s)) [
    | inl e ↦
        rw (e, ingest_loop)
          (Ended-step r kb gen gens i k 0 1 i (k + 1) s s _ i' k' (Grown-refl kb.id (db_of s)) refl
            (refl, omega arith, refl) (inr refl)
            (loop-Ended r kb gens i (k + 1) s i' k' (ground (arith, e))))
    | inr (inl e) ↦ absurd (ground (arith, e))
    | inr (inr (gid, text, title, e)) ↦
        let (none_yet, room) = round_of-insert r kb gen i s gid text title e in
        rw (e, ingest_loop)
          (Ended-step r kb gen gens i k 1 0 (i + 1) k s (put_doc env kb gen gid text title s) _ i'
            k' (put_doc-Grown kb gen gid text title s none_yet)
            (put_doc-durable kb gen gid text title s) (refl, refl, omega arith) (inl room)
            (loop-Ended r kb gens (i + 1) k (put_doc env kb gen gid text title s) i' k'
              (ground (arith, e))))
  ]

  pub loop-answers :
      (r : Option ℕ) (kb : ProjectKb) (gens : List Generation) (i k : ℕ) (s : State V)
      → All (λ g. doc_text g ≢ none) gens
      → (i' : ℕ) × (k' : ℕ) × ((ingest_loop env r kb gens i k s).0 ≡ finished i' k')
  unfolding ingest_loop
  loop-answers r kb [] i k s h = (i, k, refl)
  loop-answers r kb (gen ∷ gens) i k s (ok, h) = elim (Round-cases (round_of env r kb gen i s)) [
    | inl e ↦ rw (e, ingest_loop) (loop-answers r kb gens i (k + 1) s h)
    | inr (inl e) ↦ absurd (round_of-raise r kb gen i s ok e)
    | inr (inr (gid, text, title, e)) ↦
        rw (e, ingest_loop)
          (loop-answers r kb gens (i + 1) k (put_doc env kb gen gid text title s) h)
  ]

  pub loop-durable :
      (r : Option ℕ) (kb : ProjectKb) (gens : List Generation) (i k : ℕ) (s : State V)
      → (ingest_loop env r kb gens i k s).1.session.durable ≡ s.session.durable
  unfolding ingest_loop
  loop-durable r kb [] i k s = refl
  loop-durable r kb (gen ∷ gens) i k s = elim (Round-cases (round_of env r kb gen i s)) [
    | inl e ↦ rw (e, ingest_loop) (loop-durable r kb gens i (k + 1) s)
    | inr (inl e) ↦ rw (e, ingest_loop) refl
    | inr (inr (gid, text, title, e)) ↦
        rw (e, ingest_loop)
          (loop-durable r kb gens (i + 1) k (put_doc env kb gen gid text title s)
            ∙ put_doc-durable kb gen gid text title s)
  ]
