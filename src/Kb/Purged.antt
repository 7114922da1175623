-- ===== src/Kb/Purged.antt =====
-- What the deletion of a bank, and its creation, do to the counts of the others.
use image2prompt.Base.{
  ◌≤◌, ◌≡◌, refl, String, Bool, true, not, ◌&&◌, List, [], ◌∷◌, ◌++◌, All, All-append, count_if,
  keep_if, ◌==◌, eq_iff, arith, inl, inr, Bool-cases,
}
use image2prompt.Kb.{ProjectKb, KbDocument, KbDb}
use image2prompt.Kb.Daos.{docs_of}
use image2prompt.Kb.Counted.{IsCounted}

pub count_if-keep_if :
    (p q : KbDocument → Bool) (rs : List KbDocument)
    → ((r : KbDocument) → p r ≡ true → q r ≡ true)
    → count_if p (keep_if q rs) ≡ count_if p rs
count_if-keep_if p q [] f = refl
count_if-keep_if p q (r ∷ rs) f = ground (arith, f r, count_if-keep_if p q rs f)

count_if-keep_if-le :
    (p q : KbDocument → Bool) (rs : List KbDocument) → count_if p (keep_if q rs) ≤ count_if p rs
count_if-keep_if-le p q [] = omega arith
count_if-keep_if-le p q (r ∷ rs) = ground (arith, count_if-keep_if-le p q rs)

pub All-unit : (ks : List ProjectKb) → All {0, 0} (λ _. Unit) ks
All-unit [] = tt
All-unit (k ∷ ks) = (tt, All-unit ks)

module _ {V : Type 0} where
  delete-counts :
      (id : String) (d d' : KbDb V) (ks : List ProjectKb)
      → d'.documents ≡ keep_if (λ r. not (r.kb_id == id)) d.documents
      → All (λ k. k.doc_count ≡ docs_of k.id d) ks
      → All (λ k. k.doc_count ≡ docs_of k.id d') (keep_if (λ k. not (k.id == id)) ks)
  delete-counts id d d' [] e a = tt
  delete-counts id d d' (k ∷ ks) e (h, a) = elim (Bool-cases (k.id == id)) [
    | inl gone ↦ rw (gone, keep_if) (delete-counts id d d' ks e a)
    | inr stays ↦
        rw (stays, keep_if)
          (
            ground (
              arith,
              count_if-keep_if (λ (r : KbDocument). r.kb_id == k.id)
                  (λ (r : KbDocument). not (r.kb_id == id)) d.documents
                  (λ r is. ground (arith, stays, eq_iff r.kb_id k.id, eq_iff r.kb_id id)),
            ),
            delete-counts id d d' ks e a,
          )
  ]

  -- What the deletion of a bank's rows does to the tables.
  pub record Purged (id : String) (d d' : KbDb V) : Type 0 where
    pub kbs : d'.kbs ≡ keep_if (λ k. not (k.id == id)) d.kbs
    pub documents : d'.documents ≡ keep_if (λ r. not (r.kb_id == id)) d.documents

  pub Purged-IsCounted : (id : String) (d d' : KbDb V) → Purged id d d' → IsCounted d → IsCounted d'
  Purged-IsCounted id d d' p h = record {
    counts = rw p.kbs (delete-counts id d d' d.kbs p.documents h.counts);
    unique = λ k g. ground (
      arith,
      p.documents,
      h.unique k g,
      count_if-keep_if-le (λ (r : KbDocument). r.kb_id == k && r.generation_id == g)
          (λ (r : KbDocument). not (r.kb_id == id)) d.documents,
    );
  }

  pub append-counts :
      (kb : ProjectKb) (d d' : KbDb V)
      → d'.kbs ≡ d.kbs ++ kb ∷ []
      → d'.documents ≡ d.documents
      → kb.doc_count ≡ docs_of kb.id d
      → IsCounted d
      → IsCounted d'
  append-counts kb d d' kbs documents e h = record {
    counts =
        rw (kbs, documents)
          (All-append (λ (k : ProjectKb). k.doc_count ≡ docs_of k.id d) d.kbs (kb ∷ []) h.counts
            (e, tt));
    unique = λ k g. rw documents (h.unique k g);
  }
