-- ===== src/Kb/Ingest.antt =====
-- services/kb-service/app/facades/kb_facade.py: `_doc_text` and `ingest`.
use image2prompt.Base.{
  ℕ, ◌+◌, ◌-◌, String, Bool, false, ◌||◌, ◌^+◌, take_text, Option, none, some, List, [], ◌∷◌, leb,
  get_or, update_if, ◌==◌, if◌then◌else◌, Resp, success, failure,
}
use image2prompt.Kb.{ProjectKb, Payload, KbDb, Prompt, Generation}
use image2prompt.Kb.Stores.{build_vector_store}
use image2prompt.Kb.Daos
use image2prompt.Kb.Banks.{Env, State, db_of, on_db, on_index, committed}

-- `sep.join(...)` of texts
abbrev pub join : String → List String → String
join sep [] = ""
join sep (x ∷ []) = x
join sep (x ∷ y ∷ xs) = x ^+ sep ^+ join sep (y ∷ xs)

-- the truthy texts of a list
abbrev pub non_empty : List String → List String
non_empty [] = []
non_empty (x ∷ xs) = let rest = non_empty xs in if x == "" then rest else x ∷ rest

abbrev pub or_else : String → String → String
or_else x y = if x == "" then y else x

-- prompts[0]["output_text"] if prompts else "": a missing key raises, a null counts as ""
abbrev pub first_output : List Prompt → Option String
first_output [] = some ""
first_output (p ∷ ps) = elim p.output_text [ none ↦ none | some text ↦ some (get_or text "") ]

-- the keys that are joined: a null one raises
abbrev pub keys_of : List Prompt → Option (List String)
keys_of [] = some []
keys_of (p ∷ ps) = elim p.provider_key [
  | some none ↦ none
  | some (some k) ↦ elim (keys_of ps) [ none ↦ none | some ks ↦ some (k ∷ ks) ]
  | none ↦ elim (keys_of ps) [ none ↦ none | some ks ↦ some ("" ∷ ks) ]
]

abbrev pub text_of : String → String → String → String × String
text_of instruction prompt providers = (
  join "\n\n" (
      non_empty (
        instruction
        ∷ prompt
        ∷ (if providers == "" then [] else ("providers: " ^+ providers) ∷ []))),
  take_text 200 (or_else prompt instruction),
)

-- _doc_text: the text to embed and the title; `none` where it raises
unfoldable pub doc_text : Generation → Option (String × String)
doc_text gen = elim (first_output gen.prompts) [
  | none ↦ none
  | some prompt ↦ elim (keys_of gen.prompts) [
    | none ↦ none
    | some keys ↦ some (text_of (get_or gen.instruction "") prompt (join "," keys))
  ]
]

-- how the loop over the generations ends
pub data Loop : Type 0 where
  raised : Loop
  finished : (ingested skipped : ℕ) → Loop

pub record Ingested : Type 0 where
  pub ingested : ℕ
  pub skipped : ℕ
  pub doc_count : ℕ

-- what a request ends with: a response, or an exception
pub data Outcome : Type 0 where
  answered : Resp Ingested → Outcome
  threw : Outcome

-- remaining is not None and ingested >= remaining
abbrev pub used_up : Option ℕ → ℕ → Bool
used_up none n = false
used_up (some remaining) n = leb remaining n

module _ {V : Type 0} (env : Env V) where
  open env use {kb_require_subscription, subscription, resolve, embed, third_party}

  -- the vector and the catalogue row of one generation
  unfoldable pub put_doc : ProjectKb → Generation → (gid text title : String) → State V → State V
  put_doc kb gen gid text title s =
      let payload : Payload = record {
        generation_id = gid;
        title = title;
        project_id = gen.project_id;
        file_ref_id = gen.file_ref_id;
      } in
      let store = build_vector_store third_party kb.tech_stack in
      on_db (Daos.add_doc kb.id gid title payload)
        (on_index (store.upsert kb.id gid (embed text) text payload) s)

  -- What one round of the loop does: nothing, an insertion, or an exception.
  pub data Round : Type 0 where
    skip : Round
    insert : (gid text title : String) → Round
    raise : Round

  abbrev pub text_round : String → Option (String × String) → Round
  text_round gid none = raise
  text_round gid (some (text, title)) = if text == "" then skip else insert gid text title

  -- the tests of one round, in their order
  unfoldable pub round_of : Option ℕ → ProjectKb → Generation → ℕ → State V → Round
  round_of remaining kb gen ingested s =
      let gid = get_or gen.id "" in
      if gid == "" || Daos.doc_exists kb.id gid (db_of s)
      then skip
      else if used_up remaining ingested
      then skip
      else text_round gid (doc_text gen)

  -- the loop over `gens`
  unfoldable pub ingest_loop :
      Option ℕ → ProjectKb → List Generation → (ingested skipped : ℕ) → State V → Loop × State V
  ingest_loop remaining kb [] ingested skipped s = (finished ingested skipped, s)
  ingest_loop remaining kb (gen ∷ gens) ingested skipped s =
      elim (round_of remaining kb gen ingested s) [
        | raise ↦ (raised, s)
        | skip ↦ ingest_loop remaining kb gens ingested (skipped + 1) s
        | insert gid text title ↦
            ingest_loop remaining kb gens (ingested + 1) skipped (put_doc kb gen gid text title s)
      ]

  abbrev pub room : Option ℕ → ℕ → Option ℕ
  room none count = none
  room (some cap) count = some (cap - count)

  -- the plan's cap on the documents of a bank, less what it holds
  unfoldable pub remaining_of : String → ProjectKb → Option ℕ
  remaining_of customer_id kb =
      if kb_require_subscription
      then room (subscription customer_id).max_docs_per_kb kb.doc_count
      else none

  -- kb.doc_count = ...
  unfoldable pub set_count : String → ℕ → KbDb V → KbDb V
  set_count kb_id n d = record d {
    kbs = update_if (λ k. k.id == kb_id) (λ k. record k { doc_count = n }) d.kbs;
  }

  -- the end of `ingest`; an exception leaves the transaction open
  unfoldable pub close_ingest : ProjectKb → Loop × State V → Outcome × State V
  close_ingest kb (raised, s) = (threw, s)
  close_ingest kb (finished ingested skipped, s) =
      let count = kb.doc_count + ingested in
      (
        answered (success (record { ingested = ingested; skipped = skipped; doc_count = count })),
        committed (on_db (set_count kb.id count) s),
      )

  -- KbFacade.ingest
  unfoldable pub ingest : (customer_id kb_id : String) → List String → State V → Outcome × State V
  ingest customer_id kb_id generation_ids s = elim (Daos.get_kb customer_id kb_id (db_of s)) [
    | failure code message ↦ (answered (failure code message), s)
    | success kb ↦
        close_ingest kb
          (ingest_loop (remaining_of customer_id kb) kb (resolve customer_id generation_ids) 0 0 s)
  ]
