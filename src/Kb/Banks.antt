-- ===== src/Kb/Banks.antt =====
-- services/kb-service/app/facades/kb_facade.py: groups and banks, their limits by the plan, listing,
-- usage and deletion. The service's settings, the admin service, the image service and the embedder
-- are parameters.
use image2prompt.Base.{
  ℕ, ◌+◌, String, Bool, true, false, not, ◌||◌, ◌^+◌, show, Option, none, some, List, [], ◌∷◌,
  contains, length, leb, keep_if, ◌==◌, if◌then◌else◌, Session, write, commit, Resp, success,
  failure,
}
use image2prompt.Kb.{
  KbGroup, ProjectKb, KbDocument, KbDb, Subscription, Generation, is_valid_stack, tech_stacks,
}
use image2prompt.Kb.Stores.{Index, MemRow, ThirdParty, VectorStore, build_vector_store}
use image2prompt.Kb.Daos

pub record Env (V : Type 0) : Type 0 where
  pub kb_require_subscription : Bool
  -- SubscriptionClient.get_customer_subscription
  pub subscription : String → Subscription
  -- GenerationClient.resolve
  pub resolve : String → List String → List Generation
  pub embed : String → V
  pub third_party : String → Option (ThirdParty V)

-- the session, and the in-process index, which no rollback reaches
pub record State (V : Type 0) : Type 0 where
  pub session : Session (KbDb V)
  pub mem : List (MemRow V)

-- MySubscriptionResp
pub record Plan : Type 0 where
  pub has_subscription : Bool
  pub plan_name : Option String
  pub stacks : List String
  pub max_kbs : Option ℕ
  pub max_docs_per_kb : Option ℕ
  pub gating_enabled : Bool

pub record Deleted : Type 0 where
  pub deleted_kbs : ℕ
  pub deleted_docs : ℕ

-- the test of the plan's number of banks
abbrev pub reached : Option ℕ → ℕ → Bool
reached none n = false
reached (some cap) n = leb cap n

-- the text of that refusal
abbrev pub limit_message : Option ℕ → String
limit_message none = ""
limit_message (some cap) =
    "Your plan's limit of " ^+ show cap ^+ " knowledge bases has been reached."

-- why the plan refuses a new bank, if it does
abbrev pub plan_refusal : Subscription → String → ℕ → Option String
plan_refusal sub stack kbs =
    if not sub.has_subscription || not (contains sub.stacks stack)
    then some ("Your subscription does not include the '" ^+ stack ^+ "' tech stack.")
    else if reached sub.max_kbs kbs
    then some (limit_message sub.max_kbs)
    else none

module _ {V : Type 0} where
  abbrev pub db_of : State V → KbDb V
  db_of s = s.session.working

  abbrev pub on_db : (KbDb V → KbDb V) → State V → State V
  on_db f s = record s { session = write f s.session }

  abbrev pub committed : State V → State V
  committed s = record s { session = commit s.session }

  -- a store at work on the open transaction
  abbrev pub on_index : (Index V → Index V) → State V → State V
  on_index f s =
      let i = f (record { db = db_of s; mem = s.mem }) in
      record { session = write (λ _. i.db) s.session; mem = i.mem }

  -- KbFacade.create_group
  unfoldable pub create_group : KbGroup → State V → Resp KbGroup × State V
  create_group g s = (success g, committed (on_db (Daos.create_group g) s))

  module _ (env : Env V) where
    open env use {kb_require_subscription, subscription, third_party}

    abbrev store_of : String → VectorStore V
    store_of stack = build_vector_store third_party stack

    -- the new bank's row, inserted
    unfoldable pub insert_kb :
        (id group_id customer_id project_id name stack : String)
        → State V
        → Resp ProjectKb × State V
    insert_kb id group_id customer_id project_id name stack s =
        let kb : ProjectKb = record {
          id = id;
          group_id = group_id;
          customer_id = customer_id;
          project_id = project_id;
          name = name;
          tech_stack = stack;
          doc_count = 0;
          backend_ready = (store_of stack).ready;
        } in
        (success kb, committed (on_db (Daos.create_kb kb) s))

    -- the plan's say: nothing where the service does not ask for one
    unfoldable pub gate : (customer_id stack : String) → State V → Option String
    gate customer_id stack s =
        if kb_require_subscription
        then plan_refusal (subscription customer_id) stack (Daos.count_kbs customer_id (db_of s))
        else none

    -- KbFacade.create_kb; `id` is the primary key that the row gets
    unfoldable pub create_kb :
        (id group_id customer_id project_id name stack : String)
        → State V
        → Resp ProjectKb × State V
    create_kb id group_id customer_id project_id name stack s =
        if not (is_valid_stack stack)
        then (failure "bad_request" ("unknown tech stack: " ^+ stack), s)
        else elim (gate customer_id stack s) [
          | some why ↦ (failure "forbidden" why, s)
          | none ↦ insert_kb id group_id customer_id project_id name stack s
        ]

    -- KbFacade.list_docs
    unfoldable pub list_docs : (customer_id kb_id : String) → State V → Resp (List KbDocument)
    list_docs customer_id kb_id s = elim (Daos.get_kb customer_id kb_id (db_of s)) [
      | failure code message ↦ failure code message
      | success kb ↦ success (Daos.list_docs kb_id (db_of s))
    ]

    -- KbFacade.my_subscription
    unfoldable pub my_subscription : String → Plan
    my_subscription customer_id =
        let sub = subscription customer_id in
        if not kb_require_subscription
        then record {
          has_subscription = false;
          plan_name = none;
          stacks = tech_stacks;
          max_kbs = none;
          max_docs_per_kb = none;
          gating_enabled = false;
        }
        else if not sub.has_subscription
        then record {
          has_subscription = false;
          plan_name = none;
          stacks = [];
          max_kbs = none;
          max_docs_per_kb = none;
          gating_enabled = true;
        }
        else record {
          has_subscription = true;
          plan_name = sub.plan_name;
          stacks = keep_if (λ t. not (t == "")) sub.stacks;
          max_kbs = sub.max_kbs;
          max_docs_per_kb = sub.max_docs_per_kb;
          gating_enabled = true;
        }

    -- _purge_kb
    unfoldable pub purge_kb : ProjectKb → State V → ℕ × State V
    purge_kb kb s =
        let s' = on_index ((store_of kb.tech_stack).delete_namespace kb.id) s in
        let (docs, d) = Daos.delete_kb_row kb (db_of s') in (docs, on_db (λ _. d) s')

    -- KbFacade.delete_kb
    unfoldable pub delete_kb : (customer_id kb_id : String) → State V → Resp Deleted × State V
    delete_kb customer_id kb_id s = elim (Daos.get_kb customer_id kb_id (db_of s)) [
      | failure code message ↦ (failure code message, s)
      | success kb ↦
          let (docs, s') = purge_kb kb s in
          (success (record { deleted_kbs = 1; deleted_docs = docs }), committed s')
    ]

    -- sum(self._purge_kb(req.db, kb) for kb in kbs)
    unfoldable pub purge_all : List ProjectKb → State V → ℕ × State V
    purge_all [] s = (0, s)
    purge_all (kb ∷ kbs) s =
        let (docs, s') = purge_kb kb s in let (rest, s'') = purge_all kbs s' in (docs + rest, s'')

    -- KbFacade.delete_group
    unfoldable pub delete_group : (customer_id group_id : String) → State V → Resp Deleted × State V
    delete_group customer_id group_id s = elim (Daos.get_group customer_id group_id (db_of s)) [
      | none ↦ (failure "not_found" "Group not found", s)
      | some group ↦
          let kbs = Daos.list_kbs customer_id group_id (db_of s) in
          let (docs, s') = purge_all kbs s in
          (
            success (record { deleted_kbs = length kbs; deleted_docs = docs }),
            committed (on_db (Daos.delete_group_row group) s'),
          )
    ]
