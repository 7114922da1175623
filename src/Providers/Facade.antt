-- ===== src/Providers/Facade.antt =====
-- services/admin-service/app/facades/providers_facade.py and dao/provider_dao.py. The listing is up to
-- the order of the names; json.dumps and json.loads are parameters. The plaintext that the facade puts
-- in place of a configuration after the commit is in the answer only.
use image2prompt.Base.{
  ℕ, ◌≡◌, String, Bool, true, false, not, ◌&&◌, ◌||◌, Option, none, some, List, [], ◌∷◌, ◌++◌,
  lookup, keys, any, find?, keep_if, update_if, get_or, ◌==◌, if◌then◌else◌, Session, commit, write,
  Resp, success, failure,
}
use image2prompt.Crypto.{Keyring, TokenCipher, encrypt, decrypt, enabled}
use image2prompt.Providers.{
  Value, null, text, other, Config, Provider, is_mask, is_null, merge_with_existing,
}

-- the dict `detail` of an audit entry, with names of keys only
pub record Detail : Type 0 where
  pub enabled : Option Bool
  pub name : Option String
  pub config_keys : List String
  pub config_set : List String
  pub config_removed : List String

pub record AuditEntry : Type 0 where
  pub action : String
  pub target : String
  pub detail : Detail
  pub actor_id : Option String

pub record ProviderDb : Type 0 where
  pub providers : List Provider
  pub audit : List AuditEntry

pub record Json : Type 0 where
  pub dumps : Config → String
  pub loads : String → Option Config
  pub loads-dumps : (c : Config) → loads (dumps c) ≡ some c
  pub dumps_some : (c : Config) → (dumps c == "") ≡ false

pub record Env : Type 0 where
  pub ring : Keyring
  pub cipher : TokenCipher
  pub json : Json

abbrev pub empty : Config → Bool
empty [] = true
empty (e ∷ c) = false

-- the value of "_enc": absent or falsy, a text, or a value that `decrypt` raises on
pub data Blob : Type 0 where
  plain : Blob
  sealed : String → Blob
  unreadable : Blob

abbrev pub blob_value : Option Value → Blob
blob_value none = plain
blob_value (some null) = plain
blob_value (some (text s)) = if s == "" then plain else sealed s
blob_value (some (other truthy s)) = if truthy then unreadable else plain

abbrev pub blob_of : Config → Blob
blob_of c = blob_value (lookup "_enc" c)

-- UpdateProviderReq
pub record UpdateProviderReq : Type 0 where
  pub provider_id : String
  pub name : Option String
  pub category : Option String
  pub enabled : Option Bool
  pub config : Option Config
  pub actor_id : Option String

-- ProviderDao.get
unfoldable pub get : (provider_id : String) → ProviderDb → Resp Provider
get provider_id d = elim (find? (λ p. p.id == provider_id) d.providers) [
  | none ↦ failure "not_found" "Provider not found"
  | some p ↦ success p
]

-- ProviderDao.create, where `p` is the row to insert
unfoldable pub create : Provider → ProviderDb → Resp Provider × ProviderDb
create p d =
    if any (λ q. q.key == p.key) d.providers
    then (failure "conflict" "Provider key already exists", d)
    else (success p, record d { providers = d.providers ++ p ∷ [] })

-- the attributes that ProviderDao.update writes
abbrev pub updated : UpdateProviderReq → Option Config → Provider → Provider
updated req config p = record p {
  name = get_or req.name p.name;
  category = get_or req.category p.category;
  enabled = get_or req.enabled p.enabled;
  config = get_or config p.config;
}

-- ProviderDao.update, with the configuration that the facade passes
unfoldable pub update : UpdateProviderReq → Option Config → ProviderDb → Resp Provider × ProviderDb
update req config d = elim (get req.provider_id d) [
  | failure code message ↦ (failure code message, d)
  | success p ↦ (
    success (updated req config p),
    record d {
      providers = update_if (λ q. q.id == req.provider_id) (updated req config) d.providers;
    },
  )
]

-- _audit
abbrev pub audited : (action target : String) → Detail → Option String → ProviderDb → ProviderDb
audited action target detail actor_id d = record d {
  audit =
      d.audit
      ++ record { action = action; target = target; detail = detail; actor_id = actor_id } ∷ [];
}

-- the keys with a value that the test accepts
abbrev pub keys_with : (Value → Bool) → Config → List String
keys_with p [] = []
keys_with p ((k, v) ∷ c) = let rest = keys_with p c in if p v then k ∷ rest else rest

-- the `detail` of an update
abbrev pub update_detail : UpdateProviderReq → Detail
update_detail req =
    let incoming = get_or req.config [] in
    record {
      enabled = req.enabled;
      name = req.name;
      config_keys = [];
      config_set = keys_with (λ v. not (is_null v) && not (is_mask v)) incoming;
      config_removed = keys_with is_null incoming;
    }

module _ (env : Env) where
  open env use {ring, cipher, json}

  -- _seal_config
  unfoldable pub seal_config : ℕ → Config → Config
  seal_config nonce config =
      if empty config || not (enabled cipher)
      then config
      else ("_enc", text (encrypt ring cipher nonce (json.dumps config))) ∷ []

  -- what a decrypted text stands for
  abbrev pub opened_config : String → Config
  opened_config opened = if opened == "" then [] else get_or (json.loads opened) []

  -- _open_config; `none` where it raises
  unfoldable pub open_config : Config → Option Config
  open_config config = elim (blob_of config) [
    | plain ↦ some config
    | sealed blob ↦ some (opened_config (decrypt ring cipher blob))
    | unreadable ↦ none
  ]

  -- a provider with its configuration opened
  abbrev pub opened_provider : Provider → Option Provider
  opened_provider p = elim (open_config p.config) [
    | none ↦ none
    | some config ↦ some (record p { config = config })
  ]

  abbrev pub opened_all : List Provider → Option (List Provider)
  opened_all [] = some []
  opened_all (p ∷ ps) = elim (opened_provider p) [
    | none ↦ none
    | some q ↦ elim (opened_all ps) [ none ↦ none | some qs ↦ some (q ∷ qs) ]
  ]

  abbrev pub is_listed : Option Bool → Provider → Bool
  is_listed none p = true
  is_listed (some true) p = p.enabled
  is_listed (some false) p = not p.enabled

  -- ProvidersFacade.list_providers over ProviderDao.list
  unfoldable pub list_providers : (enabled : Option Bool) → ProviderDb → Option (List Provider)
  list_providers wanted d = opened_all (keep_if (is_listed wanted) d.providers)

  -- _decrypt_for_response, of an answer that is committed
  abbrev pub answer : Provider → Option (Resp Provider)
  answer p = elim (opened_provider p) [ none ↦ none | some q ↦ some (success q) ]

  -- ProvidersFacade.create_provider; `p` has the primary key of the row and the plain configuration
  unfoldable pub create_provider :
      (nonce : ℕ)
      → Provider
      → (actor_id : Option String) → Session ProviderDb
      → Option (Resp Provider) × Session ProviderDb
  create_provider nonce p actor_id s =
      let detail : Detail = record {
        enabled = some p.enabled;
        name = none;
        config_keys = keys p.config;
        config_set = [];
        config_removed = [];
      } in
      let row = record p { config = seal_config nonce p.config } in
      let (resp, d) = create row s.working in
      elim resp [
        | failure code message ↦ (some (failure code message), s)
        | success q ↦
            (answer q, commit (write (λ _. audited "provider.create" p.key detail actor_id d) s))
      ]

  -- the configuration that an update stores; `none` where opening the stored one raises
  unfoldable pub new_config : (nonce : ℕ) → UpdateProviderReq → ProviderDb → Option (Option Config)
  new_config nonce req d = elim req.config [
    | none ↦ some none
    | some incoming ↦ elim (get req.provider_id d) [
      | failure code message ↦ some (some (seal_config nonce (merge_with_existing incoming [])))
      | success p ↦ elim (open_config p.config) [
        | none ↦ none
        | some existing ↦ some (some (seal_config nonce (merge_with_existing incoming existing)))
      ]
    ]
  ]

  -- ProvidersFacade.update_provider
  unfoldable pub update_provider :
      (nonce : ℕ)
      → UpdateProviderReq
      → Session ProviderDb
      → Option (Resp Provider) × Session ProviderDb
  update_provider nonce req s = elim (new_config nonce req s.working) [
    | none ↦ (none, s)
    | some config ↦
        let (resp, d) = update req config s.working in
        elim resp [
          | failure code message ↦ (some (failure code message), s)
          | success q ↦ (
            answer q,
            commit
                (write (λ _. audited "provider.update" q.key (update_detail req) req.actor_id d) s),
          )
        ]
  ]
