-- ===== src/Providers/Updates.antt =====
-- What an update of a provider stores: services/admin-service/app/facades/providers_facade.py,
-- `update_provider`.
use image2prompt.Base.{
  ◌∙◌, ap, ℕ, ◌≡◌, ◌≢◌, refl, String, true, false, Option, some, List, [], ◌∷◌, lookup, find?,
  find?-update_if, ◌==◌, eq_refl, arith, Option-cases, ◌⊎◌, inl, inr, Session, IsClean, success,
}
use image2prompt.Crypto
use image2prompt.Crypto.{new_cipher, enabled, tagged, encrypt, decrypt}
use image2prompt.Crypto.Tags.{v2_some}
use image2prompt.Crypto.Sealed.{
  sealed_opens, encrypt-nonempty, new_cipher-KidIsPlain, given_first, ne_false,
}
use image2prompt.Providers.{text, Config, Provider, merge_with_existing}
use image2prompt.Providers.Masks.{IsDict, merged_value, lookup-merge}
use image2prompt.Providers.Facade.{
  blob_of, plain, Detail, audited, update_detail, ProviderDb, Env, UpdateProviderReq, seal_config,
  open_config, opened_config, get, update, updated, new_config, update_provider, answer,
}

-- The service has a current key.
pub record HasKey (env : Env) : Type 0 where
  pub key : String
  pub previous : List String
  pub cipher : env.cipher ≡ new_cipher env.ring key previous
  pub some_key : key ≢ ""

module _ (env : Env) (h : HasKey env) where
  open env use {ring, json}

  sealed_text :
      (nonce : ℕ) (s : String)
      → (s == "") ≡ false
      → ((encrypt ring env.cipher nonce s == "") ≡ false)
        × (decrypt ring env.cipher (encrypt ring env.cipher nonce s) ≡ s)
  sealed_text nonce s n =
      let c = new_cipher ring h.key h.previous in
      let first = given_first ring h.key h.previous (ne_false h.key h.some_key) in
      rw h.cipher (
        rw (encrypt-nonempty ring c h.key (Crypto.given h.previous) nonce s n first) (v2_some _),
        sealed_opens ring c c h.key (Crypto.given h.previous) nonce s
            (new_cipher-KidIsPlain ring h.key h.previous) first
            (rw first (ground (arith, eq_refl h.key))),
      )

  pub is_enabled : enabled env.cipher ≡ true
  is_enabled = rw h.cipher (rw (given_first ring h.key h.previous (ne_false h.key h.some_key)) refl)

  open_config-blob :
      (s : String) (c : Config)
      → (s == "") ≡ false
      → opened_config env (decrypt ring env.cipher s) ≡ c
      → open_config env (("_enc", text s) ∷ []) ≡ some c
  unfolding open_config
  open_config-blob s c n e = rw (n, open_config) (ap some e)

  -- what is sealed opens again
  pub open_config-seal_config :
      (nonce : ℕ) (c : Config) → open_config env (seal_config env nonce c) ≡ some c
  unfolding seal_config
  open_config-seal_config nonce [] = unfold open_config in refl
  open_config-seal_config nonce (e ∷ c) =
      let t = sealed_text nonce (json.dumps (e ∷ c)) (json.dumps_some (e ∷ c)) in
      rw is_enabled (
        open_config-blob _ (e ∷ c) t.0
          (rw t.1 (rw (json.dumps_some (e ∷ c), json.loads-dumps (e ∷ c)) refl)))

-- What a configuration needs to open as it was sealed: a current key; or else no encryption, and
-- nothing in it that reads as a sealed blob.
abbrev pub CanOpen : Env → Config → Type 0
CanOpen env c = HasKey env ⊎ ((enabled env.cipher ≡ false) × (blob_of c ≡ plain))

module _ (env : Env) where
  open_config-plain : (c : Config) → blob_of c ≡ plain → open_config env c ≡ some c
  unfolding open_config
  open_config-plain c p = rw (p, open_config) refl

  open_config-unsealed :
      (nonce : ℕ) (c : Config)
      → enabled env.cipher ≡ false
      → blob_of c ≡ plain
      → open_config env (seal_config env nonce c) ≡ some c
  unfolding seal_config
  open_config-unsealed nonce [] off p = open_config-plain [] p
  open_config-unsealed nonce (e ∷ c) off p = rw off (open_config-plain (e ∷ c) p)

  opens :
      (nonce : ℕ) (c : Config) → CanOpen env c → open_config env (seal_config env nonce c) ≡ some c
  opens nonce c (inl h) = open_config-seal_config env h nonce c
  opens nonce c (inr (off, p)) = open_config-unsealed nonce c off p

  new_config-merged :
      (nonce : ℕ) (req : UpdateProviderReq) (d : ProviderDb) (p : Provider)
      (incoming existing : Config)
      → get req.provider_id d ≡ success p
      → open_config env p.config ≡ some existing
      → req.config ≡ some incoming
      → new_config env nonce req d
        ≡ some (some (seal_config env nonce (merge_with_existing incoming existing)))
  unfolding new_config
  new_config-merged nonce req d p incoming existing hg ho hc =
      rw (hc, new_config) (rw (hg, new_config) (rw (ho, new_config) refl))

find?-get :
    (provider_id : String) (d : ProviderDb) (p : Provider)
    → get provider_id d ≡ success p
    → find? (λ q. q.id == provider_id) d.providers ≡ some p
unfolding get
find?-get provider_id d p h = elim (Option-cases (find? (λ q. q.id == provider_id) d.providers)) [
  | inl e ↦ ground (arith, h, e)
  | inr (q, e) ↦ ground (arith, h, e)
]

get-find? :
    (provider_id : String) (d : ProviderDb) (p : Provider)
    → find? (λ q. q.id == provider_id) d.providers ≡ some p
    → get provider_id d ≡ success p
unfolding get
get-find? provider_id d p e = rw (e, get) refl

-- the row of the provider, as the update leaves it
get-updated :
    (req : UpdateProviderReq) (config : Option Config) (d : ProviderDb) (p : Provider)
    → get req.provider_id d ≡ success p
    → ((update req config d).0 ≡ success (updated req config p))
      × (get req.provider_id (update req config d).1 ≡ success (updated req config p))
unfolding update
get-updated req config d p hg =
    rw (hg, update)
      (
        refl,
        get-find? req.provider_id _ _ (
            find?-update_if (λ q. q.id == req.provider_id) (updated req config) d.providers p
              (λ q e. e) (find?-get req.provider_id d p hg)),
      )

get-audited :
    (provider_id action target : String) (detail : Detail) (actor_id : Option String)
    (d : ProviderDb)
    → get provider_id (audited action target detail actor_id d) ≡ get provider_id d
unfolding get
get-audited provider_id action target detail actor_id d = refl

module _ (env : Env) where
  -- An update that sends a configuration, of a provider whose stored one opens, answers the provider
  -- with the merge of the two, stores a row that opens to that merge, and commits. There is a current
  -- key, or else no encryption and nothing truthy under "_enc" in the merge. In the merge, a key that
  -- was not sent, or was sent as the mask, holds what it held, one that was sent as null is gone, and
  -- any other holds what was sent.
  pub update_provider-merges :
      (nonce : ℕ) (req : UpdateProviderReq) (s : Session ProviderDb) (p : Provider)
      (incoming existing : Config)
      → get req.provider_id s.working ≡ success p
      → open_config env p.config ≡ some existing
      → req.config ≡ some incoming
      → IsDict incoming
      → CanOpen env (merge_with_existing incoming existing)
      → (q : Provider) × ((update_provider env nonce req s).0
          ≡ some (success (record q { config = merge_with_existing incoming existing })))
        × (get req.provider_id (update_provider env nonce req s).1.durable ≡ success q)
        × (open_config env q.config ≡ some (merge_with_existing incoming existing))
        × ((k : String)
            → lookup k (merge_with_existing incoming existing)
              ≡ merged_value (lookup k incoming) (lookup k existing))
        × IsClean (update_provider env nonce req s).1
  unfolding update_provider
  update_provider-merges nonce req s p incoming existing hg ho hc d can =
      let merged = merge_with_existing incoming existing in
      let config = seal_config env nonce merged in
      let q = updated req (some config) p in
      let opens = opens env nonce merged can in
      let u = get-updated req (some config) s.working p hg in
      let e = new_config-merged env nonce req s.working p incoming existing hg ho hc in
      (
        q,
        rw (e, update_provider) (rw (u.0, update_provider) (rw (opens, answer) refl)),
        rw (e, update_provider)
            (rw (u.0, update_provider)
              (get-audited req.provider_id "provider.update" q.key (update_detail req) req.actor_id
                  (update req (some config) s.working).1
                ∙ u.1)),
        opens,
        (λ k. lookup-merge k incoming existing d),
        rw (e, update_provider) (rw (u.0, update_provider) refl),
      )
