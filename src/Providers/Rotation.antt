-- ===== src/Providers/Rotation.antt =====
-- services/admin-service/app/facades/providers_facade.py: `reencrypt_configs` and `rotation_status`,
-- which run after a change of keys.
use image2prompt.Base.{
  ℕ, ◌+◌, String, Bool, true, false, not, ◌&&◌, Option, none, some, List, [], ◌∷◌, lookup, ltb,
  length, nat_eq, ◌==◌, if◌then◌else◌, Session, commit, write,
}
use image2prompt.Crypto.{enabled, decrypt, is_encrypted, is_current}
use image2prompt.Providers.{Value, null, text, other, Config, Provider}
use image2prompt.Providers.Facade.{
  ProviderDb, Env, plain, sealed, unreadable, blob_of, seal_config, opened_config,
}

abbrev pub same_value : Value → Value → Bool
same_value null null = true
same_value (text s) (text t) = s == t
same_value (other a s) (other b t) = s == t
same_value _ _ = false

abbrev pub same_entry : Value → Option Value → Bool
same_entry v none = false
same_entry v (some w) = same_value v w

abbrev pub holds_all : Config → Config → Bool
holds_all [] d = true
holds_all ((k, v) ∷ c) d = same_entry v (lookup k d) && holds_all c d

-- `==` of dicts
abbrev pub same_config : Config → Config → Bool
same_config c d = nat_eq (length c) (length d) && holds_all c d

-- the loop's end: how many changed, or an exception
pub data Sweep : Type 0 where
  raised : Sweep
  swept : (changed : ℕ) → List Provider → Sweep

abbrev pub keep_one : Provider → Sweep → Sweep
keep_one p raised = raised
keep_one p (swept n ps) = swept n (p ∷ ps)

abbrev pub change_one : Provider → Sweep → Sweep
change_one p raised = raised
change_one p (swept n ps) = swept (n + 1) (p ∷ ps)

module _ (env : Env) where
  open env use {ring, cipher}

  -- one provider whose configuration opens
  abbrev pub reseal : (nonce : ℕ) → Provider → Config → Sweep → Sweep
  reseal nonce p opened rest =
      let resealed = seal_config env nonce opened in
      if same_config resealed p.config
      then keep_one p rest
      else change_one (record p { config = resealed }) rest

  -- the loop over the providers
  unfoldable pub sweep : (nonce : ℕ) → List Provider → Sweep
  sweep nonce [] = swept 0 []
  sweep nonce (p ∷ ps) =
      let rest = sweep (nonce + 1) ps in
      elim (blob_of p.config) [
        | plain ↦ keep_one p rest
        | unreadable ↦ raised
        | sealed blob ↦ reseal nonce p (opened_config env (decrypt ring cipher blob)) rest
      ]

  -- the end of the loop: `if changed: db.commit()`
  abbrev pub end_sweep : Session ProviderDb → Sweep → Option ℕ × Session ProviderDb
  end_sweep s raised = (none, s)
  end_sweep s (swept n ps) =
      let s' = write (λ d. record d { providers = ps }) s in
      (some n, if ltb 0 n then commit s' else s')

  -- ProvidersFacade.reencrypt_configs; `none` where it raises
  unfoldable pub reencrypt_configs :
      (nonce : ℕ) → Session ProviderDb → Option ℕ × Session ProviderDb
  reencrypt_configs nonce s =
      let done = end_sweep s (sweep nonce s.working.providers) in
      if not (enabled cipher) then (some 0, s) else done

  abbrev pub count_stale : (blob : String) → ℕ × ℕ → ℕ × ℕ
  count_stale blob (total, stale) =
      if not (is_encrypted blob)
      then (total, stale)
      else (total + 1, if is_current cipher blob then stale else stale + 1)

  -- the loop; `none` where it raises
  abbrev pub count_all : List Provider → Option (ℕ × ℕ)
  count_all [] = some (0, 0)
  count_all (p ∷ ps) = elim (count_all ps) [
    | none ↦ none
    | some counts ↦ elim (blob_of p.config) [
      | plain ↦ some counts
      | unreadable ↦ none
      | sealed blob ↦ some (count_stale blob counts)
    ]
  ]

  -- ProvidersFacade.rotation_status
  unfoldable pub rotation_status : ProviderDb → Option (ℕ × ℕ)
  rotation_status d =
      let counts = count_all d.providers in if not (enabled cipher) then some (0, 0) else counts
