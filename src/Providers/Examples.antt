-- ===== src/Providers/Examples.antt =====
-- Concrete configurations: witnesses.
use image2prompt.Base.{
  true, ℕ, ◌≡◌, ◌≢◌, ◌<◌, refl, inl, String, none, some, [], ◌∷◌, All, lookup, eq_iff, arith,
  Session, opened, IsClean, success,
}
use image2prompt.Crypto.{Keyring, new_cipher}
use image2prompt.Providers.{null, text, Config, Provider, mask, mask_config, merge_with_existing}
use image2prompt.Providers.Masks.{IsHidden, merged_value, merge-mask_config}
use image2prompt.Providers.Facade.{
  ProviderDb, Env, UpdateProviderReq, get, open_config, update_provider,
}
use image2prompt.Providers.Updates.{HasKey, update_provider-merges}
use image2prompt.Providers.Rotation.{reencrypt_configs}
use image2prompt.Providers.Erased.{Pairwise, reencrypt_configs-IsKept}
use image2prompt.Providers.Codec.{json}

abbrev ring : Keyring
ring = record {
  encrypt = λ key nonce s. s;
  decrypt = λ keys s. some s;
  decrypt_encrypt = λ key keys nonce s h. refl;
  fingerprint = λ key. "0123456789ab";
  fingerprint_plain = λ key. refl;
  fingerprint_some = λ key. refl;
}

abbrev stored : Config
stored = ("api_key", text "sk-1") ∷ ("model", text "m") ∷ []

merge-mask_config_example :
    (merge_with_existing (mask_config stored) stored ≡ stored) × All IsHidden (mask_config stored)
merge-mask_config_example = merge-mask_config stored (refl, (refl, tt)) (refl, (refl, tt))

abbrev key : String
key = "k1"

abbrev env : Env
env = record { ring = ring; cipher = new_cipher ring key []; json = json }

key_some : key ≢ ""
key_some = ground (arith, eq_iff key "")

env-HasKey : HasKey env
env-HasKey = record { key = key; previous = []; cipher = refl; some_key = key_some }

abbrev provider : (id : String) → Config → Provider
provider id config = record {
  id = id;
  key = id;
  name = "Mock";
  category = "generic";
  enabled = true;
  config = config;
}

abbrev tables : Session ProviderDb
tables = opened (record {
  providers = provider "p1" stored ∷ provider "p2" (("_enc", text "sealed") ∷ []) ∷ [];
  audit = [];
})

abbrev edit : Config
edit = ("api_key", text mask) ∷ ("model", text "m2") ∷ ("region", null) ∷ []

abbrev request : UpdateProviderReq
request = record {
  provider_id = "p1";
  name = none;
  category = none;
  enabled = none;
  config = some edit;
  actor_id = none;
}

update_provider-merges_example :
    (q : Provider) × ((update_provider env 1 request tables).0
      ≡ some (success (record q { config = merge_with_existing edit stored })))
    × (get "p1" (update_provider env 1 request tables).1.durable ≡ success q)
    × (open_config env q.config ≡ some (merge_with_existing edit stored))
    × ((k : String)
        → lookup k (merge_with_existing edit stored)
          ≡ merged_value (lookup k edit) (lookup k stored))
    × IsClean (update_provider env 1 request tables).1
unfolding get open_config
update_provider-merges_example =
    update_provider-merges env 1 request tables (provider "p1" stored) edit stored refl refl refl
      (refl, (refl, (refl, tt))) (inl env-HasKey)

reencrypt_configs-IsKept_example :
    (n : ℕ) × ((reencrypt_configs env 1 tables).0 ≡ some n)
    × Pairwise env tables.working.providers (reencrypt_configs env 1 tables).1.working.providers
    × (0 < n → IsClean (reencrypt_configs env 1 tables).1)
reencrypt_configs-IsKept_example =
    reencrypt_configs-IsKept env 1 tables env-HasKey
      ((λ e. ground (arith, e)), ((λ e. ground (arith, e)), tt))
