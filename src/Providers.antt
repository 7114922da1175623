-- ===== src/Providers.antt =====
-- services/admin-service/app/models.py (Provider) and masking.py: the configurations of the AI
-- providers, and the view of them that administrators get.
pub mod Masks
pub mod Facade
pub mod Updates
pub mod Rotation
pub mod Erased
pub mod Codec
pub mod Examples
use image2prompt.Base.{
  ℕ, String, Bool, true, false, not, ◌&&◌, ◌||◌, Option, none, some, List, [], ◌∷◌, Dict, lookup,
  insert, remove, any, codes, lower, begins_with, is_within, ◌==◌, if◌then◌else◌,
}

-- a JSON value of a configuration; any but a null or a text by its own text, with its truth value
pub data Value : Type 0 where
  null : Value
  text : String → Value
  other : (truthy : Bool) → String → Value

abbrev pub Config : Type 0
Config = Dict Value

pub record Provider : Type 0 where
  pub id : String
  pub key : String
  pub name : String
  pub category : String
  pub enabled : Bool
  pub config : Config

-- MASK
abbrev pub mask : String
mask = "••••••••"

-- _SECRET_HINTS
abbrev pub secret_hints : List String
secret_hints = "secret" ∷ "key" ∷ "token" ∷ "password" ∷ "pwd" ∷ "credential" ∷ "passwd" ∷ []

-- is_secret_key
unfoldable pub is_secret_key : String → Bool
is_secret_key name = any (λ h. is_within (lower name) (codes h)) secret_hints

-- isinstance(v, str) and v
abbrev pub is_filled : Value → Bool
is_filled null = false
is_filled (text s) = not (s == "")
is_filled (other truthy s) = false

abbrev pub is_mask : Value → Bool
is_mask null = false
is_mask (text s) = s == mask
is_mask (other truthy s) = false

abbrev pub is_null : Value → Bool
is_null null = true
is_null (text s) = false
is_null (other truthy s) = false

abbrev pub masked : String → Value → Value
masked k v = if is_secret_key k && is_filled v then text mask else v

-- mask_config; the keys of a dict are distinct, so that each entry keeps its place
unfoldable pub mask_config : Config → Config
mask_config [] = []
mask_config ((k, v) ∷ c) = (k, masked k v) ∷ mask_config c

-- one round of the loop of merge_with_existing
abbrev pub merge_entry : String → Value → Config → Config
merge_entry k v result =
    if is_null v then remove k result else if is_mask v then result else insert k v result

-- merge_with_existing
unfoldable pub merge_with_existing : (incoming existing : Config) → Config
merge_with_existing [] result = result
merge_with_existing ((k, v) ∷ incoming) result =
    merge_with_existing incoming (merge_entry k v result)
