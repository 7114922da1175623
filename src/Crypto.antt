-- ===== src/Crypto.antt =====
-- services/shared/image2prompt_shared/crypto.py: `TokenCipher`. Fernet and MultiFernet are
-- parameters: what one key encrypted, a list of keys decrypts that has it. The random part of a token
-- is an argument.
use Prim.Native.Char.{code}
use Prim.Native.String
pub mod Tags
pub mod Sealed
pub mod Examples
use image2prompt.Base.{
  ℕ, ◌≡◌, String, Bool, true, false, not, ◌&&◌, ◌||◌, ◌^+◌, drop_text, Option, none, some, List, [],
  ◌∷◌, contains, nat_eq, get_or, starts_with, ◌==◌, if◌then◌else◌,
}

abbrev pub has_colon : String → Bool
has_colon String.[] = false
has_colon (String.◌∷◌ c s) = nat_eq (code c) b':' || has_colon s

-- cryptography.fernet, and `_derive`
pub record Keyring : Type 0 where
  pub encrypt : (key : String) → (nonce : ℕ) → String → String
  pub decrypt : (keys : List String) → String → Option String
  pub decrypt_encrypt :
      (key : String) (keys : List String) (nonce : ℕ) (s : String)
      → contains keys key ≡ true
      → decrypt keys (encrypt key nonce s) ≡ some s
  -- TokenCipher.fingerprint: hexadecimal digits
  pub fingerprint : String → String
  pub fingerprint_plain : (key : String) → has_colon (fingerprint key) ≡ false
  pub fingerprint_some : (key : String) → (fingerprint key == "") ≡ false

pub record TokenCipher : Type 0 where
  -- the keys of `_multi`, the current one first; none of them where it is None
  pub keys : List String
  -- `_kid`
  pub kid : Option String

abbrev pub prefix_v1 : String
prefix_v1 = "enc:v1:"

abbrev pub prefix_v2 : String
prefix_v2 = "enc:v2:"

-- [k for k in raw_keys if k]
abbrev pub given : List String → List String
given [] = []
given (k ∷ ks) = let rest = given ks in if k == "" then rest else k ∷ rest

-- what follows the first colon, `s.partition(":")[2]`
abbrev pub after_colon : String → String
after_colon String.[] = ""
after_colon (String.◌∷◌ c s) = if nat_eq (code c) b':' then s else after_colon s

-- s.partition(":")[0]
abbrev pub before_colon : String → String
before_colon String.[] = ""
before_colon (String.◌∷◌ c s) =
    let rest = before_colon s in if nat_eq (code c) b':' then "" else String.◌∷◌ c rest

-- _strip
unfoldable pub strip : String → Option String
strip value =
    if value == ""
    then none
    else if starts_with value prefix_v2
    then some (after_colon (drop_text value 7))
    else if starts_with value prefix_v1
    then some (drop_text value 7)
    else none

-- is_encrypted
unfoldable pub is_encrypted : String → Bool
is_encrypted value =
    not (value == "") && (starts_with value prefix_v1 || starts_with value prefix_v2)

-- key_id
unfoldable pub key_id : String → Option String
key_id value =
    if starts_with value prefix_v2
    then (let kid = before_colon (drop_text value 7) in if kid == "" then none else some kid)
    else none

abbrev has_any : List String → Bool
has_any [] = false
has_any (k ∷ ks) = true

-- `enabled`
abbrev pub enabled : TokenCipher → Bool
enabled cipher = has_any cipher.keys

module _ (ring : Keyring) where
  -- __init__, with the cryptography package installed
  unfoldable pub new_cipher : (key : String) (previous : List String) → TokenCipher
  new_cipher key previous = record {
    keys = given (key ∷ previous);
    kid = (if key == "" then none else some (ring.fingerprint key));
  }

  -- `_multi.encrypt`, under the first key
  abbrev pub encrypt_first : List String → ℕ → String → Option String
  encrypt_first [] nonce s = none
  encrypt_first (k ∷ ks) nonce s = some (ring.encrypt k nonce s)

  -- `f"{_PREFIX_V2}{self._kid}:{token}"`
  abbrev pub tagged : Option String → String → String
  tagged kid token = prefix_v2 ^+ (get_or kid "None" ^+ (":" ^+ token))

  -- TokenCipher.encrypt
  unfoldable pub encrypt : TokenCipher → ℕ → String → String
  encrypt cipher nonce plaintext =
      if plaintext == "" then plaintext else elim (encrypt_first cipher.keys nonce plaintext) [
        | none ↦ plaintext
        | some token ↦ tagged cipher.kid token
      ]

  -- the keys' decryption of a stripped token; "" where it fails
  abbrev pub decrypt_token : List String → String → String
  decrypt_token [] token = ""
  decrypt_token (k ∷ ks) token = get_or (ring.decrypt (k ∷ ks) token) ""

  -- TokenCipher.decrypt
  unfoldable pub decrypt : TokenCipher → String → String
  decrypt cipher value = elim (strip value) [
    | none ↦ value
    | some token ↦ decrypt_token cipher.keys token
  ]

  -- TokenCipher.rotate
  unfoldable pub rotate : TokenCipher → ℕ → String → String
  rotate cipher nonce value =
      if not (is_encrypted value) || not (enabled cipher)
      then value
      else (let plain = decrypt cipher value in
          if plain == "" then value else encrypt cipher nonce plain)

-- TokenCipher.is_current
unfoldable pub is_current : TokenCipher → String → Bool
is_current cipher value = elim cipher.kid [
  | none ↦ false
  | some kid ↦ elim (key_id value) [ none ↦ false | some k ↦ k == kid ]
]
