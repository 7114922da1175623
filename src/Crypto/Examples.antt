-- ===== src/Crypto/Examples.antt =====
-- A sealed value on concrete keys: the witness. The keyring's encryption here is the identity.
use image2prompt.Base.{String, ◌≡◌, ◌≢◌, refl, true, some, [], ◌∷◌, eq_iff, arith}
use image2prompt.Crypto.{Keyring, new_cipher, encrypt, decrypt, rotate, is_current}
use image2prompt.Crypto.Sealed.{sealed_survives}

abbrev ring : Keyring
ring = record {
  encrypt = λ key nonce s. s;
  decrypt = λ keys s. some s;
  decrypt_encrypt = λ key keys nonce s h. refl;
  fingerprint = λ key. "0123456789ab";
  fingerprint_plain = λ key. refl;
  fingerprint_some = λ key. refl;
}

abbrev old_key : String
old_key = "old"

abbrev new_key : String
new_key = "new"

abbrev secret : String
secret = "secret"

named : old_key ≢ ""
named = ground (arith, eq_iff old_key "")

sealed_survives_example :
    (decrypt ring
        (new_cipher ring new_key (old_key ∷ []))
        (encrypt ring (new_cipher ring old_key []) 1 secret)
      ≡ secret)
    × (decrypt ring (new_cipher ring new_key (old_key ∷ [])) (
          rotate ring
            (new_cipher ring new_key (old_key ∷ []))
            2
            (encrypt ring (new_cipher ring old_key []) 1 secret))
        ≡ secret)
    × (new_key ≢ ""
        → secret ≢ ""
        → is_current (new_cipher ring new_key (old_key ∷ [])) (
            rotate ring
              (new_cipher ring new_key (old_key ∷ []))
              2
              (encrypt ring (new_cipher ring old_key []) 1 secret))
          ≡ true)
unfolding new_cipher
sealed_survives_example =
    sealed_survives ring old_key new_key [] (old_key ∷ []) 1 2 secret named refl
