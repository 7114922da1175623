-- ===== src/Crypto/Sealed.antt =====
-- Values that services/shared/image2prompt_shared/crypto.py sealed open again, also after a rotation.
use Prim.Native.Nat.{ℕ}
use image2prompt.Base.{
  List-cases, eq_refl, ◌≢◌, ◌≡◌, refl, ap, String, true, false, some, List, [], ◌∷◌, contains,
  get_or, ◌==◌, eq_iff, arith, Bool-cases, inl, inr,
}
use image2prompt.Crypto
use image2prompt.Crypto.{
  Keyring, TokenCipher, has_colon, prefix_v2, after_colon, before_colon, strip, key_id,
  is_encrypted, new_cipher, tagged, encrypt, decrypt, rotate, is_current, enabled,
}
use image2prompt.Crypto.Tags.{strip-tagged, key_id-tagged, is_encrypted-tagged}

pub ne_false : (s : String) → s ≢ "" → (s == "") ≡ false
ne_false s n = ground (arith, eq_iff s "")

module _ (ring : Keyring) where
  -- the current key of a cipher, by which others may open what it seals
  abbrev pub KidIsPlain : TokenCipher → Type 0
  KidIsPlain cipher = has_colon (get_or cipher.kid "None") ≡ false

  pub new_cipher-KidIsPlain :
      (key : String) (previous : List String) → KidIsPlain (new_cipher ring key previous)
  unfolding new_cipher
  new_cipher-KidIsPlain key previous = elim (Bool-cases (key == "")) [
    | inl e ↦ rw e refl
    | inr e ↦ rw e (ring.fingerprint_plain key)
  ]

  decrypt-token :
      (keys : List String) (k : String) (nonce : ℕ) (s : String)
      → contains keys k ≡ true
      → Crypto.decrypt_token ring keys (ring.encrypt k nonce s) ≡ s
  decrypt-token [] k nonce s h = ground arith
  decrypt-token (j ∷ ks) k nonce s h = rw (ring.decrypt_encrypt k (j ∷ ks) nonce s h) refl

  -- what a cipher whose first key is `j` seals, any cipher with that key opens
  pub sealed_opens :
      (old new : TokenCipher) (j : String) (js : List String) (nonce : ℕ) (s : String)
      → KidIsPlain old
      → old.keys ≡ j ∷ js
      → contains new.keys j ≡ true
      → decrypt ring new (encrypt ring old nonce s) ≡ s
  unfolding decrypt encrypt
  sealed_opens old new j js nonce s plain e h = elim (Bool-cases (s == "")) [
    | inl n ↦ rw ((eq_iff s "").0 n) (unfold strip in refl)
    | inr n ↦
        rw (n, e)
          (rw (strip-tagged ring old.kid (ring.encrypt j nonce s) plain, decrypt)
            (decrypt-token new.keys j nonce s h))
  ]

  pub encrypt-nonempty :
      (cipher : TokenCipher) (j : String) (js : List String) (nonce : ℕ) (s : String)
      → (s == "") ≡ false
      → cipher.keys ≡ j ∷ js
      → encrypt ring cipher nonce s ≡ tagged ring cipher.kid (ring.encrypt j nonce s)
  unfolding encrypt
  encrypt-nonempty cipher j js nonce s n e = rw (n, e) refl

  -- the rotation seals what was sealed anew
  rotate-sealed :
      (old new : TokenCipher) (j i : String) (js is : List String) (nonce later : ℕ) (s : String)
      → KidIsPlain old
      → old.keys ≡ j ∷ js
      → new.keys ≡ i ∷ is
      → contains new.keys j ≡ true
      → (s == "") ≡ false
      → rotate ring new later (encrypt ring old nonce s) ≡ encrypt ring new later s
  unfolding rotate
  rotate-sealed old new j i js is nonce later s plain e f h n =
      let opens = sealed_opens old new j js nonce s plain e h in
      let sealed : is_encrypted (encrypt ring old nonce s) ≡ true =
        rw (encrypt-nonempty old j js nonce s n e)
          (is_encrypted-tagged ring old.kid (ring.encrypt j nonce s)) in
      ground (arith, opens, sealed, f, n)

  pub given_first :
      (key : String) (previous : List String)
      → (key == "") ≡ false
      → (new_cipher ring key previous).keys ≡ key ∷ Crypto.given previous
  unfolding new_cipher
  given_first key previous n = ground arith

  rotated_opens :
      (old new : TokenCipher) (j : String) (js : List String) (nonce later : ℕ) (s : String)
      → KidIsPlain old
      → KidIsPlain new
      → old.keys ≡ j ∷ js
      → contains new.keys j ≡ true
      → decrypt ring new (rotate ring new later (encrypt ring old nonce s)) ≡ s
  rotated_opens old new j js nonce later s plain plain' e h = elim (List-cases new.keys) [
    | inl f ↦ ground (arith, h, ap (λ ks. contains ks j) f)
    | inr (i, is, f) ↦ elim (Bool-cases (s == "")) [
      | inl n ↦ rw ((eq_iff s "").0 n) (unfold rotate encrypt decrypt strip is_encrypted in refl)
      | inr n ↦
          rw (rotate-sealed old new j i js is nonce later s plain e f h n)
            (sealed_opens new new i is later s plain' f (rw f (ground (arith, eq_refl i))))
    ]
  ]

  is_current-tagged :
      (cipher : TokenCipher) (kid token : String)
      → cipher.kid ≡ some kid
      → has_colon kid ≡ false
      → (kid == "") ≡ false
      → is_current cipher (tagged ring cipher.kid token) ≡ true
  unfolding is_current
  is_current-tagged cipher kid token e h n =
      rw e (rw (key_id-tagged ring kid token h n, is_current) (eq_refl kid))

  kid-new_cipher :
      (key : String) (previous : List String)
      → (key == "") ≡ false
      → (new_cipher ring key previous).kid ≡ some (ring.fingerprint key)
  unfolding new_cipher
  kid-new_cipher key previous n = rw n refl

  sealed-is_current :
      (key : String) (previous : List String) (nonce : ℕ) (s : String)
      → (key == "") ≡ false
      → (s == "") ≡ false
      → is_current
          (new_cipher ring key previous)
          (encrypt ring (new_cipher ring key previous) nonce s)
        ≡ true
  sealed-is_current key previous nonce s n m =
      rw
        (encrypt-nonempty (new_cipher ring key previous) key (Crypto.given previous) nonce s m
          (given_first key previous n))
        (is_current-tagged (new_cipher ring key previous) (ring.fingerprint key)
          (ring.encrypt key nonce s) (kid-new_cipher key previous n) (ring.fingerprint_plain key)
          (ring.fingerprint_some key))

  -- What was sealed under a key opens, to the same text, by every cipher that has the key as its
  -- current or as a previous one, and so it does after that cipher rotated it; the rotated value is
  -- then under the cipher's current key, where there is one and the text is not empty.
  pub sealed_survives :
      (key later_key : String) (previous later_previous : List String) (nonce later : ℕ)
      (s : String)
      → key ≢ ""
      → contains (new_cipher ring later_key later_previous).keys key ≡ true
      → (decrypt ring
            (new_cipher ring later_key later_previous)
            (encrypt ring (new_cipher ring key previous) nonce s)
          ≡ s)
        × (decrypt ring (new_cipher ring later_key later_previous) (
              rotate ring
                (new_cipher ring later_key later_previous)
                later
                (encrypt ring (new_cipher ring key previous) nonce s))
            ≡ s)
        × (later_key ≢ ""
            → s ≢ ""
            → is_current (new_cipher ring later_key later_previous) (
                rotate ring
                  (new_cipher ring later_key later_previous)
                  later
                  (encrypt ring (new_cipher ring key previous) nonce s))
              ≡ true)
  sealed_survives key later_key previous later_previous nonce later s n h =
      let old = new_cipher ring key previous in
      let new = new_cipher ring later_key later_previous in
      let plain = new_cipher-KidIsPlain key previous in
      let first = given_first key previous (ne_false key n) in
      (
        sealed_opens old new key (Crypto.given previous) nonce s plain first h,
        rotated_opens old new key (Crypto.given previous) nonce later s plain
            (new_cipher-KidIsPlain later_key later_previous) first h,
        (λ m k.
            rw
              (rotate-sealed old new key later_key (Crypto.given previous)
                (Crypto.given later_previous) nonce later s plain first
                (given_first later_key later_previous (ne_false later_key m)) h (ne_false s k))
              (sealed-is_current later_key later_previous later s (ne_false later_key m)
                (ne_false s k))),
      )
