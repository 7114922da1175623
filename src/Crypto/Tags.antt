-- ===== src/Crypto/Tags.antt =====
-- The tags of sealed values in services/shared/image2prompt_shared/crypto.py, read back.
use text.Mathlib.TextPositions.{len-append, slice-append_right, starts_with-append}
use text.Mathlib.TextLemmas.{cons-append, nil-append, append-eq-nil_iff}
use image2prompt.Base.{
  ◌≡◌, refl, ap, ◌∙◌, String, true, false, ◌^+◌, drop_text, Option, some, get_or, ◌==◌, eq_iff,
  arith, Bool-cases, inl, inr,
}
use image2prompt.Crypto.{
  Keyring, has_colon, prefix_v2, after_colon, before_colon, strip, key_id, is_encrypted, tagged,
}

colon-append : (t : String) → ":" ^+ t ≡ String.◌∷◌ ":" t
colon-append t = cons-append ":" "" t ∙ ap (λ u. String.◌∷◌ ":" u) (nil-append t)

after_colon-append : (kid t : String) → has_colon kid ≡ false → after_colon (kid ^+ (":" ^+ t)) ≡ t
after_colon-append String.[] t h = rw (nil-append (":" ^+ t), colon-append t) refl
after_colon-append (String.◌∷◌ c kid) t h =
    rw (cons-append c kid (":" ^+ t)) (ground (arith, after_colon-append kid t))

before_colon-append :
    (kid t : String) → has_colon kid ≡ false → before_colon (kid ^+ (":" ^+ t)) ≡ kid
before_colon-append String.[] t h = rw (nil-append (":" ^+ t), colon-append t) refl
before_colon-append (String.◌∷◌ c kid) t h =
    rw (cons-append c kid (":" ^+ t)) (ground (arith, before_colon-append kid t))

drop_v2 : (t : String) → drop_text (prefix_v2 ^+ t) 7 ≡ t
drop_v2 t = rw (len-append prefix_v2 t) (slice-append_right prefix_v2 t)

pub v2_some : (t : String) → ((prefix_v2 ^+ t) == "") ≡ false
v2_some t = elim (Bool-cases ((prefix_v2 ^+ t) == "")) [
  | inr e ↦ e
  | inl e ↦
      let empty : prefix_v2 ≡ "" = (append-eq-nil_iff.0 ((eq_iff (prefix_v2 ^+ t) "").0 e)).0 in
      ground (arith, (eq_iff prefix_v2 "").1 empty)
]

pub strip-tagged :
    (ring : Keyring) (kid : Option String) (token : String)
    → has_colon (get_or kid "None") ≡ false
    → strip (tagged ring kid token) ≡ some token
unfolding strip
strip-tagged ring kid token h =
    let rest = get_or kid "None" ^+ (":" ^+ token) in
    rw
      (
        v2_some rest,
        starts_with-append prefix_v2 rest,
        drop_v2 rest,
        after_colon-append (get_or kid "None") token h,
      )
      refl

pub key_id-tagged :
    (ring : Keyring) (kid token : String)
    → has_colon kid ≡ false
    → (kid == "") ≡ false
    → key_id (tagged ring (some kid) token) ≡ some kid
unfolding key_id
key_id-tagged ring kid token h n =
    let rest = kid ^+ (":" ^+ token) in
    rw (starts_with-append prefix_v2 rest, drop_v2 rest, before_colon-append kid token h, n) refl

pub is_encrypted-tagged :
    (ring : Keyring) (kid : Option String) (token : String)
    → is_encrypted (tagged ring kid token) ≡ true
unfolding is_encrypted
is_encrypted-tagged ring kid token =
    let rest = get_or kid "None" ^+ (":" ^+ token) in
    ground (arith, v2_some rest, starts_with-append prefix_v2 rest)
