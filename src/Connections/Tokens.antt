-- ===== src/Connections/Tokens.antt =====
-- The tokens that a drive is called with: services/customer-service/app/facades/
-- connections_facade.py seals them at rest, opens them for a call and stores a refreshed one.
use image2prompt.Base.{
  ◌∙◌, ℕ, ◌≡◌, ◌≢◌, refl, ap, sym, String, true, not, ◌&&◌, List, [], ◌∷◌, contains, ◌==◌, eq_iff,
  if◌then◌else◌, Bool-cases, inl, inr, Session, Resp, success, failure,
}
use image2prompt.Crypto
use image2prompt.Crypto.{Keyring, TokenCipher, new_cipher, encrypt, decrypt, strip}
use image2prompt.Crypto.Sealed.{ne_false, new_cipher-KidIsPlain, given_first, sealed_opens}
use image2prompt.Connections.{Meta, ConnectionDb, Served, FileContent, Drives, DriveName, drive}
use image2prompt.Connections.Files.{seal_meta, open_meta, download_file}

-- what the caller sees of a drive's answer
abbrev pub content_of : {A : Type 0} → Resp (Served A) → Resp A
content_of (failure code message) = failure code message
content_of (success r) = success r.content

-- the access token after a drive's answer
abbrev pub next : {A : Type 0} → String → Resp (Served A) → String
next access (failure code message) = access
next access (success r) =
    if r.refreshed && not (r.access_token == "") then r.access_token else access

-- a download of a connected drive, with the state of the drives at that time
pub record Visit : Type 0 where
  pub drives : Drives
  pub nonce : String → ℕ
  pub file_id : String

-- Which calls a client of a drive makes that keeps its tokens in memory: its answers.
abbrev pub expected : DriveName → (refresh access : String) → List Visit → List (Resp FileContent)
expected name refresh access [] = []
expected name refresh access (v ∷ vs) =
    let r =
      (drive v.drives name).download_file
        (record { access_token = access; refresh_token = refresh; item = v.file_id }) in
    content_of r ∷ expected name refresh (next access r) vs

module _ (ring : Keyring) where
  -- the answers of successive downloads through the facade
  abbrev pub downloads :
      TokenCipher
      → (placeholder : List ℕ) → (customer_id connection_id : String) → List Visit
      → Session ConnectionDb
      → List (Resp FileContent)
  downloads cipher placeholder customer_id connection_id [] s = []
  downloads cipher placeholder customer_id connection_id (v ∷ vs) s =
      let (r, t) =
        download_file ring cipher v.drives placeholder v.nonce customer_id connection_id v.file_id
          s in
      r ∷ downloads cipher placeholder customer_id connection_id vs t

  module _ (key : String) (previous : List String) (new : TokenCipher) (n : key ≢ "")
      (h : contains new.keys key ≡ true) where
    abbrev old : TokenCipher
    old = new_cipher ring key previous

    reopened : (nonce : ℕ) (t : String) → decrypt ring new (encrypt ring old nonce t) ≡ t
    reopened nonce t =
        sealed_opens ring old new key (Crypto.given previous) nonce t
          (new_cipher-KidIsPlain ring key previous) (given_first ring key previous (ne_false key n))
          h

    abbrev sealed : ℕ → String → String
    sealed nonce t = if t == "" then t else encrypt ring old nonce t

    decrypt-empty : decrypt ring new "" ≡ ""
    unfolding decrypt strip
    decrypt-empty = refl

    reopened_token :
        (nonce : ℕ) (t : String)
        → (if sealed nonce t == "" then sealed nonce t else decrypt ring new (sealed nonce t)) ≡ t
    reopened_token nonce t = elim (Bool-cases (t == "")) [
      | inl e ↦ rw (e, e) refl
      | inr e ↦ rw e (elim (Bool-cases (encrypt ring old nonce t == "")) [
        | inr f ↦ rw f (reopened nonce t)
        | inl f ↦
            let g = (eq_iff (encrypt ring old nonce t) "").0 f in
            rw f (g ∙ (sym decrypt-empty ∙ (sym (ap (decrypt ring new) g) ∙ reopened nonce t)))
      ])
    ]

    -- what one cipher sealed, the other opens whole
    pub open_meta-seal_meta :
        (nonce : String → ℕ) (m : Meta) → open_meta ring new (seal_meta ring old nonce m) ≡ m
    unfolding open_meta seal_meta
    open_meta-seal_meta nonce m = λ i. record m {
      access_token = reopened_token (nonce "access_token") m.access_token i;
      refresh_token = reopened_token (nonce "refresh_token") m.refresh_token i;
    }
