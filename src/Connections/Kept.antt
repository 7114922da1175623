-- ===== src/Connections/Kept.antt =====
-- What a connected drive keeps over downloads (services/customer-service/app/facades/
-- connections_facade.py): the row, its owner, and tokens that open to those of the drive.
use image2prompt.Base.{
  ◌∙◌, ℕ, ◌≡◌, ◌≢◌, refl, ap, String, true, not, ◌&&◌, some, List, [], ◌∷◌, find?, find?-update_if,
  contains, ◌==◌, eq_refl, arith, Bool-cases, inl, inr, Session, Resp, success, failure,
}
use image2prompt.Crypto.{Keyring, TokenCipher, new_cipher}
use image2prompt.Crypto.Sealed.{ne_false, given_first}
use image2prompt.Connections.{
  Meta, Connection, ConnectionDb, Served, FileContent, DriveName, google, one, provider_of, drive,
  get,
}
use image2prompt.Connections.Files.{served_by, seal_meta, open_meta, persist, serve, download_file}
use image2prompt.Connections.Tokens.{
  content_of, next, Visit, expected, downloads, open_meta-seal_meta,
}

module _ (ring : Keyring) (key : String) (previous : List String) (n : key ≢ "") where
  abbrev cipher : TokenCipher
  cipher = new_cipher ring key previous

  has_key : contains (new_cipher ring key previous).keys key ≡ true
  has_key = rw (given_first ring key previous (ne_false key n)) (ground (arith, eq_refl key))

  pub record IsConnected (name : DriveName) (customer_id id access refresh : String)
      (s : Session ConnectionDb) : Type 0 where
    pub row : Connection
    pub found : find? (λ c. c.id == id) s.working.connections ≡ some row
    pub owner : row.customer_id ≡ customer_id
    pub provider : row.provider ≡ provider_of name
    pub real : row.meta.real ≡ true
    pub opened_access :
        (open_meta ring (new_cipher ring key previous) row.meta).access_token ≡ access
    pub opened_refresh :
        (open_meta ring (new_cipher ring key previous) row.meta).refresh_token ≡ refresh

  served_by-connected :
      (name : DriveName) (c : Connection)
      → c.provider ≡ provider_of name
      → c.meta.real ≡ true
      → served_by c ≡ some name
  served_by-connected google c p r = rw (p, r) refl
  served_by-connected one c p r = rw (p, r) refl

  get-own :
      (customer_id id : String) (s : Session ConnectionDb) (c : Connection)
      → find? (λ c. c.id == id) s.working.connections ≡ some c
      → c.customer_id ≡ customer_id
      → get customer_id id s.working ≡ success c
  unfolding get
  get-own customer_id id s c f o = rw (f, o, eq_refl customer_id) refl

  module _ (placeholder : List ℕ) (name : DriveName) (customer_id id access refresh : String)
      (s : Session ConnectionDb) (k : IsConnected name customer_id id access refresh s) where
    abbrev answer : Visit → Resp (Served FileContent)
    answer v =
        (drive v.drives name).download_file
          (record { access_token = access; refresh_token = refresh; item = v.file_id })

    -- a download calls the drive with the tokens, and ends as the drive's answer says
    download_file-serve :
        (v : Visit)
        → download_file ring cipher v.drives placeholder v.nonce customer_id id v.file_id s
          ≡ serve ring cipher v.nonce id (open_meta ring cipher k.row.meta) (answer v) s
    unfolding download_file
    download_file-serve v =
        rw (get-own customer_id id s k.row k.found k.owner, download_file)
          (rw (served_by-connected name k.row k.provider k.real)
            (rw (k.opened_access, k.opened_refresh) refl))

    -- opening, sealing and new tokens leave `real` as it is
    seal_meta-real :
        (nonce : String → ℕ) (m : Meta)
        → m.real ≡ k.row.meta.real
        → (seal_meta ring cipher nonce m).real ≡ true
    unfolding seal_meta
    seal_meta-real nonce m e = e ∙ k.real

    open_meta-real : (open_meta ring cipher k.row.meta).real ≡ k.row.meta.real
    unfolding open_meta
    open_meta-real = refl

    persist-IsConnected :
        (nonce : String → ℕ) (fresh : String) (expires_at : ℕ)
        → IsConnected name customer_id id fresh refresh
            (persist ring cipher nonce id (open_meta ring cipher k.row.meta) fresh expires_at s)
    unfolding persist
    persist-IsConnected nonce fresh expires_at =
        let tokens = open_meta ring cipher k.row.meta in
        let updated : Meta = record tokens { access_token = fresh; expires_at = expires_at } in
        let opens = open_meta-seal_meta ring key previous cipher n has_key nonce updated in
        record {
          row = record k.row { meta = seal_meta ring cipher nonce updated };
          found =
              find?-update_if (λ c. c.id == id) _ s.working.connections k.row (λ c e. e) k.found;
          owner = k.owner;
          provider = k.provider;
          real = seal_meta-real nonce updated open_meta-real;
          opened_access = ap (λ m. m.access_token) opens;
          opened_refresh = ap (λ m. m.refresh_token) opens ∙ k.opened_refresh;
        }

    serve-IsConnected :
        (nonce : String → ℕ) (r : Resp (Served FileContent))
        → IsConnected name customer_id id
            (next access r)
            refresh
            (serve ring cipher nonce id (open_meta ring cipher k.row.meta) r s).1
    serve-IsConnected nonce (failure code message) = k
    serve-IsConnected nonce (success r) =
        elim (Bool-cases (r.refreshed && not (r.access_token == ""))) [
          | inl e ↦ rw e (persist-IsConnected nonce r.access_token r.expires_at)
          | inr e ↦ rw e k
        ]

    serve-content :
        (nonce : String → ℕ) (opened : Meta) (r : Resp (Served FileContent))
        → (serve ring cipher nonce id opened r s).0 ≡ content_of r
    serve-content nonce opened (failure code message) = refl
    serve-content nonce opened (success r) = refl

  -- over a connected drive, successive downloads are those of a client that keeps its tokens
  pub downloads-expected :
      (placeholder : List ℕ) (name : DriveName) (customer_id id access refresh : String)
      (vs : List Visit) (s : Session ConnectionDb)
      → IsConnected name customer_id id access refresh s
      → downloads ring (new_cipher ring key previous) placeholder customer_id id vs s
        ≡ expected name refresh access vs
  downloads-expected placeholder name customer_id id access refresh [] s k = refl
  downloads-expected placeholder name customer_id id access refresh (v ∷ vs) s k =
      let r = answer placeholder name customer_id id access refresh s k v in
      let opened = open_meta ring cipher k.row.meta in
      rw (download_file-serve placeholder name customer_id id access refresh s k v) (λ i.
        serve-content placeholder name customer_id id access refresh s k v.nonce opened r i
        ∷ downloads-expected placeholder name customer_id id (next access r) refresh vs
            (serve ring cipher v.nonce id opened r s).1
            (serve-IsConnected placeholder name customer_id id access refresh s k v.nonce r) i)
