-- ===== src/Connections/Files.antt =====
-- services/customer-service/app/facades/connections_facade.py: the callbacks of OAuth, and the files
-- of a connection. The random parts of sealed tokens are arguments, by the name of the field.
use image2prompt.Base.{
  ℕ, String, Bool, true, not, ◌&&◌, Option, none, some, List, [], keep_if, update_if, get_or, ◌==◌,
  if◌then◌else◌, Session, write, commit, Resp, success, failure,
}
use image2prompt.Customer.Tokens.{Jwt}
use image2prompt.Crypto.{Keyring, TokenCipher, encrypt, decrypt}
use image2prompt.Connections.{
  FileItem, Meta, Connection, ConnectionDb, Exchange, Call, Served, FileContent, Drives, DriveName,
  google, one, provider_of, display_of, drive, create, get, record_audit, event,
}

-- a fresh row: its primary key, and the random part of the seal of each token
pub record Draw : Type 0 where
  pub id : String
  pub nonce : (field : String) → ℕ

-- the drive that serves a connection: none for a mock
abbrev pub served_by : Connection → Option DriveName
served_by c =
    if c.provider == "google_drive" && c.meta.real
    then some google
    else if c.provider == "onedrive" && c.meta.real
    then some one
    else none

abbrev pub exchanged : Exchange → Meta
exchanged ex = record {
  real = true;
  access_token = ex.access_token;
  refresh_token = ex.refresh_token;
  expires_at = ex.expires_at;
  files = [];
}

module _ (ring : Keyring) (cipher : TokenCipher) where
  -- _seal_meta
  unfoldable pub seal_meta : (nonce : String → ℕ) → Meta → Meta
  seal_meta nonce m = record m {
    access_token =
        if m.access_token == ""
        then m.access_token
        else encrypt ring cipher (nonce "access_token") m.access_token;
    refresh_token =
        if m.refresh_token == ""
        then m.refresh_token
        else encrypt ring cipher (nonce "refresh_token") m.refresh_token;
  }

  -- _open_meta
  unfoldable pub open_meta : Meta → Meta
  open_meta m = record m {
    access_token =
        if m.access_token == "" then m.access_token else decrypt ring cipher m.access_token;
    refresh_token =
        if m.refresh_token == "" then m.refresh_token else decrypt ring cipher m.refresh_token;
  }

  -- the row that a callback creates
  abbrev pub connected : Draw → DriveName → (customer_id : String) → Exchange → Connection
  connected draw name customer_id ex = record {
    id = draw.id;
    customer_id = customer_id;
    provider = provider_of name;
    display_name = display_of name;
    account_email = some ex.email;
    status = "connected";
    meta = seal_meta draw.nonce (exchanged ex);
  }

  abbrev pub save :
      (now : ℕ)
      → Draw
      → DriveName
      → (customer_id : String) → Exchange
      → Session ConnectionDb
      → Resp Connection × Session ConnectionDb
  save now draw name customer_id ex s =
      let c = connected draw name customer_id ex in
      (
        success c,
        commit (
            write
              (λ d.
                record_audit
                  (event now customer_id (some ex.email) "connection.connect" (provider_of name))
                  (create c d))
              s),
      )

  abbrev pub or_provider_error : String → String
  or_provider_error code = if code == "" then "provider_error" else code

  -- google_callback and onedrive_callback; of a code, "" stands for None
  unfoldable pub callback :
      Jwt
      → Drives
      → DriveName
      → (now : ℕ) → Draw
      → (state code : String) → Session ConnectionDb
      → Resp Connection × Session ConnectionDb
  callback jwt drives name now draw state code s = elim (jwt.decode now state) [
    | none ↦ (failure "unauthorized" "Invalid OAuth state", s)
    | some c ↦
        if not (c.typ == "oauth_state")
        then (failure "unauthorized" "Bad OAuth state", s)
        else elim ((drive drives name).exchange_code code) [
          | failure e message ↦ (failure (or_provider_error e) message, s)
          | success ex ↦ save now draw name (get_or c.sub "") ex s
        ]
  ]

  abbrev pub set_meta : (connection_id : String) → Meta → ConnectionDb → ConnectionDb
  set_meta connection_id m d = record d {
    connections = update_if (λ c. c.id == connection_id) (λ c. record c { meta = m }) d.connections;
  }

  -- _persist_refreshed_token
  unfoldable pub persist :
      (nonce : String → ℕ)
      → (connection_id : String) → (opened : Meta) → (access_token : String) → (expires_at : ℕ)
      → Session ConnectionDb
      → Session ConnectionDb
  persist nonce connection_id opened access_token expires_at s =
      let updated = record opened { access_token = access_token; expires_at = expires_at } in
      commit (write (set_meta connection_id (seal_meta nonce updated)) s)

  -- the end of a call of a drive
  abbrev pub serve :
      {A : Type 0}
      → (nonce : String → ℕ) → (connection_id : String) → (opened : Meta) → Resp (Served A)
      → Session ConnectionDb
      → Resp A × Session ConnectionDb
  serve nonce connection_id opened (failure code message) s = (failure code message, s)
  serve nonce connection_id opened (success r) s = (
    success r.content,
    (if r.refreshed && not (r.access_token == "")
        then persist nonce connection_id opened r.access_token r.expires_at s
        else s),
  )

  abbrev pub call : {A : Type 0} → Meta → A → Call A
  call tokens item = record {
    access_token = tokens.access_token;
    refresh_token = tokens.refresh_token;
    item = item;
  }

  -- download_file; `placeholder` is the content of mock connections
  unfoldable pub download_file :
      Drives
      → (placeholder : List ℕ) → (nonce : String → ℕ) → (customer_id connection_id file_id : String)
      → Session ConnectionDb
      → Resp FileContent × Session ConnectionDb
  download_file drives placeholder nonce customer_id connection_id file_id s =
      elim (get customer_id connection_id s.working) [
        | failure code message ↦ (failure code message, s)
        | success c ↦
            let tokens = open_meta c.meta in
            elim (served_by c) [
              | none ↦ (success (record { content = placeholder; content_type = "image/png" }), s)
              | some name ↦
                  serve nonce connection_id tokens
                    ((drive drives name).download_file (call tokens file_id)) s
            ]
      ]

  -- the stored files of a mock; `matches` tests a name for a text regardless of case
  abbrev pub mock_files :
      (matches : (search name : String) → Bool)
      → (search : Option String) → List FileItem
      → List FileItem
  mock_files matches none files = files
  mock_files matches (some search) files =
      if search == "" then files else keep_if (λ f. matches search f.name) files

  -- list_files
  unfoldable pub list_files :
      Drives
      → (matches : (search name : String) → Bool) → (nonce : String → ℕ)
      → (customer_id connection_id : String) → (search : Option String) → Session ConnectionDb
      → Resp (List FileItem) × Session ConnectionDb
  list_files drives matches nonce customer_id connection_id search s =
      elim (get customer_id connection_id s.working) [
        | failure code message ↦ (failure code message, s)
        | success c ↦
            let tokens = open_meta c.meta in
            elim (served_by c) [
              | none ↦ (success (mock_files matches search c.meta.files), s)
              | some name ↦
                  serve nonce connection_id tokens
                    ((drive drives name).list_files (call tokens search)) s
            ]
      ]
