-- ===== src/Connections.antt =====
-- services/customer-service/app/facades/connections_facade.py and dao/connection_dao.py: the file
-- systems that a customer connects, with their tokens sealed at rest.
pub mod Files
pub mod Tokens
pub mod Kept
pub mod Callbacks
pub mod Rotation
pub mod Rotated
pub mod Tenants
pub mod Examples
use image2prompt.Base.{
  ℕ, ◌*◌, ◌+◌, String, Bool, true, false, not, ◌&&◌, Option, none, some, List, [], ◌∷◌, ◌++◌, find?,
  keep_if, update_if, newest_first, get_or, ◌==◌, if◌then◌else◌, Session, write, commit, Resp,
  success, failure,
}
use image2prompt.Customer.{Customer, AuditLog}
use image2prompt.Customer.Tokens.{Jwt, Claims, access_claims, after_minutes}
use image2prompt.Crypto.{Keyring, TokenCipher, encrypt, decrypt}

pub record FileItem : Type 0 where
  pub id : String
  pub name : String
  pub mime_type : String
  pub size : ℕ

-- the JSON of `meta`; "" stands for a missing token
pub record Meta : Type 0 where
  pub real : Bool
  pub access_token : String
  pub refresh_token : String
  pub expires_at : ℕ
  pub files : List FileItem

pub record Connection : Type 0 where
  pub id : String
  pub customer_id : String
  pub provider : String
  pub display_name : String
  pub account_email : Option String
  pub status : String
  pub meta : Meta

pub record ConnectionDb : Type 0 where
  pub connections : List Connection
  pub customers : List Customer
  pub audit : List AuditLog

-- ExchangeResp and OneDriveExchangeResp
pub record Exchange : Type 0 where
  pub access_token : String
  pub refresh_token : String
  pub expires_at : ℕ
  pub email : String

-- DriveDownloadReq, DriveListReq and those of OneDrive: the tokens with the file or the search
pub record Call (A : Type 0) : Type 0 where
  pub access_token : String
  pub refresh_token : String
  pub item : A

-- an answer of a drive, with the access token that it refreshed
pub record Served (A : Type 0) : Type 0 where
  pub content : A
  pub access_token : String
  pub expires_at : ℕ
  pub refreshed : Bool

pub record FileContent : Type 0 where
  pub content : List ℕ
  pub content_type : String

-- GoogleDriveService and OneDriveService, which call the providers over HTTP
pub record Drive : Type 0 where
  pub authorize_url : (state : String) → Option String
  pub exchange_code : (code : String) → Resp Exchange
  pub download_file : Call String → Resp (Served FileContent)
  pub list_files : Call (Option String) → Resp (Served (List FileItem))

pub record Drives : Type 0 where
  pub google_drive : Drive
  pub onedrive : Drive

pub data DriveName : Type 0 where
  google : DriveName
  one : DriveName

abbrev pub provider_of : DriveName → String
provider_of google = "google_drive"
provider_of one = "onedrive"

abbrev pub display_of : DriveName → String
display_of google = "Google Drive"
display_of one = "OneDrive"

abbrev pub drive : Drives → DriveName → Drive
drive ds google = ds.google_drive
drive ds one = ds.onedrive

-- ConnectionDao.create
abbrev pub create : Connection → ConnectionDb → ConnectionDb
create c d = record d { connections = d.connections ++ c ∷ [] }

-- ConnectionDao.list
unfoldable pub list : (customer_id : String) → ConnectionDb → List Connection
list customer_id d = newest_first (keep_if (λ c. c.customer_id == customer_id) d.connections)

abbrev pub own : (customer_id : String) → Option Connection → Resp Connection
own customer_id none = failure "not_found" "Connection not found"
own customer_id (some c) =
    if not (c.customer_id == customer_id)
    then failure "not_found" "Connection not found"
    else success c

-- ConnectionDao.get
unfoldable pub get : (customer_id connection_id : String) → ConnectionDb → Resp Connection
get customer_id connection_id d = own customer_id (find? (λ c. c.id == connection_id) d.connections)

-- ConnectionDao.delete
unfoldable pub delete :
    (customer_id connection_id : String) → ConnectionDb → Resp Connection × ConnectionDb
delete customer_id connection_id d = elim (get customer_id connection_id d) [
  | failure code message ↦ (failure code message, d)
  | success c ↦ (
    success c,
    record d { connections = keep_if (λ b. not (b.id == connection_id)) d.connections },
  )
]

abbrev pub record_audit : AuditLog → ConnectionDb → ConnectionDb
record_audit a d = record d { audit = d.audit ++ a ∷ [] }

abbrev pub event :
    (now : ℕ)
    → (customer_id : String) → (email : Option String) → (action target : String) → AuditLog
event now customer_id email action target = record {
  actor_id = some customer_id;
  actor_email = email;
  action = action;
  target = some target;
  created_at = now;
}

-- What ConnectionProviderService.begin_connect answers, a stand-in for OAuth.
pub record Begun : Type 0 where
  pub display_name : String
  pub account_email : String
  pub meta : Meta

-- the address of a customer, "" where there is none
abbrev pub email_of : Option Customer → String
email_of none = ""
email_of (some c) = c.email

abbrev pub mock_row : (id customer_id provider : String) → Begun → Connection
mock_row id customer_id provider b = record {
  id = id;
  customer_id = customer_id;
  provider = provider;
  display_name = b.display_name;
  account_email = some b.account_email;
  status = "connected";
  meta = b.meta;
}

-- ConnectionsFacade.connect; a mock has no tokens, and nothing is sealed
unfoldable pub connect :
    (begin_connect : (provider email : String) → Resp Begun)
    → (now : ℕ) → (id customer_id provider : String) → Session ConnectionDb
    → Resp Connection × Session ConnectionDb
connect begin_connect now id customer_id provider s =
    let email = email_of (find? (λ (c : Customer). c.id == customer_id) s.working.customers) in
    let entry = event now customer_id (some email) "connection.connect" provider in
    elim (begin_connect provider email) [
      | failure code message ↦ (failure code message, s)
      | success b ↦ (
        success (mock_row id customer_id provider b),
        commit (write (λ d. create (mock_row id customer_id provider b) (record_audit entry d)) s),
      )
    ]

-- google_authorize and onedrive_authorize
unfoldable pub authorize : Jwt → (now : ℕ) → (jti customer_id : String) → Drive → Option String
authorize jwt now jti customer_id service =
    service.authorize_url
      (jwt.encode (access_claims customer_id "oauth_state" "" jti (after_minutes now 10)))

-- the end of a disconnection
abbrev pub settle :
    (now : ℕ)
    → (customer_id : String) → Resp Connection × ConnectionDb
    → Session ConnectionDb
    → Resp Connection × Session ConnectionDb
settle now customer_id (failure code message, d) s = (failure code message, s)
settle now customer_id (success c, d) s =
    let entry = event now customer_id none "connection.disconnect" c.provider in
    (success c, commit (write (λ _. record_audit entry d) s))

-- ConnectionsFacade.disconnect
unfoldable pub disconnect :
    (now : ℕ)
    → (customer_id connection_id : String) → Session ConnectionDb
    → Resp Connection × Session ConnectionDb
disconnect now customer_id connection_id s =
    settle now customer_id (delete customer_id connection_id s.working) s
