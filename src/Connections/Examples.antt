-- ===== src/Connections/Examples.antt =====
-- A connected drive at concrete tokens. The keyring's encryption here is the identity.
use image2prompt.Base.{
  ℕ, ◌<◌, ◌≡◌, ◌≢◌, refl, String, Option, none, some, List, [], ◌∷◌, All, ltb, ◌==◌, eq_iff, arith,
  if◌then◌else◌, Session, opened, Resp, success, failure,
}
use image2prompt.Customer.Tokens.{Jwt, Claims}
use image2prompt.Crypto.{Keyring, new_cipher}
use image2prompt.Connections.{
  Connection, ConnectionDb, Exchange, Call, Served, FileContent, Drive, Drives, google, list,
  disconnect,
}
use image2prompt.Connections.Files.{Draw, callback, download_file, list_files, exchanged}
use image2prompt.Connections.Tokens.{Visit, expected, downloads}
use image2prompt.Connections.Rotation.{reencrypt_tokens}
use image2prompt.Connections.Rotated.{rotated-downloads}
use image2prompt.Connections.Tenants.{foreign_connection}

abbrev ring : Keyring
ring = record {
  encrypt = λ key nonce s. s;
  decrypt = λ keys s. some s;
  decrypt_encrypt = λ key keys nonce s h. refl;
  fingerprint = λ key. "0123456789ab";
  fingerprint_plain = λ key. refl;
  fingerprint_some = λ key. refl;
}

abbrev claims : Claims
claims = record {
  sub = some "u1";
  typ = "oauth_state";
  email = none;
  jti = "j1";
  exp = 100;
  fid = "";
}

abbrev decode : ℕ → String → Option Claims
decode now t = if ltb now 100 then some claims else none

decode-unexpired : (now : ℕ) (t : String) (c : Claims) → decode now t ≡ some c → now < c.exp
decode-unexpired now t c h = ground (arith, h)

decode-stable :
    (now later : ℕ) (t : String) (c d : Claims)
    → decode now t ≡ some c
    → decode later t ≡ some d
    → d ≡ c
decode-stable now later t c d h h' = ground (arith, h, h')

abbrev jwt : Jwt
jwt = record {
  encode = λ c. c.jti;
  decode = decode;
  decode_unexpired = λ now t c h. decode-unexpired now t c h;
  decode_stable = λ now later t c d h h'. decode-stable now later t c d h h';
}

abbrev ex : Exchange
ex = record { access_token = "t1"; refresh_token = "r"; expires_at = 9; email = "a@x.org" }

-- a drive that refreshes the token "t1" and shows the token it was called with
abbrev serves : Call String → Resp (Served FileContent)
serves c = success (record {
  content = record { content = []; content_type = c.access_token };
  access_token = if c.access_token == "t1" then "t2" else c.access_token;
  expires_at = 9;
  refreshed = c.access_token == "t1";
})

abbrev a_drive : Drive
a_drive = record {
  authorize_url = λ state. none;
  exchange_code = λ code. success ex;
  download_file = serves;
  list_files = λ c. failure "provider_error" "";
}

abbrev drives : Drives
drives = record { google_drive = a_drive; onedrive = a_drive }

abbrev draw : Draw
draw = record { id = "c1"; nonce = λ field. 1 }

abbrev s : Session ConnectionDb
s = opened (record { connections = []; customers = []; audit = [] })

abbrev first : String
first = "first"

abbrev key : String
key = "key"

first-some : first ≢ ""
first-some = ground (arith, eq_iff first "")

key-some : key ≢ ""
key-some = ground (arith, eq_iff key "")

abbrev visits : List Visit
visits =
    record { drives = drives; nonce = λ field. 2; file_id = "f" }
    ∷ record { drives = drives; nonce = λ field. 3; file_id = "g" }
    ∷ []

-- connected under the first key, re-encrypted under the second, and served without the first
rotated-downloads_example :
    downloads ring
      (new_cipher ring key [])
      []
      "u1"
      "c1"
      visits
      (reencrypt_tokens ring
        (new_cipher ring key (first ∷ []))
        (λ id field. 5)
        (callback ring (new_cipher ring first []) jwt drives google 1 draw "state" "code" s).1).1
    ≡ expected google "r" "t1" visits
unfolding new_cipher
rotated-downloads_example =
    rotated-downloads ring jwt drives google 1 draw "state" "code" first key key [] (first ∷ []) []
      (λ id field. 5) s claims ex [] visits first-some key-some key-some refl refl refl refl refl
      refl

-- the second of these downloads is made with the refreshed token
downloads_run :
    expected google "r" "t1" visits
    ≡ success (record { content = []; content_type = "t1" })
      ∷ success (record { content = []; content_type = "t2" })
      ∷ []
downloads_run = refl

abbrev owned : Connection
owned = record {
  id = "c1";
  customer_id = "u1";
  provider = "google_drive";
  display_name = "Google Drive";
  account_email = none;
  status = "connected";
  meta = exchanged ex;
}

abbrev t : Session ConnectionDb
t = opened (record { connections = owned ∷ []; customers = []; audit = [] })

abbrev other : String
other = "u2"

not_other : owned.customer_id ≢ other
not_other = ground (arith, eq_iff owned.customer_id other)

foreign_connection_example :
    All (λ (b : Connection). b.customer_id ≡ other) (list other t.working)
    × (download_file ring (new_cipher ring key []) drives [] (λ field. 1) other "c1" "f" t
        ≡ (failure "not_found" "Connection not found", t))
    × (list_files ring
          (new_cipher ring key [])
          drives
          (λ search name. search == name)
          (λ field. 1)
          other
          "c1"
          none
          t
        ≡ (failure "not_found" "Connection not found", t))
    × (disconnect 1 other "c1" t ≡ (failure "not_found" "Connection not found", t))
foreign_connection_example =
    foreign_connection ring (new_cipher ring key []) drives [] (λ search name. search == name)
      (λ field. 1) 1 other "c1" "f" none t owned refl not_other
