-- ===== src/Connections/Callbacks.antt =====
-- From the callback of OAuth to downloads: services/customer-service/app/facades/
-- connections_facade.py.
use image2prompt.Base.{
  ℕ, ◌≡◌, ◌≢◌, refl, ap, String, true, none, some, List, [], ◌∷◌, ◌++◌, find?, find?-append,
  contains, get_or, ◌==◌, eq_refl, Session, success,
}
use image2prompt.Customer.Tokens.{Jwt, Claims}
use image2prompt.Crypto.{Keyring, new_cipher}
use image2prompt.Connections.{Connection, ConnectionDb, Exchange, Drives, DriveName, drive}
use image2prompt.Connections.Files
use image2prompt.Connections.Files.{Draw, connected, open_meta, seal_meta, callback}
use image2prompt.Connections.Tokens.{open_meta-seal_meta}
use image2prompt.Connections.Kept.{IsConnected}

module _ (ring : Keyring) where
  pub callback-save :
      (jwt : Jwt) (drives : Drives) (name : DriveName) (now : ℕ) (draw : Draw)
      (state code key : String) (previous : List String) (s : Session ConnectionDb) (c : Claims)
      (ex : Exchange)
      → jwt.decode now state ≡ some c
      → c.typ ≡ "oauth_state"
      → (drive drives name).exchange_code code ≡ success ex
      → callback ring (new_cipher ring key previous) jwt drives name now draw state code s
        ≡ Files.save ring (new_cipher ring key previous) now draw name (get_or c.sub "") ex s
  unfolding callback
  callback-save jwt drives name now draw state code key previous s c ex d t e =
      rw (d, t, e, callback) refl

  found_last :
      (c : Connection) (cs : List Connection)
      → find? (λ (b : Connection). b.id == c.id) cs ≡ none
      → find? (λ (b : Connection). b.id == c.id) (cs ++ c ∷ []) ≡ some c
  found_last c cs f =
      rw (find?-append (λ (b : Connection). b.id == c.id) cs (c ∷ []), f, eq_refl c.id) refl

  pub save-IsConnected :
      (key : String) (previous : List String) (n : key ≢ "") (first : String)
      (first_previous : List String)
      → first ≢ ""
      → contains (new_cipher ring key previous).keys first ≡ true
      → (now : ℕ) (draw : Draw) (name : DriveName) (customer_id : String) (ex : Exchange)
        (s : Session ConnectionDb)
      → find? (λ (b : Connection). b.id == draw.id) s.working.connections ≡ none
      → IsConnected ring key previous n name customer_id draw.id ex.access_token ex.refresh_token
          (Files.save ring (new_cipher ring first first_previous) now draw name customer_id ex s).1
  save-IsConnected key previous n first first_previous m h now draw name customer_id ex s f =
      let row = connected ring (new_cipher ring first first_previous) draw name customer_id ex in
      let opens =
        open_meta-seal_meta ring first first_previous (new_cipher ring key previous) m h draw.nonce
          (Files.exchanged ex) in
      record {
        row = row;
        found = found_last row s.working.connections f;
        owner = refl;
        provider = refl;
        real = unfold seal_meta in refl;
        opened_access = ap (λ m. m.access_token) opens;
        opened_refresh = ap (λ m. m.refresh_token) opens;
      }
