-- ===== src/Connections/Tenants.antt =====
-- Connections are of one customer: services/customer-service/app/dao/connection_dao.py and
-- facades/connections_facade.py.
use image2prompt.Base.{
  ℕ, ◌≡◌, ◌≢◌, refl, String, Bool, Option, some, List, [], ◌∷◌, find?, keep_if, All,
  All-newest_first, ◌==◌, eq_iff, arith, Bool-cases, inl, inr, Session, failure,
}
use image2prompt.Crypto.{Keyring, TokenCipher}
use image2prompt.Connections.{Connection, ConnectionDb, Drives, list, get, delete, disconnect}
use image2prompt.Connections.Files.{download_file, list_files}

abbrev IsOf : String → Connection → Type 0
IsOf customer_id c = c.customer_id ≡ customer_id

kept-IsOf :
    (customer_id : String) (cs : List Connection)
    → All (IsOf customer_id) (keep_if (λ c. c.customer_id == customer_id) cs)
kept-IsOf customer_id [] = tt
kept-IsOf customer_id (c ∷ cs) = elim (Bool-cases (c.customer_id == customer_id)) [
  | inl e ↦ rw e ((eq_iff c.customer_id customer_id).0 e, kept-IsOf customer_id cs)
  | inr e ↦ rw e (kept-IsOf customer_id cs)
]

-- A listing holds only the customer's own connections.
list-IsOf : (customer_id : String) (d : ConnectionDb) → All (IsOf customer_id) (list customer_id d)
unfolding list
list-IsOf customer_id d =
    All-newest_first (IsOf customer_id) _ (kept-IsOf customer_id d.connections)

get-foreign :
    (customer_id id : String) (d : ConnectionDb) (c : Connection)
    → find? (λ (b : Connection). b.id == id) d.connections ≡ some c
    → c.customer_id ≢ customer_id
    → get customer_id id d ≡ failure "not_found" "Connection not found"
unfolding get
get-foreign customer_id id d c f n = ground (arith, f, n, eq_iff c.customer_id customer_id)

module _ (ring : Keyring) (cipher : TokenCipher) where
  -- A customer reads and disconnects only own connections: each connection that is listed is the
  -- customer's; and with the id of another customer's connection, a download, a listing of files and
  -- a disconnection answer not_found, as for an unknown id, and leave the session as it is.
  pub foreign_connection :
      (drives : Drives) (placeholder : List ℕ) (matches : String → String → Bool)
      (nonce : String → ℕ) (now : ℕ) (customer_id id file_id : String) (search : Option String)
      (s : Session ConnectionDb) (c : Connection)
      → find? (λ (b : Connection). b.id == id) s.working.connections ≡ some c
      → c.customer_id ≢ customer_id
      → All (λ (b : Connection). b.customer_id ≡ customer_id) (list customer_id s.working)
        × (download_file ring cipher drives placeholder nonce customer_id id file_id s
            ≡ (failure "not_found" "Connection not found", s))
        × (list_files ring cipher drives matches nonce customer_id id search s
            ≡ (failure "not_found" "Connection not found", s))
        × (disconnect now customer_id id s ≡ (failure "not_found" "Connection not found", s))
  unfolding download_file list_files disconnect delete
  foreign_connection drives placeholder matches nonce now customer_id id file_id search s c f n =
      let g = get-foreign customer_id id s.working c f n in
      (
        list-IsOf customer_id s.working,
        rw (g, download_file) refl,
        rw (g, list_files) refl,
        rw (g, disconnect, delete) refl,
      )
