-- ===== src/Connections/Rotated.antt =====
-- A change of keys: services/customer-service/app/facades/connections_facade.py re-encrypts the
-- tokens under the current key, and the former key can be dropped.
use image2prompt.Base.{
  ◌∙◌, ℕ, ◌≡◌, ◌≢◌, refl, ap, String, Bool, true, false, none, some, List, [], ◌∷◌, find?,
  update_if, count_if, ltb, contains, get_or, ◌==◌, eq_iff, arith, if◌then◌else◌, Bool-cases, inl,
  inr, Session, success,
}
use image2prompt.Customer.Tokens.{Jwt, Claims}
use image2prompt.Crypto.{Keyring, TokenCipher, new_cipher, enabled}
use image2prompt.Crypto.Sealed.{ne_false, given_first}
use image2prompt.Connections.{Meta, Connection, ConnectionDb, Exchange, Drives, DriveName, drive}
use image2prompt.Connections.Files.{Draw, callback, seal_meta, open_meta}
use image2prompt.Connections.Tokens.{Visit, expected, downloads, open_meta-seal_meta}
use image2prompt.Connections.Kept.{IsConnected, downloads-expected}
use image2prompt.Connections.Callbacks.{callback-save, save-IsConnected}
use image2prompt.Connections.Rotation.{
  has_token, same_tokens, resealed, changes, rewrite_row, reencrypt_tokens,
}

find?-rewritten :
    (id : String) (q : Connection → Bool) (f : Connection → Connection) (cs : List Connection)
    (c : Connection)
    → ((b : Connection) → (f b).id ≡ b.id)
    → find? (λ (b : Connection). b.id == id) cs ≡ some c
    → find? (λ (b : Connection). b.id == id) (update_if q f cs) ≡ some (if q c then f c else c)
find?-rewritten id q f [] c h e = ground (arith, e)
find?-rewritten id q f (b ∷ cs) c h e = elim (Bool-cases (q b)) [
  | inl g ↦ ground (arith, e, g, h b, find?-rewritten id q f cs c h)
  | inr g ↦ ground (arith, e, g, find?-rewritten id q f cs c h)
]

module _ (ring : Keyring) (key : String) (previous : List String) (n : key ≢ "") (last : String)
    (last_previous : List String) (n' : last ≢ "")
    (h : contains (new_cipher ring last last_previous).keys key ≡ true)
    (nonce : (id field : String) → ℕ) where
  abbrev mid : TokenCipher
  mid = new_cipher ring key previous

  abbrev final : TokenCipher
  final = new_cipher ring last last_previous

  mid-enabled : enabled (new_cipher ring key previous) ≡ true
  mid-enabled = rw (given_first ring key previous (ne_false key n)) refl

  abbrev after_row : Connection → Connection
  after_row c = if changes ring mid nonce c then rewrite_row ring mid nonce c else c

  -- the tokens of a meta
  abbrev SameTokens : Meta → Meta → Type 0
  SameTokens a b = (a.access_token ≡ b.access_token) × (a.refresh_token ≡ b.refresh_token)

  rewritten-opens :
      (c : Connection)
      → SameTokens (open_meta ring final (resealed ring mid nonce c)) (open_meta ring mid c.meta)
  rewritten-opens c =
      let e =
        open_meta-seal_meta ring key previous final n h (nonce c.id) (open_meta ring mid c.meta) in
      (ap (λ m. m.access_token) e, ap (λ m. m.refresh_token) e)

  -- a meta with the tokens of another opens to the same tokens
  open_meta-same :
      (a b : Meta) → SameTokens a b → SameTokens (open_meta ring final b) (open_meta ring final a)
  unfolding open_meta
  open_meta-same a b (e, f) = (rw e refl, rw f refl)

  bare-opens :
      (m : Meta) → has_token m ≡ false → SameTokens (open_meta ring final m) (open_meta ring mid m)
  unfolding open_meta
  bare-opens m e =
      let (a, r) : (m.access_token ≡ "") × (m.refresh_token ≡ "") = (
        ground (arith, e, eq_iff m.access_token ""),
        ground (arith, e, eq_iff m.refresh_token ""),
      ) in
      (rw a refl, rw r refl)

  after_row-opens :
      (c : Connection)
      → SameTokens (open_meta ring final (after_row c).meta) (open_meta ring mid c.meta)
  after_row-opens c = elim (Bool-cases (has_token c.meta)) [
    | inr e ↦ rw e (bare-opens c.meta e)
    | inl e ↦ elim (Bool-cases (same_tokens (resealed ring mid nonce c) c.meta)) [
      | inr f ↦ rw (e, f) (rewritten-opens c)
      | inl f ↦
          let m = resealed ring mid nonce c in
          let same : SameTokens (resealed ring mid nonce c) c.meta = (
            ground (arith, f, eq_iff m.access_token c.meta.access_token),
            ground (arith, f, eq_iff m.refresh_token c.meta.refresh_token),
          ) in
          let (a, b) = open_meta-same (resealed ring mid nonce c) c.meta same in
          let (a', b') = rewritten-opens c in rw (e, f) (a ∙ a', b ∙ b')
    ]
  ]

  after_row-real : (c : Connection) → (after_row c).meta.real ≡ c.meta.real
  unfolding seal_meta open_meta
  after_row-real c = elim (Bool-cases (changes ring mid nonce c)) [
    | inl e ↦ rw e refl
    | inr e ↦ rw e refl
  ]

  after_row-owner :
      (c : Connection)
      → ((after_row c).customer_id ≡ c.customer_id) × ((after_row c).provider ≡ c.provider)
  after_row-owner c = elim (Bool-cases (changes ring mid nonce c)) [
    | inl e ↦ rw e (refl, refl)
    | inr e ↦ rw e (refl, refl)
  ]

  -- the rows that the re-encryption leaves, also where it does not commit
  reencrypt_tokens-rows :
      (s : Session ConnectionDb)
      → (reencrypt_tokens ring mid nonce s).1.working.connections
        ≡ update_if (changes ring mid nonce) (rewrite_row ring mid nonce) s.working.connections
  unfolding reencrypt_tokens
  reencrypt_tokens-rows s =
      rw mid-enabled
        (elim (Bool-cases (ltb 0 (count_if (changes ring mid nonce) s.working.connections))) [
          | inl e ↦ rw e refl
          | inr e ↦ rw e refl
        ])

  pub reencrypt_tokens-IsConnected :
      (name : DriveName) (customer_id id access refresh : String) (s : Session ConnectionDb)
      → IsConnected ring key previous n name customer_id id access refresh s
      → IsConnected ring last last_previous n' name customer_id id access refresh
          (reencrypt_tokens ring mid nonce s).1
  reencrypt_tokens-IsConnected name customer_id id access refresh s k =
      let (opened_access, opened_refresh) = after_row-opens k.row in
      let (owner, provider) = after_row-owner k.row in
      record {
        row = after_row k.row;
        found =
            ap (find? (λ (b : Connection). b.id == id)) (reencrypt_tokens-rows s)
            ∙ find?-rewritten id (changes ring mid nonce) (rewrite_row ring mid nonce)
                s.working.connections k.row (λ b. refl) k.found;
        owner = owner ∙ k.owner;
        provider = provider ∙ k.provider;
        real = after_row-real k.row ∙ k.real;
        opened_access = opened_access ∙ k.opened_access;
        opened_refresh = opened_refresh ∙ k.opened_refresh;
      }

module _ (ring : Keyring) where
  -- A drive that was connected under a first key stays usable over a change of keys: the tokens are
  -- re-encrypted while the first key is among the previous ones, and the first key can then be
  -- dropped. The downloads after that, by the customer that the state of the callback names, answer
  -- what a client of the drive gets that keeps the exchanged tokens in memory and follows each
  -- refresh. The keys are not empty, the state decodes to the type "oauth_state", the code was
  -- exchanged, and the row's id is new.
  pub rotated-downloads :
      (jwt : Jwt) (drives : Drives) (name : DriveName) (now : ℕ) (draw : Draw)
      (state code first key last : String) (first_previous previous last_previous : List String)
      (nonce : (id field : String) → ℕ) (s : Session ConnectionDb) (c : Claims) (ex : Exchange)
      (placeholder : List ℕ) (vs : List Visit)
      → first ≢ ""
      → key ≢ ""
      → last ≢ ""
      → contains (new_cipher ring key previous).keys first ≡ true
      → contains (new_cipher ring last last_previous).keys key ≡ true
      → jwt.decode now state ≡ some c
      → c.typ ≡ "oauth_state"
      → (drive drives name).exchange_code code ≡ success ex
      → find? (λ (b : Connection). b.id == draw.id) s.working.connections ≡ none
      → downloads ring
          (new_cipher ring last last_previous)
          placeholder
          (get_or c.sub "")
          draw.id
          vs
          (reencrypt_tokens ring
            (new_cipher ring key previous)
            nonce
            (callback ring
              (new_cipher ring first first_previous)
              jwt
              drives
              name
              now
              draw
              state
              code
              s).1).1
        ≡ expected name ex.refresh_token ex.access_token vs
  rotated-downloads jwt drives name now draw state code first key last first_previous previous
        last_previous nonce s c ex placeholder vs m n n' h h' d t e f =
      let customer = get_or c.sub "" in
      rw (callback-save ring jwt drives name now draw state code first first_previous s c ex d t e)
        (downloads-expected ring last last_previous n' placeholder name customer draw.id
          ex.access_token ex.refresh_token vs _
          (reencrypt_tokens-IsConnected ring key previous n last last_previous n' h' nonce name
            customer draw.id ex.access_token ex.refresh_token _
            (save-IsConnected ring key previous n first first_previous m h now draw name customer ex
              s f)))
