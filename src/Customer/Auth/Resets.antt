-- ===== src/Customer/Auth/Resets.antt =====
-- Mailed links: what a password reset does, and that its link works once.
use image2prompt.Base.{
  ℕ, ◌≡◌, refl, inl, inr, String, true, false, Option, none, some, List, [], ◌∷◌, update_if, find?,
  ◌==◌, eq_iff, arith, Session, Option-cases, get_or, succeeded,
}
use image2prompt.Customer.{Customer, AuthDb}
use image2prompt.Customer.Daos.{get_by_id, is_revoked, record_audit, revoke}
use image2prompt.Customer.Tokens.{
  Claims, hash_password, verify_password, verify_password-hash_password,
}
use image2prompt.Customer.Auth.{Env, revocation}
use image2prompt.Customer.Auth.Links.{use_up, consume_token, reset_password, set_password}
use image2prompt.Customer.Auth.History.{Op, after, IsForward}
use image2prompt.Customer.Auth.Denied.{Has, is_denial, after-IsDenied}
use image2prompt.Customer.Auth.SingleUse.{Has-revoke, usable-IsDenied, consume_token-some}

find?-update_if :
    (id : String) (f : Customer → Customer) (cs : List Customer)
    → ((c : Customer) → (f c).id ≡ c.id)
    → find? (λ c. c.id == id) (update_if (λ c. c.id == id) f cs)
      ≡ (elim (find? (λ c. c.id == id) cs) [ none ↦ none | some c ↦ some (f c) ])
find?-update_if id f [] same = refl
find?-update_if id f (c ∷ cs) same = ground (arith, same c, find?-update_if id f cs same)

find?-id :
    (id : String) (cs : List Customer) (c : Customer)
    → find? (λ c. c.id == id) cs ≡ some c
    → c.id ≡ id
find?-id id [] c h = cc
find?-id id (d ∷ cs) c h = ground (arith, eq_iff d.id id, find?-id id cs c)

module _ (env : Env) (now : ℕ) where
  open env use {jwt, bcrypt}

  used_up :
      (reason action done : String) (change : String → AuthDb → AuthDb) (c : Claims)
      (o : Option Customer) (s : Session AuthDb)
      → ((id : String) → (change id s.working).revoked ≡ s.working.revoked)
      → is_revoked c.jti s.working ≡ false
      → succeeded (use_up env now reason action done change c o s).0 ≡ true
      → Has (is_denial c.jti c.exp) (use_up env now reason action done change c o s).1.working
  unfolding use_up record_audit is_revoked
  used_up reason action done change c none s same unused h = cc
  used_up reason action done change c (some customer) s same unused h =
      Has-revoke (revocation c reason none) (change customer.id s.working)
        (unfold is_revoked in ground (arith, same customer.id))

  -- A reset that succeeds was asked for with a token of type pwd_reset that was not revoked; it is
  -- revoked then until it expires.
  reset_password-consumes :
      (token : String) (pw : List ℕ) (salt : String) (s : Session AuthDb)
      → succeeded (reset_password env now token pw salt s).0 ≡ true
      → (c : Claims) × (jwt.decode now token ≡ some c)
        × (c.typ ≡ "pwd_reset")
        × Has (is_denial c.jti c.exp) (reset_password env now token pw salt s).1.working
  unfolding reset_password
  reset_password-consumes token pw salt s h =
      elim (Option-cases (consume_token env now "pwd_reset" token s.working)) [
        | inl bad ↦ absurd (ground (arith, bad))
        | inr (c, e) ↦
            let (decoded, typ, unused) =
              consume_token-some env now "pwd_reset" token c s.working e in
            (
              c,
              decoded,
              typ,
              rw (e, reset_password)
                  (used_up _ _ _ _ c (get_by_id (get_or c.sub "") s.working) s (λ _. refl) unused
                    (ground (arith, e))),
            )
      ]

  -- A password reset link works once: after a reset that succeeded the same link is refused, whatever
  -- happens in between, as long as the clock does not go back.
  pub reset_password_once :
      (later : ℕ) (token : String) (pw pw' : List ℕ) (salt salt' : String) (ops : List (ℕ × Op))
      (s : Session AuthDb)
      → succeeded (reset_password env now token pw salt s).0 ≡ true
      → IsForward now ops later
      → succeeded
          (reset_password env later token pw' salt'
            (after env ops (reset_password env now token pw salt s).1)).0
        ≡ false
  unfolding reset_password
  reset_password_once later token pw pw' salt salt' ops s ok forward =
      let (c, decoded, typ, denied) = reset_password-consumes token pw salt s ok in
      let s' : Session AuthDb = after env ops (reset_password env now token pw salt s).1 in
      let refused =
        usable-IsDenied env now later "pwd_reset" token c s'.working decoded
          (after-IsDenied c.jti c.exp env now ops later _ forward (inl denied)) in
      ground (arith, refused)

  use_up-password :
      (reason action done hashed id : String) (c : Claims) (s : Session AuthDb)
      (o : Option Customer)
      → get_by_id id s.working ≡ o
      → succeeded (use_up env now reason action done (λ i. set_password env now i hashed) c o s).0
        ≡ true
      → (customer : Customer) × (get_by_id id
            (use_up env now reason action done (λ i. set_password env now i hashed) c o s).1.working
          ≡ some customer)
        × (customer.password_hash ≡ hashed)
  unfolding use_up record_audit get_by_id revoke
  use_up-password reason action done hashed id c s none e h = cc
  use_up-password reason action done hashed id c s (some customer) e h = (
    record customer { password_hash = hashed },
    ground (
      arith,
      find?-id id s.working.customers customer e,
      find?-update_if id (λ (x : Customer). record x { password_hash = hashed }) s.working.customers
          (λ _. refl),
    ),
    refl,
  )

  -- After a reset that succeeded, the account that the token names has a password hash that the new
  -- password passes.
  pub reset_password-sets :
      (token : String) (pw : List ℕ) (salt : String) (s : Session AuthDb)
      → succeeded (reset_password env now token pw salt s).0 ≡ true
      → (c : Claims) × (customer : Customer) × (jwt.decode now token ≡ some c)
        × (get_by_id (get_or c.sub "") (reset_password env now token pw salt s).1.working
            ≡ some customer)
        × (verify_password bcrypt pw customer.password_hash ≡ true)
  unfolding reset_password
  reset_password-sets token pw salt s h =
      elim (Option-cases (consume_token env now "pwd_reset" token s.working)) [
        | inl bad ↦ absurd (ground (arith, bad))
        | inr (c, e) ↦
            let (customer, found, hash) =
              use_up-password "pwd_reset" "customer.password_reset"
                "Your password has been reset. You can now sign in." (hash_password bcrypt pw salt)
                (get_or c.sub "") c s (get_by_id (get_or c.sub "") s.working) refl
                (ground (arith, e)) in
            (
              c,
              customer,
              (consume_token-some env now "pwd_reset" token c s.working e).0,
              rw (e, reset_password) found,
              rw hash (verify_password-hash_password bcrypt pw salt),
            )
      ]
