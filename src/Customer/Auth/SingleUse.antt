-- ===== src/Customer/Auth/SingleUse.antt =====
-- What is accepted once: refresh tokens, and the links that are mailed.
use image2prompt.Base.{
  ℕ, ◌≡◌, refl, String, Bool, true, false, inl, inr, Option, none, some, List, [], ◌∷◌, any, ◌==◌,
  eq_iff, eq_refl, arith, any-append, Session, Option-cases, get_or, succeeded,
}
use image2prompt.Customer.{Customer, RevokedToken, AuthDb}
use image2prompt.Customer.Daos.{is_revoked, revoke, get_by_id}
use image2prompt.Customer.Tokens.{Claims, Fresh}
use image2prompt.Customer.Auth.{Env, revocation, family_of}
use image2prompt.Customer.Auth.Refresh.{rotate, refresh_claimed, refresh}
use image2prompt.Customer.Auth.Links.{usable, consume_token}
use image2prompt.Customer.Auth.History.{Op, after, IsForward}
use image2prompt.Customer.Auth.Denied.{Has, is_denial, IsDenied, after-IsDenied}

any-implies :
    (p q : RevokedToken → Bool) (rs : List RevokedToken)
    → ((r : RevokedToken) → p r ≡ true → q r ≡ true)
    → any p rs ≡ true
    → any q rs ≡ true
any-implies p q [] f h = h
any-implies p q (r ∷ rs) f h = ground (arith, f r, any-implies p q rs f)

pub is_revoked-Has :
    (jti : String) (exp : ℕ) (d : AuthDb) → Has (is_denial jti exp) d → is_revoked jti d ≡ true
unfolding is_revoked
is_revoked-Has jti exp d h =
    any-implies (is_denial jti exp) (λ r. r.jti == jti) d.revoked (λ r e. ground arith) h

-- The row of a fresh revocation.
pub Has-revoke :
    (row : RevokedToken) (d : AuthDb)
    → is_revoked row.jti d ≡ false
    → Has (is_denial row.jti row.expires_at) (revoke row d)
unfolding revoke
Has-revoke row d h =
    ground
      (arith, any-append (is_denial row.jti row.expires_at) d.revoked (row ∷ []), eq_refl row.jti)

module _ (env : Env) where
  open env use {jwt}

  pub claimed-revoked :
      (now : ℕ) (fresh : Fresh) (c : Claims) (s : Session AuthDb)
      → is_revoked c.jti s.working ≡ true
      → succeeded (refresh_claimed env now fresh c s).0 ≡ false
  unfolding refresh_claimed
  claimed-revoked now fresh c s h = ground arith

  -- A token whose claims are denied is not accepted.
  pub refresh-IsDenied :
      (now later : ℕ) (fresh : Fresh) (token : String) (c : Claims) (s : Session AuthDb)
      → jwt.decode now token ≡ some c
      → IsDenied c.jti c.exp later s.working
      → succeeded (refresh env later fresh token s).0 ≡ false
  unfolding refresh
  refresh-IsDenied now later fresh token c s e h = elim (Option-cases (jwt.decode later token)) [
    | inl expired ↦ rw (expired, refresh) refl
    | inr (d, e') ↦
        let same = jwt.decode_stable now later token c d e e' in
        let ahead = jwt.decode_unexpired later token d e' in
        rw (e', refresh)
          (elim h [
            | inl here ↦
                claimed-revoked later fresh d s
                  (ground (arith, same, is_revoked-Has c.jti c.exp s.working here))
            | inr past ↦ absurd (ground (arith, same, ahead))
          ])
  ]

  rotate-Has :
      (now : ℕ) (fresh : Fresh) (c : Claims) (o : Option Customer) (s : Session AuthDb)
      → is_revoked c.jti s.working ≡ false
      → succeeded (rotate env now fresh c o s).0 ≡ true
      → Has (is_denial c.jti c.exp) (rotate env now fresh c o s).1.working
  unfolding rotate
  rotate-Has now fresh c none s unused h = cc
  rotate-Has now fresh c (some customer) s unused h =
      Has-revoke (revocation c "rotated" (family_of c)) s.working unused

  claimed-rotates :
      (now : ℕ) (fresh : Fresh) (c : Claims) (s : Session AuthDb)
      → succeeded (refresh_claimed env now fresh c s).0 ≡ true
      → Has (is_denial c.jti c.exp) (refresh_claimed env now fresh c s).1.working
  unfolding refresh_claimed
  claimed-rotates now fresh c s h =
      ground (arith, rotate-Has now fresh c (get_by_id (get_or c.sub "") s.working) s)

  refresh-rotates :
      (now : ℕ) (fresh : Fresh) (token : String) (s : Session AuthDb)
      → succeeded (refresh env now fresh token s).0 ≡ true
      → (c : Claims) × (jwt.decode now token ≡ some c)
        × Has (is_denial c.jti c.exp) (refresh env now fresh token s).1.working
  unfolding refresh
  refresh-rotates now fresh token s h = elim (Option-cases (jwt.decode now token)) [
    | inl bad ↦ absurd (ground (arith, bad))
    | inr (c, e) ↦ (c, e, rw (e, refresh) (claimed-rotates now fresh c s (ground (arith, e))))
  ]

  -- A refresh token that was accepted once is never accepted again, whatever sign-ups, sign-ins,
  -- refreshes, sign-outs, resets, verifications and prunes of the denylist run in between, as long
  -- as the clock does not go back.
  pub refresh_once :
      (now later : ℕ) (fresh fresh' : Fresh) (token : String) (ops : List (ℕ × Op))
      (s : Session AuthDb)
      → succeeded (refresh env now fresh token s).0 ≡ true
      → IsForward now ops later
      → succeeded
          (refresh env later fresh' token (after env ops (refresh env now fresh token s).1)).0
        ≡ false
  refresh_once now later fresh fresh' token ops s ok forward =
      let (c, e, denied) = refresh-rotates now fresh token s ok in
      refresh-IsDenied now later fresh' token c _ e
        (after-IsDenied c.jti c.exp env now ops later _ forward (inl denied))

  pub usable-IsDenied :
      (now later : ℕ) (typ token : String) (c : Claims) (d : AuthDb)
      → jwt.decode now token ≡ some c
      → IsDenied c.jti c.exp later d
      → consume_token env later typ token d ≡ none
  unfolding consume_token usable
  usable-IsDenied now later typ token c d e h = elim (Option-cases (jwt.decode later token)) [
    | inl expired ↦ rw (expired, usable) refl
    | inr (c', e') ↦
        let same = jwt.decode_stable now later token c c' e e' in
        let ahead = jwt.decode_unexpired later token c' e' in
        elim h [
          | inl here ↦ ground (arith, same, e', is_revoked-Has c.jti c.exp d here)
          | inr past ↦ absurd (ground (arith, same, ahead))
        ]
  ]

  pub consume_token-some :
      (now : ℕ) (typ token : String) (c : Claims) (d : AuthDb)
      → consume_token env now typ token d ≡ some c
      → (jwt.decode now token ≡ some c) × (c.typ ≡ typ) × (is_revoked c.jti d ≡ false)
  unfolding consume_token usable
  consume_token-some now typ token c d h = elim (Option-cases (jwt.decode now token)) [
    | inl bad ↦ absurd (ground (arith, bad))
    | inr (c', e) ↦ ground (arith, e, eq_iff c'.typ typ)
  ]
