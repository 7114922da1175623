-- ===== src/Customer/Auth/Family.antt =====
-- The family of a refresh token: how reuse burns it, and how pruning forgets that.
use image2prompt.Base.{
  ℕ, ◌≤◌, ◌<◌, ◌≡◌, ◌≢◌, ◌∙◌, inl, inr, String, Bool, true, false, not, some, List, [], ◌∷◌, ◌++◌,
  any, keep_if, ◌==◌, eq_iff, arith, Session, get_or, succeeded, failure,
}
use image2prompt.Customer.{Customer, RevokedToken, AuthDb}
use image2prompt.Customer.Daos.{
  get_by_id, is_revoked, revoke_family, is_family_revoked, family_marker, record_audit,
  prune_expired, is_prunable,
}
use image2prompt.Customer.Tokens.{Claims, Fresh}
use image2prompt.Customer.Auth.{Env}
use image2prompt.Customer.Auth.Refresh.{reuse, rotate, refresh_claimed, refresh}
use image2prompt.Customer.Auth.History.{Op, after, IsForward}
use image2prompt.Customer.Auth.Denied.{Has, is_denial, after-IsDenied}
use image2prompt.Customer.Auth.SingleUse.{is_revoked-Has, Has-revoke}

-- The claims of a refresh token that belongs to a family.
pub record InFamily (c : Claims) (fid : String) : Type 0 where
  pub typ : c.typ ≡ "refresh"
  pub family : c.fid ≡ fid
  pub named : fid ≢ ""

-- A refresh token that was rotated already comes back while its family still stands.
pub record IsReused (c : Claims) (d : AuthDb) : Type 0 where
  pub member : InFamily c c.fid
  pub used : is_revoked c.jti d ≡ true
  pub standing : is_family_revoked c.fid d ≡ false

-- A row that is pruned leaves no trace of its jti, unless another row has it.
any-keep_if_append :
    (p q : RevokedToken → Bool) (rs : List RevokedToken) (row : RevokedToken)
    → any p rs ≡ false
    → (p row ≡ true → q row ≡ false)
    → any p (keep_if q (rs ++ row ∷ [])) ≡ false
any-keep_if_append p q [] row h gone = ground arith
any-keep_if_append p q (r ∷ rs) row h gone = ground (arith, any-keep_if_append p q rs row)

module _ (env : Env) where
  open env use {jwt}

  Has-reuse :
      (now : ℕ) (c : Claims) (s : Session AuthDb)
      → IsReused c s.working
      → Has (is_denial (family_marker c.fid) c.exp) (reuse now c s).working
  unfolding reuse record_audit revoke_family is_family_revoked
  Has-reuse now c s r = ground (
    arith,
    eq_iff c.fid "",
    Has-revoke
        (record {
          jti = family_marker c.fid;
          expires_at = c.exp;
          reason = "reuse";
          family_id = some c.fid;
        })
        s.working r.standing,
  )

  -- The reuse is answered with an error, and the family is burned and the deed recorded, in one
  -- commit.
  refresh-reuse :
      (now : ℕ) (fresh : Fresh) (token : String) (c : Claims) (s : Session AuthDb)
      → jwt.decode now token ≡ some c
      → IsReused c s.working
      → refresh env now fresh token s
        ≡ (failure "unauthorized" "Refresh token revoked", reuse now c s)
  unfolding refresh refresh_claimed
  refresh-reuse now fresh token c s e r =
      rw (e, refresh) (ground (arith, eq_iff c.typ "refresh", r.member.typ, r.used, r.standing))

  claimed-burned :
      (now : ℕ) (fresh : Fresh) (c : Claims) (fid : String) (s : Session AuthDb)
      → InFamily c fid
      → is_family_revoked fid s.working ≡ true
      → succeeded (refresh_claimed env now fresh c s).0 ≡ false
  unfolding refresh_claimed
  claimed-burned now fresh c fid s m burned = ground (arith, eq_iff c.fid "")

  -- When a rotated refresh token comes back, its whole family is refused from then on, up to the
  -- expiry of the token that came back, whatever runs in between.
  pub reuse_burns_family :
      (now later : ℕ) (fresh fresh' : Fresh) (token token' : String) (c c' : Claims)
      (ops : List (ℕ × Op)) (s : Session AuthDb)
      → jwt.decode now token ≡ some c
      → IsReused c s.working
      → IsForward now ops later
      → later ≤ c.exp
      → jwt.decode later token' ≡ some c'
      → InFamily c' c.fid
      → succeeded
          (refresh env later fresh' token' (after env ops (refresh env now fresh token s).1)).0
        ≡ false
  unfolding refresh
  reuse_burns_family now later fresh fresh' token token' c c' ops s e r forward before e' m =
      let s' : Session AuthDb = after env ops (refresh env now fresh token s).1 in
      let burned : is_family_revoked c.fid s'.working ≡ true =
        (elim (after-IsDenied (family_marker c.fid) c.exp env now ops later
          (refresh env now fresh token s).1 forward
          (inl (rw (refresh-reuse now fresh token c s e r) (Has-reuse now c s r)))) [
            | inl here ↦
                unfold is_family_revoked in
                is_revoked-Has (family_marker c.fid) c.exp s'.working here
            | inr past ↦ absurd (omega arith)
          ]) in
      rw (e', refresh) (claimed-burned later fresh' c' c.fid s' m burned)

  prune-reuse :
      (now later : ℕ) (c : Claims) (jti : String) (s : Session AuthDb)
      → IsReused c s.working
      → 0 < c.exp
      → c.exp < later
      → is_revoked jti s.working ≡ false
      → is_revoked jti (prune_expired later (reuse now c s)).1.working ≡ false
  unfolding prune_expired reuse record_audit revoke_family is_family_revoked
  prune-reuse now later c jti s r pos past h =
      let row : RevokedToken = record {
        jti = family_marker c.fid;
        expires_at = c.exp;
        reason = "reuse";
        family_id = some c.fid;
      } in
      ground (
        arith,
        eq_iff c.fid "",
        r.standing,
        any-keep_if_append (λ (x : RevokedToken). x.jti == jti)
            (λ (x : RevokedToken). not (is_prunable later x)) s.working.revoked row h
            (λ _. ground arith),
      )

  customers-prune :
      (now later : ℕ) (c : Claims) (id : String) (s : Session AuthDb)
      → get_by_id id (prune_expired later (reuse now c s)).1.working ≡ get_by_id id s.working
  unfolding prune_expired reuse record_audit revoke_family get_by_id
  customers-prune now later c id s = ground arith

  claimed-accepted :
      (now : ℕ) (fresh : Fresh) (c : Claims) (customer : Customer) (s : Session AuthDb)
      → c.typ ≡ "refresh"
      → is_family_revoked c.fid s.working ≡ false
      → is_revoked c.jti s.working ≡ false
      → get_by_id (get_or c.sub "") s.working ≡ some customer
      → succeeded (refresh_claimed env now fresh c s).0 ≡ true
  unfolding refresh_claimed rotate
  claimed-accepted now fresh c customer s typ standing unused known =
      ground (arith, eq_iff c.typ "refresh")

  -- The marker of a burned family carries the expiry of the token that came back, and is pruned with
  -- it: once that expiry is past and the denylist is pruned, an unused token of the same family that
  -- expires later is accepted again.
  pub pruning_revives_family :
      (now later : ℕ) (fresh fresh' : Fresh) (token token' : String) (c c' : Claims)
      (customer : Customer) (s : Session AuthDb)
      → jwt.decode now token ≡ some c
      → IsReused c s.working
      → 0 < c.exp
      → c.exp < later
      → jwt.decode later token' ≡ some c'
      → InFamily c' c.fid
      → is_revoked c'.jti s.working ≡ false
      → get_by_id (get_or c'.sub "") s.working ≡ some customer
      → succeeded
          (refresh env later fresh' token'
            (prune_expired later (refresh env now fresh token s).1).1).0
        ≡ true
  unfolding refresh
  pruning_revives_family now later fresh fresh' token token' c c' customer s e r pos past e' m
        unused known =
      rw (e', refresh, refresh-reuse now fresh token c s e r)
        (claimed-accepted later fresh' c' customer (prune_expired later (reuse now c s)).1 m.typ
          (unfold is_family_revoked in
            prune-reuse now later c (family_marker c'.fid) s r pos past
              (ground (arith, m.family, r.standing)))
          (prune-reuse now later c c'.jti s r pos past unused)
          (customers-prune now later c (get_or c'.sub "") s ∙ known))
