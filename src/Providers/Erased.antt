-- ===== src/Providers/Erased.antt =====
-- What the re-encryption of services/admin-service/app/facades/providers_facade.py keeps, and what it
-- erases.
use image2prompt.Base.{
  ℕ, ◌+◌, ◌≡◌, ◌≢◌, ◌<◌, refl, ap, sym, ◌∙◌, String, false, some, List, [], ◌∷◌, All, ltb, arith,
  Bool-cases, ◌⊎◌, inl, inr, Session, IsClean,
}
use image2prompt.Crypto.{decrypt}
use image2prompt.Providers.{Config, Provider}
use image2prompt.Providers.Facade.{
  ProviderDb, Env, Blob, plain, sealed, unreadable, blob_of, seal_config, open_config,
  opened_config,
}
use image2prompt.Providers.Updates.{HasKey, open_config-seal_config, is_enabled}
use image2prompt.Providers.Rotation.{
  same_config, swept, reseal, end_sweep, sweep, reencrypt_configs,
}

Blob-cases : (b : Blob) → (b ≡ plain) ⊎ ((b ≡ unreadable) ⊎ ((s : String) × (b ≡ sealed s)))
Blob-cases plain = inl refl
Blob-cases unreadable = inr (inl refl)
Blob-cases (sealed s) = inr (inr (s, refl))

abbrev blob_text : Blob → String
blob_text plain = ""
blob_text unreadable = ""
blob_text (sealed s) = s

module _ (env : Env) where
  open env use {ring, cipher}

  -- What becomes of a provider: its configuration opens as before; and if it did not decrypt, it is
  -- empty now.
  pub record IsKept (p q : Provider) : Type 0 where
    pub same_id : q.id ≡ p.id
    pub same_key : q.key ≡ p.key
    pub opens : open_config env q.config ≡ open_config env p.config
    pub erased :
        (blob : String)
        → blob_of p.config ≡ sealed blob
        → decrypt ring cipher blob ≡ ""
        → q.config ≡ []

  abbrev pub Pairwise : List Provider → List Provider → Type 0
  Pairwise [] [] = Unit
  Pairwise (p ∷ ps) (q ∷ qs) = IsKept p q × Pairwise ps qs
  Pairwise _ _ = ⊥

  abbrev pub IsReadable : Provider → Type 0
  IsReadable p = blob_of p.config ≢ unreadable

  plain-IsKept : (p : Provider) → blob_of p.config ≡ plain → IsKept p p
  plain-IsKept p e = record {
    same_id = refl;
    same_key = refl;
    opens = refl;
    erased = λ blob f l. ground (arith, sym e ∙ f);
  }

  -- an empty configuration is not the same as one with a blob
  sealed_some : (c : Config) (blob : String) → blob_of c ≡ sealed blob → same_config [] c ≡ false
  sealed_some [] blob e = ground (arith, e)
  sealed_some (x ∷ c) blob e = ground arith

  lost_seal :
      (nonce : ℕ) (c : Config) (blob b : String)
      → blob_of c ≡ sealed blob
      → blob_of c ≡ sealed b
      → decrypt ring cipher b ≡ ""
      → seal_config env nonce (opened_config env (decrypt ring cipher blob)) ≡ []
  unfolding seal_config
  lost_seal nonce c blob b e g l =
      let same : blob ≡ b = ap blob_text (sym e ∙ g) in rw (same, l) refl

  -- the end of a round, with the row that it leaves
  reseal-IsKept :
      (nonce : ℕ) (p : Provider) (blob : String) (n : ℕ) (qs : List Provider)
      → HasKey env
      → blob_of p.config ≡ sealed blob
      → (m : ℕ) × (q : Provider) × (reseal env nonce p
            (opened_config env (decrypt ring cipher blob))
            (swept n qs)
          ≡ swept m (q ∷ qs))
        × IsKept p q
  reseal-IsKept nonce p blob n qs h e =
      let opened = opened_config env (decrypt ring cipher blob) in
      let before : open_config env p.config ≡ some opened =
        (unfold open_config in rw (e, open_config) refl) in
      elim (Bool-cases (same_config (seal_config env nonce opened) p.config)) [
        | inl f ↦ (
          n,
          p,
          rw (f, reseal) refl,
          record {
            same_id = refl;
            same_key = refl;
            opens = refl;
            erased = λ b g l. ground (
              arith,
              f,
              ap (λ c. same_config c p.config) (lost_seal nonce p.config blob b e g l),
              sealed_some p.config blob e,
            );
          },
        )
        | inr f ↦ (
          n + 1,
          record p { config = seal_config env nonce opened },
          rw (f, reseal) refl,
          record {
            same_id = refl;
            same_key = refl;
            opens = open_config-seal_config env h nonce opened ∙ sym before;
            erased = λ b g l. lost_seal nonce p.config blob b e g l;
          },
        )
      ]

  sweep-kept :
      (nonce : ℕ) (ps : List Provider)
      → HasKey env
      → All IsReadable ps
      → (n : ℕ) × (qs : List Provider) × (sweep env nonce ps ≡ swept n qs) × Pairwise ps qs
  unfolding sweep
  sweep-kept nonce [] h r = (0, [], refl, tt)
  sweep-kept nonce (p ∷ ps) h (rp, r) =
      let (n, qs, e, kept) = sweep-kept (nonce + 1) ps h r in
      elim (Blob-cases (blob_of p.config)) [
        | inl b ↦ (n, p ∷ qs, rw (b, e, sweep) refl, (plain-IsKept p b, kept))
        | inr (inl b) ↦ absurd (rp b)
        | inr (inr (blob, b)) ↦
            let (m, q, f, k) = reseal-IsKept nonce p blob n qs h b in
            (m, q ∷ qs, rw (b, e, sweep) f, (k, kept))
      ]

  reencrypt_configs-swept :
      (nonce n : ℕ) (qs : List Provider) (s : Session ProviderDb)
      → HasKey env
      → sweep env nonce s.working.providers ≡ swept n qs
      → reencrypt_configs env nonce s ≡ end_sweep env s (swept n qs)
  unfolding reencrypt_configs
  reencrypt_configs-swept nonce n qs s h e = rw (is_enabled env h, e) refl

  end_sweep-kept :
      (n : ℕ) (qs : List Provider) (s : Session ProviderDb)
      → Pairwise s.working.providers qs
      → Pairwise s.working.providers (end_sweep env s (swept n qs)).1.working.providers
        × (0 < n → IsClean (end_sweep env s (swept n qs)).1)
  end_sweep-kept n qs s kept = elim (Bool-cases (ltb 0 n)) [
    | inl e ↦ rw e (kept, λ l. refl)
    | inr e ↦ rw e (kept, λ l. ground (arith, e, l))
  ]

  -- With a current key, and no provider whose configuration raises when it is opened, the re-encryption
  -- returns. Every provider's configuration opens as before; but one that did not decrypt, so that it
  -- opened as empty, is overwritten with the empty one, and its sealed text is gone: adding its key
  -- again does not bring it back. What changed is committed.
  pub reencrypt_configs-IsKept :
      (nonce : ℕ) (s : Session ProviderDb)
      → HasKey env
      → All IsReadable s.working.providers
      → (n : ℕ) × ((reencrypt_configs env nonce s).0 ≡ some n)
        × Pairwise s.working.providers (reencrypt_configs env nonce s).1.working.providers
        × (0 < n → IsClean (reencrypt_configs env nonce s).1)
  reencrypt_configs-IsKept nonce s h r =
      let (n, qs, e, kept) = sweep-kept nonce s.working.providers h r in
      let (same, clean) = end_sweep-kept n qs s kept in
      rw (reencrypt_configs-swept nonce n qs s h e) (n, refl, same, clean)
