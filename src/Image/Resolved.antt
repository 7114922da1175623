-- ===== src/Image/Resolved.antt =====
-- Which providers a request goes to: services/image-processing-service/app/services/
-- provider_resolution_service.py.
use image2prompt.Base.{
  ◌≡◌, refl, String, Bool, true, ◌&&◌, ◌||◌, Option, none, some, List, [], ◌∷◌, any, All, keep_if,
  contains, Dict, lookup, insert, keys, has_key, is_some, lookup-insert, lookup-insert_other, ◌==◌,
  eq_iff, arith, if◌then◌else◌, Option-cases, Bool-cases, All-imp, All-keep_if_self, inl, inr,
}
use image2prompt.Image.{EnabledProvider, Preferences, Resolution}
use image2prompt.Image.Peers.{Env}
use image2prompt.Image.Process.{by_key, candidates, resolved, resolve}

contains-keep_if :
    (p : String → Bool) (xs : List String) (k : String)
    → contains (keep_if p xs) k ≡ (p k && contains xs k)
contains-keep_if p [] k = ground arith
contains-keep_if p (x ∷ xs) k = elim (Bool-cases (x == k)) [
  | inl e ↦ ground (arith, contains-keep_if p xs k, eq_iff x k)
  | inr e ↦ ground (arith, contains-keep_if p xs k)
]

contains-keys : {A : Type 0} (k : String) (d : Dict A) → contains (keys d) k ≡ has_key k d
contains-keys k [] = refl
contains-keys k ((j, a) ∷ d) = ground (arith, contains-keys k d)

-- what the request and the customer ask for: the request's providers, else the customer's defaults,
-- else any
abbrev pub wanted : (requested defaults : List String) → String → Bool
wanted (r ∷ rs) ds k = contains (r ∷ rs) k
wanted [] (d ∷ ds) k = contains (d ∷ ds) k
wanted [] [] k = true

contains-candidates :
    (rs ds : List String) (out : Dict String) (k : String)
    → (has_key k out && contains (candidates rs ds (keys out)) k)
      ≡ (has_key k out && wanted rs ds k)
contains-candidates (r ∷ rs) ds out k = refl
contains-candidates [] (d ∷ ds) out k = refl
contains-candidates [] [] out k = ground (arith, contains-keys k out)

module _ {C : Type 0} where
  -- the last provider of a list with a key
  abbrev pub latest :
      String → Option (EnabledProvider C) → List (EnabledProvider C) → Option (EnabledProvider C)
  latest k acc [] = acc
  latest k acc (p ∷ ps) = latest k (if p.key == k then some p else acc) ps

  abbrev field_of : {A : Type 0} → (EnabledProvider C → A) → Option (EnabledProvider C) → Option A
  field_of f none = none
  field_of f (some p) = some (f p)

  lookup-by_key :
      {A : Type 0} (f : EnabledProvider C → A) (k : String) (out : Dict A)
      (acc : Option (EnabledProvider C)) (ps : List (EnabledProvider C))
      → lookup k out ≡ field_of f acc
      → lookup k (by_key f out ps) ≡ field_of f (latest k acc ps)
  lookup-by_key f k out acc [] h = h
  lookup-by_key f k out acc (p ∷ ps) h =
      lookup-by_key f k (insert p.key (f p) out) (if p.key == k then some p else acc) ps (
        ground (
          arith,
          h,
          eq_iff p.key k,
          lookup-insert p.key (f p) out,
          lookup-insert_other p.key k (f p) out,
        ))

  latest-found :
      (k : String) (acc : Option (EnabledProvider C)) (ps : List (EnabledProvider C))
      → is_some (latest k acc ps) ≡ (is_some acc || any (λ p. p.key == k) ps)
  latest-found k acc [] = ground arith
  latest-found k acc (p ∷ ps) =
      ground (arith, latest-found k (if p.key == k then some p else acc) ps)

  -- what a resolution knows of a provider that it selected
  pub record IsKnown (ps : List (EnabledProvider C)) (res : Resolution C) (k : String)
      : Type 0 where
    pub provider : EnabledProvider C
    pub listed : latest k none ps ≡ some provider
    pub id : lookup k res.provider_id_map ≡ some provider.id
    pub config : lookup k res.config_map ≡ some provider.config

  resolved-IsKnown :
      (requested : List String) (prefs : Preferences) (ps : List (EnabledProvider C)) (k : String)
      → has_key k (by_key (λ (p : EnabledProvider C). p.id) [] ps) ≡ true
      → IsKnown ps (resolved requested prefs ps) k
  unfolding resolved
  resolved-IsKnown requested prefs ps k h =
      let ids = lookup-by_key (λ p. p.id) k [] none ps refl in
      let configs = lookup-by_key (λ p. p.config) k [] none ps refl in
      elim (Option-cases (latest k none ps)) [
        | inl e ↦ ground (arith, h, ids, e)
        | inr (p, e) ↦ record {
          provider = p;
          listed = e;
          id = ground (arith, ids, e);
          config = ground (arith, configs, e);
        }
      ]

  has_key-any :
      (k : String) (ps : List (EnabledProvider C))
      → has_key k (by_key (λ (p : EnabledProvider C). p.id) [] ps) ≡ any (λ p. p.key == k) ps
  has_key-any k ps = ground (
    arith,
    lookup-by_key (λ (p : EnabledProvider C). p.id) k [] none ps refl,
    latest-found k none ps,
  )

  IsKnown-all :
      (requested : List String) (prefs : Preferences) (ps : List (EnabledProvider C))
      (ks : List String)
      → All (λ k. has_key k (by_key (λ (p : EnabledProvider C). p.id) [] ps) ≡ true) ks
      → All (IsKnown ps (resolved requested prefs ps)) ks
  IsKnown-all requested prefs ps ks h =
      All-imp ks (λ k e. resolved-IsKnown requested prefs ps k e) h

  -- When the customer service and the admin service answer, so does the resolution. It selects
  -- exactly the providers that are enabled and wanted: named by the request, or, if it names none, by
  -- the customer's defaults, or, without those, any. For each of them the id and the configuration
  -- are those of one enabled provider, the last with the key.
  pub resolve_selects :
      {B : Type 0} (env : Env C B) (customer_id : String) (requested : List String)
      (prefs : Preferences) (ps : List (EnabledProvider C))
      → env.preferences customer_id ≡ some prefs
      → env.enabled ≡ some ps
      → (res : Resolution C) × (resolve env customer_id requested ≡ some res)
        × ((k : String)
            → contains res.selected k
              ≡ (any (λ p. p.key == k) ps && wanted requested prefs.default_provider_keys k))
        × All (IsKnown ps res) res.selected
  unfolding resolve resolved
  resolve_selects env customer_id requested prefs ps hp he = (
    resolved requested prefs ps,
    rw (hp, he, resolve) refl,
    (λ k. ground (
      arith,
      contains-keep_if (λ j. has_key j (by_key (λ (p : EnabledProvider C). p.id) [] ps))
          (candidates requested prefs.default_provider_keys
            (keys (by_key (λ (p : EnabledProvider C). p.id) [] ps)))
          k,
      contains-candidates requested prefs.default_provider_keys
          (by_key (λ (p : EnabledProvider C). p.id) [] ps) k,
      has_key-any k ps,
    )),
    IsKnown-all requested prefs ps _ (
        All-keep_if_self (λ j. has_key j (by_key (λ (p : EnabledProvider C). p.id) [] ps))
          (candidates requested prefs.default_provider_keys
            (keys (by_key (λ (p : EnabledProvider C). p.id) [] ps)))),
  )
