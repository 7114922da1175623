-- ===== src/Providers/Masks.antt =====
-- What an administrator's edit of a masked configuration does: services/admin-service/app/masking.py.
use image2prompt.Base.{
  subst, ap, ◌≡◌, ◌≢◌, refl, sym, String, true, false, Option, none, some, [], ◌∷◌, All, lookup,
  insert, has_key, lookup-insert, lookup-insert_other, lookup-remove, lookup-remove_other, ◌==◌,
  eq_iff, eq_refl, arith, if◌then◌else◌, Bool-cases, inl, inr, contains, codes, lower, mentions,
  mentions-lower, is_small, is_within,
}
use image2prompt.Providers.{
  Value, text, null, other, Config, mask, is_secret_key, is_mask, is_null, masked, mask_config,
  merge_entry, merge_with_existing,
}

-- the keys of a dict are distinct
abbrev pub IsDict : Config → Type 0
IsDict [] = Unit
IsDict ((k, v) ∷ c) = (has_key k c ≡ false) × IsDict c

-- what a key holds after the merge: the entry of the incoming dict decides
abbrev pub merged_value : Option Value → Option Value → Option Value
merged_value none old = old
merged_value (some v) old = if is_null v then none else if is_mask v then old else some v

merge_entry-own :
    (k : String) (v : Value) (c : Config)
    → lookup k (merge_entry k v c) ≡ merged_value (some v) (lookup k c)
merge_entry-own k v c = ground (arith, lookup-remove k c, lookup-insert k v c)

merge_entry-other :
    (k j : String) (v : Value) (c : Config) → j ≢ k → lookup j (merge_entry k v c) ≡ lookup j c
merge_entry-other k j v c h =
    ground (arith, lookup-remove_other k j c h, lookup-insert_other k j v c h)

lookup-has_key : (k : String) (c : Config) → has_key k c ≡ false → lookup k c ≡ none
lookup-has_key k c h = ground (arith, h)

pub lookup-merge :
    (j : String) (incoming existing : Config)
    → IsDict incoming
    → lookup j (merge_with_existing incoming existing)
      ≡ merged_value (lookup j incoming) (lookup j existing)
unfolding merge_with_existing
lookup-merge j [] existing h = refl
lookup-merge j ((k, v) ∷ incoming) existing (hk, h) =
    let rest = lookup-merge j incoming (merge_entry k v existing) h in
    elim (Bool-cases (k == j)) [
      | inl e ↦
          let same = (eq_iff k j).0 e in
          rw (e, rest)
            (subst
              (λ i.
                merged_value (lookup i incoming) (lookup i (merge_entry k v existing))
                ≡ merged_value (some v) (lookup i existing))
              same (rw (lookup-has_key k incoming hk) (merge_entry-own k v existing)))
      | inr e ↦
          rw (e, rest)
            (ap (merged_value (lookup j incoming))
              (merge_entry-other k j v existing (λ p. ground (arith, e, eq_iff j k, eq_iff k j))))
    ]

-- no value is null
abbrev pub HasNoNull : Config → Type 0
HasNoNull [] = Unit
HasNoNull ((k, v) ∷ c) = (is_null v ≡ false) × HasNoNull c

insert-same : (k : String) (v : Value) (c : Config) → lookup k c ≡ some v → insert k v c ≡ c
insert-same k v [] h = ground (arith, h)
insert-same k v ((j, w) ∷ c) h = ground (arith, h, eq_iff j k, insert-same k v c)

merge_entry-same :
    (k : String) (v : Value) (c : Config)
    → lookup k c ≡ some v
    → is_null v ≡ false
    → merge_entry k (masked k v) c ≡ c
merge_entry-same k v c h n = ground (arith, insert-same k v c h, eq_refl mask, n)

merge-part :
    (part c : Config)
    → HasNoNull part
    → ((k : String) (v : Value) → lookup k part ≡ some v → lookup k c ≡ some v)
    → IsDict part
    → merge_with_existing (mask_config part) c ≡ c
unfolding merge_with_existing mask_config
merge-part [] c n sub d = refl
merge-part ((k, v) ∷ part) c (nv, n) sub (dk, d) =
    subst (λ r. merge_with_existing (mask_config part) r ≡ c)
      (sym (merge_entry-same k v c (sub k v (rw (eq_refl k) refl)) nv))
      (merge-part part c n (λ j w h. sub j w (kept j w h)) d)
  where
    kept : (j : String) (w : Value) → lookup j part ≡ some w → lookup j ((k, v) ∷ part) ≡ some w
    kept j w h = elim (Bool-cases (k == j)) [
      | inr e ↦ rw e h
      | inl e ↦
          let gone =
            subst (λ i. lookup i part ≡ none) ((eq_iff k j).0 e) (lookup-has_key k part dk) in
          ground (arith, gone, h)
    ]

-- A name that mentions one of these words, in whatever case, is one of a secret.
abbrev pub NamesSecret : String → Type 0
NamesSecret k =
    (h : String) × (contains
        ("secret" ∷ "key" ∷ "token" ∷ "password" ∷ "pwd" ∷ "credential" ∷ "passwd" ∷ []) h
      ≡ true)
    × (mentions (codes k) (codes h) ≡ true)

-- an entry of a view: a text under the name of a secret shows as the mask, unless it is empty
abbrev pub IsHidden : String × Value → Type 0
IsHidden (k, v) = (s : String) → NamesSecret k → v ≡ text s → s ≢ "" → s ≡ mask

hinted :
    (k h word : String)
    → is_small (codes word) ≡ true
    → mentions (codes k) (codes h) ≡ true
    → (word == h) ≡ true
    → is_within (lower k) (codes word) ≡ true
hinted k h word n m e =
    mentions-lower (codes k) (codes word) n
      (subst (λ w. mentions (codes k) (codes w) ≡ true) (sym ((eq_iff word h).0 e)) m)

names-is_secret_key : (k : String) → NamesSecret k → is_secret_key k ≡ true
unfolding is_secret_key
names-is_secret_key k (h, one, m) = ground (
  arith,
  one,
  hinted k h "secret" refl m,
  hinted k h "key" refl m,
  hinted k h "token" refl m,
  hinted k h "password" refl m,
  hinted k h "pwd" refl m,
  hinted k h "credential" refl m,
  hinted k h "passwd" refl m,
)

masked-IsHidden : (k : String) (v : Value) → IsHidden (k, masked k v)
masked-IsHidden k null s m e n = ground (arith, e)
masked-IsHidden k (other b t) s m e n = ground (arith, e)
masked-IsHidden k (text t) s m e n =
    ground (arith, e, n, names-is_secret_key k m, eq_iff s "", eq_iff t "")

mask_config-IsHidden : (c : Config) → All IsHidden (mask_config c)
unfolding mask_config
mask_config-IsHidden [] = tt
mask_config-IsHidden ((k, v) ∷ c) = (masked-IsHidden k v, mask_config-IsHidden c)

-- The view of a configuration shows the mask for every text that is not empty and stands directly
-- under a name that mentions secret, key, token, password, pwd, credential or passwd, with the letters
-- A to Z in either case (texts within a nested value are not masked); and sending the view back
-- unchanged changes nothing, where the names are distinct and no value is null.
pub merge-mask_config :
    (c : Config)
    → IsDict c
    → HasNoNull c
    → (merge_with_existing (mask_config c) c ≡ c) × All IsHidden (mask_config c)
merge-mask_config c d n = (merge-part c c n (λ k v h. h) d, mask_config-IsHidden c)
