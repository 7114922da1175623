-- ===== src/Base/Dicts.antt =====
-- Python's dicts with text keys: entries in the order in which their keys came first.
use Prim.Native.String.{String}
use mathlib.Core.Path.{◌≡◌, refl}
use mathlib.Core.Logic.{◌≢◌}
use mathlib.Core.Bool.{Bool}
use mathlib.Core.Option.{Option, none, some}
use mathlib.Core.List.{List, [], ◌∷◌}
use native.Mathlib.Omega.{arith}
use text.Mathlib.Text.{◌==◌}
use text.Mathlib.TextEquality.{eq_iff}
use image2prompt.Base.Tests.{if◌then◌else◌, is_some}

abbrev pub Dict {ℓ} : Type ℓ → Type ℓ
Dict A = List (String × A)

module _ {ℓ} {A : Type ℓ} where
  -- `d.get(k)`
  abbrev pub lookup : String → Dict A → Option A
  lookup k [] = none
  lookup k ((j, a) ∷ d) = if j == k then some a else lookup k d

  -- `d[k] = a`
  abbrev pub insert : String → A → Dict A → Dict A
  insert k a [] = (k, a) ∷ []
  insert k a ((j, b) ∷ d) = if j == k then (k, a) ∷ d else (j, b) ∷ insert k a d

  -- `d.pop(k, None)`
  abbrev pub remove : String → Dict A → Dict A
  remove k [] = []
  remove k ((j, b) ∷ d) = let rest = remove k d in if j == k then rest else (j, b) ∷ rest

  abbrev pub keys : Dict A → List String
  keys [] = []
  keys ((k, a) ∷ d) = k ∷ keys d

  -- `k in d`
  abbrev pub has_key : String → Dict A → Bool
  has_key k d = is_some (lookup k d)

  pub lookup-insert : (k : String) (a : A) (d : Dict A) → lookup k (insert k a d) ≡ some a
  lookup-insert k a [] = ground (arith, eq_iff k k)
  lookup-insert k a ((j, b) ∷ d) = ground (arith, eq_iff k k, eq_iff j k, lookup-insert k a d)

  pub lookup-insert_other :
      (k j : String) (a : A) (d : Dict A) → j ≢ k → lookup j (insert k a d) ≡ lookup j d
  lookup-insert_other k j a [] h = ground (arith, eq_iff k j)
  lookup-insert_other k j a ((i, b) ∷ d) h =
      ground (arith, eq_iff i k, eq_iff i j, eq_iff k j, lookup-insert_other k j a d h)

  pub lookup-remove : (k : String) (d : Dict A) → lookup k (remove k d) ≡ none
  lookup-remove k [] = refl
  lookup-remove k ((j, b) ∷ d) = ground (arith, eq_iff j k, lookup-remove k d)

  pub lookup-remove_other : (k j : String) (d : Dict A) → j ≢ k → lookup j (remove k d) ≡ lookup j d
  lookup-remove_other k j [] h = refl
  lookup-remove_other k j ((i, b) ∷ d) h =
      ground (arith, eq_iff i k, eq_iff i j, lookup-remove_other k j d h)
