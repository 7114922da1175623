-- ===== src/Base/Responses.antt =====
-- services/shared/image2prompt_shared/dtos.py: a `*Resp` either succeeds with its payload or carries
-- an error code and a message.
use Prim.Native.String.{String}
use mathlib.Core.Path.{◌≡◌, refl}
use mathlib.Core.Logic.{◌⊎◌, inl, inr}
use mathlib.Core.Bool.{Bool, true, false}

pub data Resp {ℓ} (A : Type ℓ) : Type ℓ where
  success : A → Resp A
  failure : (code message : String) → Resp A

abbrev pub succeeded {ℓ} : {A : Type ℓ} → Resp A → Bool
succeeded (success a) = true
succeeded (failure code message) = false

pub Resp-cases {ℓ} :
    {A : Type ℓ} (r : Resp A)
    → ((a : A) × (r ≡ success a))
      ⊎ ((code : String) × (message : String) × (r ≡ failure code message))
Resp-cases (success a) = inl (a, refl)
Resp-cases (failure code message) = inr (code, message, refl)
