-- ===== src/Base/Money.antt =====
-- Amounts of money. An amount is a whole number of millionths of the major unit, where the source has
-- a float of major units; what the source rounds is rounded here, a tie to the even neighbour.
use Prim.Native.Nat.{ℕ, ◌+◌, ◌*◌, ◌/◌, ◌%◌, ◌≤◌}
use mathlib.Core.Path.{◌≡◌, refl}
use mathlib.Core.List.{List, [], ◌∷◌}
use native.Mathlib.Omega.{arith}
use image2prompt.Base.Tests.{ltb, if◌then◌else◌}
use image2prompt.Base.Lists.{sum_by, length, All}

-- `int(round(x * 100))`: minor units
unfoldable pub minor : ℕ → ℕ
minor x =
    let q = x / 10_000 in
    let r = x % 10_000 in if ltb r 5_000 then q else if ltb 5_000 r then q + 1 else q + q % 2

-- `m / 100.0` of minor units
abbrev pub from_minor : ℕ → ℕ
from_minor m = m * 10_000

-- `round(x, 2)`
unfoldable pub round2 : ℕ → ℕ
round2 x = from_minor (minor x)

-- at most k halves of a minor unit apart
abbrev pub IsWithin : (k a b : ℕ) → Type 0
IsWithin k a b = (a ≤ b + k * 5_000) × (b ≤ a + k * 5_000)

pub minor-IsWithin : (x : ℕ) → IsWithin 1 (from_minor (minor x)) x
unfolding minor
minor-IsWithin x = (ground arith, ground arith)

pub minor-from_minor : (m : ℕ) → minor (from_minor m) ≡ m
unfolding minor
minor-from_minor m = ground arith

-- a whole number of minor units
abbrev pub IsWhole : ℕ → Type 0
IsWhole x = (m : ℕ) × (x ≡ from_minor m)

pub minor-IsWhole : (x : ℕ) → IsWhole x → from_minor (minor x) ≡ x
minor-IsWhole x (m, e) = ground (arith, e, minor-from_minor m)

pub sum_by-minor-IsWithin {ℓ} :
    {A : Type ℓ} (f : A → ℕ) (xs : List A)
    → IsWithin (length xs) (from_minor (sum_by (λ x. minor (f x)) xs)) (sum_by f xs)
sum_by-minor-IsWithin f [] = (omega arith, omega arith)
sum_by-minor-IsWithin f (x ∷ xs) =
    let (a, b) = sum_by-minor-IsWithin f xs in
    let (c, d) = minor-IsWithin (f x) in (omega (arith, a, b, c, d), omega (arith, a, b, c, d))

pub sum_by-minor-IsWhole {ℓ} :
    {A : Type ℓ} (f : A → ℕ) (xs : List A)
    → All (λ x. IsWhole (f x)) xs
    → from_minor (sum_by (λ x. minor (f x)) xs) ≡ sum_by f xs
sum_by-minor-IsWhole f [] h = refl
sum_by-minor-IsWhole f (x ∷ xs) (e, h) =
    omega (arith, minor-IsWhole (f x) e, sum_by-minor-IsWhole f xs h)
