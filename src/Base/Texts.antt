-- ===== src/Base/Texts.antt =====
-- Texts: membership in a set of texts, prefixes, and ASCII case folding over code points.
use Prim.Native.Nat.{ℕ, zero, suc, ◌+◌, ◌/◌, ◌%◌}
use Prim.Native.Char.{code}
use Prim.Native.String
use Prim.Native.String.{String, len, slice}
use mathlib.Core.Path.{◌≡◌, refl}
use native.Mathlib.Omega.{arith}
use mathlib.Core.Bool.{Bool, true, false, not, ◌&&◌, ◌||◌}
use mathlib.Core.List.{List, [], ◌∷◌, map}
use text.Mathlib.Text.{◌==◌}
use image2prompt.Base.Tests.{leb, ltb, nat_eq, if◌then◌else◌}

-- `k in {...}`
abbrev pub contains : List String → String → Bool
contains [] k = false
contains (x ∷ xs) k = x == k || contains xs k

-- `s[len(prefix):]` of a text that begins with `prefix`
abbrev pub drop_text : String → ℕ → String
drop_text s n = slice s n (len s)

infixl 65 ◌^+◌
abbrev pub ◌^+◌ : String → String → String
s ^+ t = String.◌++◌ s t

abbrev pub codes : String → List ℕ
codes String.[] = []
codes (String.◌∷◌ c s) = code c ∷ codes s

-- `str.lower` on ASCII
abbrev pub lower_code : ℕ → ℕ
lower_code c = if leb b'A' c && leb c b'Z' then c + 32 else c

abbrev pub lower : String → List ℕ
lower s = map lower_code (codes s)

abbrev pub begins_with : List ℕ → List ℕ → Bool
begins_with s [] = true
begins_with [] (d ∷ t) = false
begins_with (c ∷ s) (d ∷ t) = nat_eq c d && begins_with s t

-- `t in s`
abbrev pub is_within : List ℕ → List ℕ → Bool
is_within [] t = begins_with [] t
is_within (c ∷ s) t = begins_with (c ∷ s) t || is_within s t

abbrev pub same_codes : List ℕ → List ℕ → Bool
same_codes [] [] = true
same_codes (c ∷ s) (d ∷ t) = nat_eq c d && same_codes s t
same_codes _ _ = false

-- Independent of `lower`: whether a text spells a word of small letters, the large letters A to Z
-- standing for the small ones.
abbrev pub spells_code : ℕ → ℕ → Bool
spells_code c d = nat_eq c d || (leb b'A' c && leb c b'Z' && nat_eq (c + 32) d)

abbrev pub spells : List ℕ → List ℕ → Bool
spells [] [] = true
spells (c ∷ s) (d ∷ t) = spells_code c d && spells s t
spells _ _ = false

-- the text begins with a spelling of the word
abbrev pub begins_spelled : List ℕ → List ℕ → Bool
begins_spelled s [] = true
begins_spelled [] (d ∷ t) = false
begins_spelled (c ∷ s) (d ∷ t) = spells_code c d && begins_spelled s t

-- a spelling of the word is somewhere in the text
abbrev pub mentions : List ℕ → List ℕ → Bool
mentions [] t = begins_spelled [] t
mentions (c ∷ s) t = begins_spelled (c ∷ s) t || mentions s t

-- no large letter
abbrev pub is_small : List ℕ → Bool
is_small [] = true
is_small (d ∷ t) = not (leb b'A' d && leb d b'Z') && is_small t

pub spells-lower :
    (s t : List ℕ) → is_small t ≡ true → spells s t ≡ true → same_codes (map lower_code s) t ≡ true
spells-lower [] [] n h = refl
spells-lower [] (d ∷ t) n h = ground (arith, h)
spells-lower (c ∷ s) [] n h = ground (arith, h)
spells-lower (c ∷ s) (d ∷ t) n h = ground (arith, n, h, spells-lower s t)

-- the converse, of any word
pub lower-spells : (s t : List ℕ) → same_codes (map lower_code s) t ≡ true → spells s t ≡ true
lower-spells [] [] h = refl
lower-spells [] (d ∷ t) h = ground (arith, h)
lower-spells (c ∷ s) [] h = ground (arith, h)
lower-spells (c ∷ s) (d ∷ t) h = ground (arith, h, lower-spells s t)

pub begins_spelled-lower :
    (s t : List ℕ)
    → is_small t ≡ true
    → begins_spelled s t ≡ true
    → begins_with (map lower_code s) t ≡ true
begins_spelled-lower s [] n h = ground arith
begins_spelled-lower [] (d ∷ t) n h = ground (arith, h)
begins_spelled-lower (c ∷ s) (d ∷ t) n h = ground (arith, n, h, begins_spelled-lower s t)

pub mentions-lower :
    (s t : List ℕ) → is_small t ≡ true → mentions s t ≡ true → is_within (map lower_code s) t ≡ true
mentions-lower [] t n h = begins_spelled-lower [] t n h
mentions-lower (c ∷ s) t n h =
    ground (arith, n, h, begins_spelled-lower (c ∷ s) t n, mentions-lower s t n)

abbrev pub digit : ℕ → String
digit d = slice "0123456789" d (d + 1)

-- `str(n)`; the fuel n is enough, since n / 10 is below n
abbrev pub decimal : ℕ → ℕ → String
decimal zero n = digit n
decimal (suc fuel) n =
    let rest = decimal fuel (n / 10) in if ltb n 10 then digit n else rest ^+ digit (n % 10)

abbrev pub show : ℕ → String
show n = decimal n n

-- `s[:n]`
abbrev pub take_text : ℕ → String → String
take_text zero s = String.[]
take_text (suc n) String.[] = String.[]
take_text (suc n) (String.◌∷◌ c s) = String.◌∷◌ c (take_text n s)
