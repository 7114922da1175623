-- ===== src/Providers/Codec.antt =====
-- A serialisation of configurations that reads back what it wrote, in place of Python's json, for the
-- witnesses: each text is its characters, each after a comma, and a full stop.
use Prim.Native.Char.{Char, code}
use package.text.Mathlib.TextLemmas.{cons-append, nil-append, append-eq-nil_iff}
use image2prompt.Base.{
  ◌≡◌, refl, ap, ◌∙◌, String, true, false, ◌^+◌, Option, some, List, [], ◌∷◌, nat_eq, ◌==◌, eq_iff,
  arith, if◌then◌else◌, Bool-cases, inl, inr,
}
use image2prompt.Providers.{Value, null, text, other, Config}
use image2prompt.Providers.Facade.{Json}

abbrev pub quote : String → String
quote String.[] = "."
quote (String.◌∷◌ c s) = String.◌∷◌ "," (String.◌∷◌ c (quote s))

abbrev pub quote_all : List String → String
quote_all [] = ""
quote_all (s ∷ ss) = quote s ^+ quote_all ss

abbrev push : Char → List String → List String
push c [] = String.◌∷◌ c "" ∷ []
push c (s ∷ ss) = String.◌∷◌ c s ∷ ss

abbrev pub unquote_all : String → List String
unquote_all String.[] = []
unquote_all (String.◌∷◌ m String.[]) = "" ∷ []
unquote_all (String.◌∷◌ m (String.◌∷◌ c s)) =
    let ended = unquote_all (String.◌∷◌ c s) in
    let more = unquote_all s in if nat_eq (code m) b'.' then "" ∷ ended else push c more

-- a value as a kind and a text
abbrev kind : Value → String
kind null = "n"
kind (text s) = "t"
kind (other true s) = "o"
kind (other false s) = "f"

abbrev content : Value → String
content null = ""
content (text s) = s
content (other truthy s) = s

abbrev value_of : (kind content : String) → Value
value_of k s =
    if k == "t"
    then text s
    else if k == "o"
    then other true s
    else if k == "f"
    then other false s
    else null

abbrev texts_of : Config → List String
texts_of [] = []
texts_of ((k, v) ∷ c) = k ∷ kind v ∷ content v ∷ texts_of c

abbrev config_of : List String → Config
config_of (k ∷ t ∷ s ∷ ss) = (k, value_of t s) ∷ config_of ss
config_of _ = []

abbrev pub dumps : Config → String
dumps c = "." ^+ quote_all (texts_of c)

abbrev without_first : List String → List String
without_first [] = []
without_first (s ∷ ss) = ss

abbrev pub loads : String → Option Config
loads s = some (config_of (without_first (unquote_all s)))

dot-append : (t : String) → "." ^+ t ≡ String.◌∷◌ "." t
dot-append t = cons-append "." "" t ∙ ap (λ u. String.◌∷◌ "." u) (nil-append t)

unquote_dot : (t : String) → unquote_all (String.◌∷◌ "." t) ≡ "" ∷ unquote_all t
unquote_dot String.[] = refl
unquote_dot (String.◌∷◌ c t) = refl

unquote-quote : (s t : String) → unquote_all (quote s ^+ t) ≡ s ∷ unquote_all t
unquote-quote String.[] t = rw (dot-append t) (unquote_dot t)
unquote-quote (String.◌∷◌ c s) t =
    rw (cons-append "," (String.◌∷◌ c (quote s)) t, cons-append c (quote s) t, unquote-quote s t)
      refl

unquote-quote_all : (ss : List String) → unquote_all (quote_all ss) ≡ ss
unquote-quote_all [] = refl
unquote-quote_all (s ∷ ss) = rw (unquote-quote s (quote_all ss), unquote-quote_all ss) refl

value_of-kind : (v : Value) → value_of (kind v) (content v) ≡ v
value_of-kind null = refl
value_of-kind (text s) = refl
value_of-kind (other true s) = refl
value_of-kind (other false s) = refl

config_of-texts_of : (c : Config) → config_of (texts_of c) ≡ c
config_of-texts_of [] = refl
config_of-texts_of ((k, v) ∷ c) = rw (value_of-kind v, config_of-texts_of c) refl

pub loads-dumps_lem : (c : Config) → loads (dumps c) ≡ some c
loads-dumps_lem c =
    rw (dot-append (quote_all (texts_of c)), unquote_dot (quote_all (texts_of c)))
      (rw (unquote-quote_all (texts_of c), config_of-texts_of c) refl)

pub dumps_some_lem : (c : Config) → (dumps c == "") ≡ false
dumps_some_lem c = elim (Bool-cases (dumps c == "")) [
  | inr e ↦ e
  | inl e ↦
      let dot : quote "" ≡ "" = (append-eq-nil_iff.0 ((eq_iff (dumps c) "").0 e)).0 in
      ground (arith, (eq_iff (quote "") "").1 dot)
]

abbrev pub json : Json
json = record {
  dumps = dumps;
  loads = loads;
  loads-dumps = loads-dumps_lem;
  dumps_some = dumps_some_lem;
}
