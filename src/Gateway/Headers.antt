-- ===== src/Gateway/Headers.antt =====
-- services/gateway/app/main.py: the headers that cross the edge, the bearer token in them, and the
-- SecurityMiddleware. Header names and values are Latin-1 texts.
pub mod Kept
use image2prompt.Base.{
  ℕ, ◌+◌, ◌*◌, ◌-◌, String, Bool, true, not, ◌&&◌, ◌||◌, Option, none, some, List, [], ◌∷◌, ◌++◌,
  any, ltb, leb, nat_eq, ◌==◌, if◌then◌else◌, codes, lower, begins_with, same_codes, drop_text,
}
use image2prompt.Gateway.{Settings}

abbrev pub Headers : Type 0
Headers = List (String × String)

-- _HOP_BY_HOP
abbrev pub hop_by_hop : List String
hop_by_hop = "host" ∷ "content-length" ∷ "connection" ∷ "keep-alive" ∷ "transfer-encoding" ∷ []

-- k.lower() in _HOP_BY_HOP
unfoldable pub is_hop_by_hop : String → Bool
is_hop_by_hop k = any (λ h. same_codes (lower k) (codes h)) hop_by_hop

-- `headers[k] = v` on a dict: the first entry with the key is replaced
unfoldable pub put_header : String → String → Headers → Headers
put_header k v [] = (k, v) ∷ []
put_header k v ((j, w) ∷ hs) = if j == k then (k, v) ∷ hs else (j, w) ∷ put_header k v hs

unfoldable pub get_header : String → Headers → Option String
get_header k [] = none
get_header k ((j, w) ∷ hs) = if j == k then some w else get_header k hs

-- {k: v for k, v in headers if k.lower() not in _HOP_BY_HOP}: of two values the later one stays
unfoldable pub collect : Headers → Headers → Headers
collect out [] = out
collect out ((k, v) ∷ hs) = collect (if is_hop_by_hop k then out else put_header k v out) hs

-- the same with X-Request-ID set
unfoldable pub forwarded_headers : String → Headers → Headers
forwarded_headers request_id hs = put_header "X-Request-ID" request_id (collect [] hs)

-- auth.lower().startswith("bearer ")
unfoldable pub is_bearer : String → Bool
is_bearer auth = begins_with (lower auth) (codes "bearer ")

-- auth[7:] if it is a bearer header, else ""
unfoldable pub bearer_token : String → String
bearer_token auth = if is_bearer auth then drop_text auth 7 else ""

-- `str.isdigit` on Latin-1: the ASCII digits and the three superscripts
abbrev pub is_digit : ℕ → Bool
is_digit c = leb b'0' c && leb c b'9' || nat_eq c 0xb2 || nat_eq c 0xb3 || nat_eq c 0xb9

abbrev pub all_digits : List ℕ → Bool
all_digits [] = true
all_digits (c ∷ s) = is_digit c && all_digits s

-- `int(s)` of a text of such digits; it raises on a superscript
abbrev pub int_from : ℕ → List ℕ → Option ℕ
int_from n [] = some n
int_from n (c ∷ s) =
    let rest = int_from (n * 10 + (c - b'0')) s in if leb b'0' c && leb c b'9' then rest else none

pub data Admission : Type 0 where
  admitted : Admission
  too_large : Admission
  -- `int` raises, which nothing catches
  raised : Admission

abbrev pub against : ℕ → Option ℕ → Admission
against limit none = raised
against limit (some n) = if ltb limit n then too_large else admitted

abbrev pub declared_size : ℕ → Option String → Admission
declared_size limit none = admitted
declared_size limit (some cl) =
    if not (cl == "") && all_digits (codes cl)
    then against limit (int_from 0 (codes cl))
    else admitted

-- SecurityMiddleware.dispatch up to `call_next`
unfoldable pub check_size : Settings → Option String → Admission
check_size s content_length =
    if ltb 0 s.max_body_bytes then declared_size s.max_body_bytes content_length else admitted

-- a response header by its name, in any case
unfoldable pub has_header : String → Headers → Bool
has_header k hs = any (λ e. same_codes (lower e.0) (lower k)) hs

-- headers.setdefault(k, v)
unfoldable pub set_default : Headers → String × String → Headers
set_default hs (k, v) = if has_header k hs then hs else hs ++ (k, v) ∷ []

-- _SECURITY_HEADERS
abbrev pub security_headers : Headers
security_headers =
    ("X-Content-Type-Options", "nosniff")
    ∷ ("X-Frame-Options", "DENY")
    ∷ ("Referrer-Policy", "no-referrer")
    ∷ ("X-Permitted-Cross-Domain-Policies", "none")
    ∷ []

abbrev pub set_defaults : Headers → Headers → Headers
set_defaults hs [] = hs
set_defaults hs (d ∷ ds) = set_defaults (set_default hs d) ds

-- SecurityMiddleware.dispatch after `call_next`
unfoldable pub harden : Settings → Headers → Headers
harden s hs =
    if s.security_headers_enabled
    then (let set = set_defaults hs security_headers in
        if s.hsts_enabled
        then set_default set ("Strict-Transport-Security", "max-age=31536000; includeSubDomains")
        else set)
    else hs
