-- ===== src/Gateway/Headers/Kept.antt =====
-- What the edge keeps, sets and drops of the headers.
use image2prompt.Base.{
  String, ◌≡◌, refl, true, false, some, List, [], ◌∷◌, All, ◌==◌, eq_iff, if◌then◌else◌, arith,
  Bool-cases, inl, inr, same_codes, lower, any-append, codes, spells, spells-lower, lower-spells,
  none, Option, is_small, All-imp,
}
use image2prompt.Gateway.{Settings}
use image2prompt.Gateway.Headers.{
  Headers, is_hop_by_hop, put_header, get_header, collect, forwarded_headers, has_header,
  set_default, harden, security_headers, set_defaults,
}

get_header-put_header :
    (k j v : String) (hs : Headers)
    → get_header j (put_header k v hs) ≡ (if k == j then some v else get_header j hs)
unfolding get_header put_header
get_header-put_header k j v [] = refl
get_header-put_header k j v ((i, w) ∷ hs) =
    ground (arith, eq_iff k j, eq_iff i k, eq_iff i j, get_header-put_header k j v hs)

abbrev pub IsEndToEnd : String × String → Type 0
IsEndToEnd e = is_hop_by_hop e.0 ≡ false

put_header-IsEndToEnd :
    (k v : String) (hs : Headers)
    → is_hop_by_hop k ≡ false
    → All IsEndToEnd hs
    → All IsEndToEnd (put_header k v hs)
unfolding put_header
put_header-IsEndToEnd k v [] h a = (h, tt)
put_header-IsEndToEnd k v ((j, w) ∷ hs) h (e, a) = ground (arith, put_header-IsEndToEnd k v hs h a)

collect-IsEndToEnd : (out hs : Headers) → All IsEndToEnd out → All IsEndToEnd (collect out hs)
unfolding collect
collect-IsEndToEnd out [] a = a
collect-IsEndToEnd out ((k, v) ∷ hs) a = ground (
  arith,
  collect-IsEndToEnd out hs a,
  collect-IsEndToEnd (put_header k v out) hs,
  put_header-IsEndToEnd k v out,
)

request_id-IsEndToEnd : (v : String) → IsEndToEnd ("X-Request-ID", v)
unfolding is_hop_by_hop
request_id-IsEndToEnd v = refl

-- The header is none of the five that end at a hop, in whatever case it is written.
abbrev pub PassesOn : String × String → Type 0
PassesOn e =
    All (λ h. spells (codes e.0) (codes h) ≡ false)
      ("host" ∷ "content-length" ∷ "connection" ∷ "keep-alive" ∷ "transfer-encoding" ∷ [])

unspelled :
    (k h : String)
    → is_small (codes h) ≡ true
    → same_codes (lower k) (codes h) ≡ false
    → spells (codes k) (codes h) ≡ false
unspelled k h n f = ground (arith, f, spells-lower (codes k) (codes h) n)

IsEndToEnd-PassesOn : (e : String × String) → IsEndToEnd e → PassesOn e
unfolding is_hop_by_hop
IsEndToEnd-PassesOn (k, v) h = (
  unspelled k "host" refl (ground (arith, h)),
  (
    unspelled k "content-length" refl (ground (arith, h)),
    (
      unspelled k "connection" refl (ground (arith, h)),
      (
        unspelled k "keep-alive" refl (ground (arith, h)),
        (unspelled k "transfer-encoding" refl (ground (arith, h)), tt),
      ),
    ),
  ),
)

spelled :
    (k h : String) → spells (codes k) (codes h) ≡ false → same_codes (lower k) (codes h) ≡ false
spelled k h f = ground (arith, f, lower-spells (codes k) (codes h))

PassesOn-IsEndToEnd : (k v : String) → PassesOn (k, v) → IsEndToEnd (k, v)
unfolding is_hop_by_hop
PassesOn-IsEndToEnd k v (host, (size, (connection, (keep, (transfer, _))))) = ground (
  arith,
  spelled k "host" host,
  spelled k "content-length" size,
  spelled k "connection" connection,
  spelled k "keep-alive" keep,
  spelled k "transfer-encoding" transfer,
)

-- the last value that a list of headers has for a name, or the one before it
abbrev pub last_value : Option String → String → Headers → Option String
last_value best k [] = best
last_value best k ((j, w) ∷ hs) = last_value (if j == k then some w else best) k hs

get_header-collect :
    (k : String) (out hs : Headers)
    → is_hop_by_hop k ≡ false
    → get_header k (collect out hs) ≡ last_value (get_header k out) k hs
unfolding collect
get_header-collect k out [] n = refl
get_header-collect k out ((j, w) ∷ hs) n = elim (Bool-cases (is_hop_by_hop j)) [
  | inl hop ↦
      let differs : (j == k) ≡ false = ground (arith, hop, n, eq_iff j k) in
      rw (hop, differs, get_header-collect k out hs n) refl
  | inr passes ↦
      rw (passes, get_header-collect k (put_header j w out) hs n)
        (rw (get_header-put_header j k w out) refl)
]

-- What is passed on in either direction: the request's id under X-Request-ID; none of host,
-- content-length, connection, keep-alive and transfer-encoding, in whatever case the letters A to Z
-- of their names are written; and under every other name the last value that came in under it.
pub forwarded_headers-PassesOn :
    (request_id : String) (hs : Headers)
    → All PassesOn (forwarded_headers request_id hs)
      × (get_header "X-Request-ID" (forwarded_headers request_id hs) ≡ some request_id)
      × ((k : String)
          → PassesOn (k, "")
          → ("X-Request-ID" == k) ≡ false
          → get_header k (forwarded_headers request_id hs) ≡ last_value none k hs)
unfolding forwarded_headers
forwarded_headers-PassesOn request_id hs = (
  All-imp (forwarded_headers request_id hs) (λ e h. IsEndToEnd-PassesOn e h)
      (put_header-IsEndToEnd "X-Request-ID" request_id (collect [] hs) (request_id-IsEndToEnd "")
        (collect-IsEndToEnd [] hs tt)),
  rw get_header-put_header,
  (λ k passes other. rw (get_header-put_header "X-Request-ID" k request_id (collect [] hs)) (
      rw other
        (unfold get_header in get_header-collect k [] hs (PassesOn-IsEndToEnd k "" passes)))),
)

same_codes_refl : (s : List _) → same_codes s s ≡ true
same_codes_refl [] = refl
same_codes_refl (c ∷ s) = ground (arith, same_codes_refl s)

has_header-set_default_self :
    (hs : Headers) (d : String × String) → has_header d.0 (set_default hs d) ≡ true
unfolding set_default has_header
has_header-set_default_self hs d = ground (
  arith,
  any-append (λ (e : String × String). same_codes (lower e.0) (lower d.0)) hs (d ∷ []),
  same_codes_refl (lower d.0),
)

has_header-set_default :
    (k : String) (hs : Headers) (d : String × String)
    → has_header k hs ≡ true
    → has_header k (set_default hs d) ≡ true
unfolding set_default has_header
has_header-set_default k hs d h =
    ground
      (arith, any-append (λ (e : String × String). same_codes (lower e.0) (lower k)) hs (d ∷ []))

All-has_header :
    (hs ds : Headers) (k : String)
    → has_header k hs ≡ true
    → has_header k (set_defaults hs ds) ≡ true
All-has_header hs [] k h = h
All-has_header hs (d ∷ ds) k h =
    All-has_header (set_default hs d) ds k (has_header-set_default k hs d h)

set_defaults-has_header :
    (hs ds : Headers) → All (λ d. has_header d.0 (set_defaults hs ds) ≡ true) ds
set_defaults-has_header hs [] = tt
set_defaults-has_header hs (d ∷ ds) = (
  All-has_header (set_default hs d) ds d.0 (has_header-set_default_self hs d),
  set_defaults-has_header (set_default hs d) ds,
)

module _ (d : String × String) (hs : Headers) where
  All-set_default :
      (ds : Headers)
      → All (λ e. has_header e.0 hs ≡ true) ds
      → All (λ e. has_header e.0 (set_default hs d) ≡ true) ds
  All-set_default [] a = tt
  All-set_default (e ∷ ds) (h, a) = (has_header-set_default e.0 hs d h, All-set_default ds a)

-- With the hardening switched on every response carries the four security headers, and
-- Strict-Transport-Security as well where HSTS is on, whatever the upstream had set.
pub harden-has_header :
    (s : Settings) (hs : Headers)
    → s.security_headers_enabled ≡ true
    → All (λ d. has_header d.0 (harden s hs) ≡ true) security_headers
      × (s.hsts_enabled ≡ true → has_header "Strict-Transport-Security" (harden s hs) ≡ true)
unfolding harden
harden-has_header s hs on =
    let set = set_defaults hs security_headers in
    let here = set_defaults-has_header hs security_headers in
    let hsts : String × String =
      ("Strict-Transport-Security", "max-age=31536000; includeSubDomains") in
    elim (Bool-cases s.hsts_enabled) [
      | inl strict ↦
          rw (on, strict)
            (
              All-set_default hsts set security_headers here,
              λ _. has_header-set_default_self set hsts,
            )
      | inr plain ↦ rw (on, plain) (here, λ e. cc)
    ]
