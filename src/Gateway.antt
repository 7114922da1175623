-- ===== src/Gateway.antt =====
-- services/gateway/app/main.py: the edge of the system, which decides whether a request reaches a
-- service. Token decoding, the clock, the HTTP client and the limiter are parameters.
pub mod RateLimit
pub mod Headers
pub mod Proxy
pub mod Csp
use image2prompt.Base.{
  ℕ, String, Bool, true, false, Option, none, some, List, [], ◌∷◌, find?, ◌||◌, contains, drop_text,
  starts_with, ◌==◌, ◌^+◌, if◌then◌else◌,
}
use Prim.Native.String.{len}

-- the settings of app/config.py that the edge reads
pub record Settings : Type 0 where
  pub admin_service_url : String
  pub customer_service_url : String
  pub image_service_url : String
  pub kb_service_url : String
  pub rate_limit_enabled : Bool
  pub rate_limit_rpm : ℕ
  pub auth_rate_limit_rpm : ℕ
  pub security_headers_enabled : Bool
  pub hsts_enabled : Bool
  pub max_body_bytes : ℕ

pub record Route : Type 0 where
  pub prefix : String
  pub base_url : String
  pub rewrite : String → String

-- `s or "/"`
abbrev pub or_root : String → String
or_root s = if s == "" then "/" else s

abbrev pub strip : String → String → String
strip prefix p = or_root (drop_text p (len prefix))

-- ROUTES
unfoldable pub routes : Settings → List Route
routes s =
    record {
      prefix = "/api/admin";
      base_url = s.admin_service_url;
      rewrite = λ p. "/admin" ^+ drop_text p (len "/api/admin");
    }
    ∷ record {
      prefix = "/api/customer";
      base_url = s.customer_service_url;
      rewrite = strip "/api/customer";
    }
    ∷ record {
      prefix = "/api/images";
      base_url = s.image_service_url;
      rewrite = strip "/api/images";
    }
    ∷ record { prefix = "/api/kb"; base_url = s.kb_service_url; rewrite = strip "/api/kb" }
    ∷ []

-- PUBLIC_PATHS
abbrev pub public_paths : List String
public_paths =
    "/api/admin/auth/login" ∷ "/api/admin/auth/refresh" ∷ "/api/customer/auth/login"
    ∷ "/api/customer/auth/signup" ∷ "/api/customer/auth/refresh" ∷ "/api/customer/auth/logout"
    ∷ "/api/admin/auth/logout" ∷ "/api/customer/auth/forgot-password"
    ∷ "/api/customer/auth/reset-password" ∷ "/api/customer/auth/verify-email"
    ∷ "/api/customer/me/connections/google/callback"
    ∷ "/api/customer/me/connections/onedrive/callback" ∷ "/health" ∷ []

-- AUTH_SENSITIVE_PATHS
abbrev pub auth_sensitive_paths : List String
auth_sensitive_paths =
    "/api/customer/auth/login" ∷ "/api/customer/auth/signup" ∷ "/api/customer/auth/forgot-password"
    ∷ "/api/customer/auth/reset-password" ∷ "/api/admin/auth/login" ∷ []

abbrev pub fits : String → Route → Bool
fits path r = path == r.prefix || starts_with path (r.prefix ^+ "/")

-- _match_route
unfoldable pub match_route : List Route → String → Option Route
match_route rs path = find? (fits path) rs

-- _is_public
unfoldable pub is_public : String → Bool
is_public path = contains public_paths path

-- path in AUTH_SENSITIVE_PATHS
unfoldable pub is_auth_sensitive : String → Bool
is_auth_sensitive path = contains auth_sensitive_paths path
