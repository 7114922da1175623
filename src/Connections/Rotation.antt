-- ===== src/Connections/Rotation.antt =====
-- services/customer-service/app/facades/connections_facade.py: `reencrypt_tokens` and
-- `rotation_status`, which run after a change of keys.
use image2prompt.Base.{
  ℕ, String, Bool, true, not, ◌&&◌, ◌||◌, List, [], ◌∷◌, any, keep_if, update_if, count_if, ltb,
  ◌==◌, if◌then◌else◌, Session, write, commit,
}
use image2prompt.Crypto.{Keyring, TokenCipher, enabled, is_encrypted, is_current}
use image2prompt.Connections.{Meta, Connection, ConnectionDb}
use image2prompt.Connections.Files.{seal_meta, open_meta}

-- meta.get("access_token") or meta.get("refresh_token")
abbrev pub has_token : Meta → Bool
has_token m = not (m.access_token == "") || not (m.refresh_token == "")

-- `==` of two metas that agree but for their tokens
abbrev pub same_tokens : Meta → Meta → Bool
same_tokens a b = a.access_token == b.access_token && a.refresh_token == b.refresh_token

-- the tokens of a row that are encrypted
abbrev pub encrypted : Meta → List String
encrypted m = keep_if is_encrypted (m.access_token ∷ m.refresh_token ∷ [])

module _ (ring : Keyring) (cipher : TokenCipher) where
  module _ (nonce : (id field : String) → ℕ) where
    abbrev pub resealed : Connection → Meta
    resealed c = seal_meta ring cipher (nonce c.id) (open_meta ring cipher c.meta)

    -- the row is written, and counted
    abbrev pub changes : Connection → Bool
    changes c = has_token c.meta && not (same_tokens (resealed c) c.meta)

    abbrev pub rewrite_row : Connection → Connection
    rewrite_row c = record c { meta = resealed c }

    -- ConnectionsFacade.reencrypt_tokens
    unfoldable pub reencrypt_tokens : Session ConnectionDb → ℕ × Session ConnectionDb
    reencrypt_tokens s =
        let changed = count_if changes s.working.connections in
        let s' =
          write (λ d. record d { connections = update_if changes rewrite_row d.connections }) s in
        if not (enabled cipher) then (0, s) else (changed, if ltb 0 changed then commit s' else s')

  -- ConnectionsFacade.rotation_status
  unfoldable pub rotation_status : ConnectionDb → ℕ × ℕ
  rotation_status d = if not (enabled cipher) then (0, 0) else (
    count_if (λ c. any (λ t. true) (encrypted c.meta)) d.connections,
    count_if (λ c. any (λ t. not (is_current cipher t)) (encrypted c.meta)) d.connections,
  )
