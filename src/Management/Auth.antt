-- ===== src/Management/Auth.antt =====
-- management/internal/auth/auth.go: tokens and their revocation, with the interceptors of
-- grpcserver/auth_interceptor.go and the middleware of httpserver/server.go that rest on them. The
-- JWT library is a parameter: `sign` makes a token of claims, `parse` reads the claims of one that is
-- signed with the secret and has not expired, and `numeric_date` is what it makes of a time.
pub mod Revocation
use blinex.Prelude.{
  ℕ, Bool, true, false, not, ◌&&◌, ◌||◌, Option, none, some, List, [], ◌∷◌, ◌++◌, ltb, ◌==◌,
  if◌then◌else◌, length, drop, nat_eq,
}
use blinex.Prelude.Text.{Text, text, text_eq, has_prefix, trim_prefix}
use blinex.Prelude.Dict.{Dict, get, put}

-- `Claims`, with the one registered claim that the code reads.
pub record Claims : Type 0 where
  pub peer_id : Text
  pub wg_pub_key : Text
  pub account_id : Text
  pub role : Text
  pub issued_at : ℕ

-- `Manager`, less the secret.
pub record Manager : Type 0 where
  pub revoked : Dict Text ℕ

-- `NewManager`
abbrev pub new_manager : Manager
new_manager = record { revoked = [] }

-- `RevokeByWGKey`
unfoldable pub revoke_by_wg_key : Manager → Text → ℕ → Manager
revoke_by_wg_key m key now = record m { revoked = put m.revoked key now }

-- The claims that `IssueAdminToken` signs.
unfoldable pub admin_claims : (ℕ → ℕ) → Text → ℕ → Claims
admin_claims numeric_date account now = record {
  peer_id = [];
  wg_pub_key = [];
  account_id = account;
  role = text "admin";
  issued_at = numeric_date now;
}

-- The claims that `IssueToken` signs.
unfoldable pub peer_claims : (ℕ → ℕ) → Text → Text → Text → ℕ → Claims
peer_claims numeric_date peer_id key account now = record {
  peer_id = peer_id;
  wg_pub_key = key;
  account_id = account;
  role = text "peer";
  issued_at = numeric_date now;
}

-- The revocation check of `ValidateToken`: `none` is a key that has not been revoked.
unfoldable pub still_valid : Option ℕ → Claims → Option Claims
still_valid none claims = some claims
still_valid (some revoked_at) claims =
    if not (ltb revoked_at claims.issued_at) then none else some claims

checked : Manager → Option Claims → Option Claims
unfolding still_valid
checked m none = none
checked m (some claims) = still_valid (get m.revoked claims.wg_pub_key) claims

-- `ValidateToken`
unfoldable pub validate_token : (Text → Option Claims) → Manager → Text → Option Claims
unfolding checked
validate_token parse m token = checked m (parse token)

-- What a request passes with: no check was made, it was refused, or it carries claims.
pub data Pass : Type 0 where
  unchecked : Pass
  refused : Pass
  carrying : Claims → Pass

-- `publicMethods`
unfoldable pub is_public : Text → Bool
is_public method =
    method == text "/management.v1.ManagementService/Login"
    || method == text "/management.v1.ManagementService/GetServerKey"

passing : Option Claims → Pass
passing none = Pass.refused
passing (some claims) = Pass.carrying claims

extracted : (Text → Option Claims) → Manager → Option (List Text) → Option Claims
extracted parse m none = none
extracted parse m (some []) = none
extracted parse m (some (v ∷ vs)) = validate_token parse m (trim_prefix v (text "Bearer "))

-- `extractClaims`: `metadata` is the values of "authorization", `none` a call without metadata.
unfoldable pub extract_claims :
    (Text → Option Claims) → Manager → Option (List Text) → Option Claims
unfolding extracted
extract_claims parse m metadata = extracted parse m metadata

-- `AuthUnaryInterceptor` and `AuthStreamInterceptor`, which decide alike.
unfoldable pub intercept : (Text → Option Claims) → Manager → Text → Option (List Text) → Pass
unfolding passing
intercept parse m method metadata =
    if is_public method then Pass.unchecked else passing (extract_claims parse m metadata)

-- The header of an HTTP request, with "Bearer " cut off where something follows it.
unfoldable pub bearer : Text → Text
bearer header =
    if ltb 7 (length header) && has_prefix header (text "Bearer ") then drop 7 header else header

-- `authMiddleware`
unfoldable pub authenticate : (Text → Option Claims) → Manager → Text → Option Claims
unfolding bearer
authenticate parse m header = validate_token parse m (bearer header)

-- `adminOnly`
unfoldable pub is_admin : Claims → Bool
is_admin claims = claims.role == text "admin"
