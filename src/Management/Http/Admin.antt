-- ===== src/Management/Http/Admin.antt =====
-- `adminLogin` of management/internal/httpserver/server.go. `sign` is what the JWT library makes of
-- claims with the secret and the lifetime of an admin token; it does not fail.
use blinex.Prelude.{ℕ, ◌+◌, leb, Bool, not, ◌&&◌, Option, none, some, [], ◌==◌, if◌then◌else◌}
use blinex.Prelude.Text.{Text, text, text_eq}
use blinex.Prelude.Dict.{get, put}
use blinex.Management.Auth.{Claims, admin_claims}
use blinex.Management.Http.{Api, Env, Status, Reply}

-- The credentials that the server runs with, and those of a request.
pub record Credentials : Type 0 where
  pub user : Text
  pub password : Text

-- `loginAttempts[ip]`
unfoldable pub attempts_of : Option ℕ → ℕ
attempts_of none = 0
attempts_of (some n) = n

-- The effect of the ticker in `init`.
unfoldable pub forget_attempts : Api → Api
forget_attempts a = record a { attempts = [] }

unfoldable pub credentials_match : Credentials → Credentials → Bool
credentials_match config given = given.user == config.user && given.password == config.password

module _ (sign : Claims → Text) (numeric_date : ℕ → ℕ) (config : Credentials) where
  unfoldable pub given_login : Api → Env → Text → Option Credentials → Reply × Api
  unfolding attempts_of credentials_match admin_claims
  given_login a e ip none = (Reply.error Status.bad_request, a)
  given_login a e ip (some given) =
      if not (credentials_match config given)
      then (
        Reply.error Status.unauthorized,
        record a { attempts = put a.attempts ip (attempts_of (get a.attempts ip) + 1) },
      )
      else (Reply.token (sign (admin_claims numeric_date (text "default") e.now)), a)

  -- `adminLogin`
  unfoldable pub admin_login : Api → Env → Text → Option Credentials → Reply × Api
  unfolding given_login
  admin_login a e ip given =
      if config.password == []
      then (Reply.error Status.forbidden, a)
      else if leb 10 (attempts_of (get a.attempts ip))
      then (Reply.error Status.too_many, a)
      else given_login a e ip given
