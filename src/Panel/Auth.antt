-- ===== src/Panel/Auth.antt =====
-- server/internal/web/auth.go. Times are nanoseconds; `compare` is bcrypt.CompareHashAndPassword, true
-- if it returns no error. A cookie is none if the request has none of the name.
pub mod Sessions
pub mod Entry
pub mod Lifetime
use safelink_ssh.Base.{
  ℕ, ◌+◌, ◌*◌, Bool, true, false, ◌&&◌, ◌||◌, not, Option, none, some, List, [], ◌∷◌, ◌++◌,
  if◌then◌else◌, ltb,
}
use safelink_ssh.Text.{Text, codes, is_empty, text_eq}
use safelink_ssh.Text.Table.{lookup, erase, insert}
use safelink_ssh.Config.Server.{AuthCfg, UserCfg}

pub record WebSession : Type 0 where
  pub username : Text
  pub expires_at : ℕ

pub record AuthService : Type 0 where
  pub cfg : AuthCfg
  pub sessions : List (Text × WebSession)

pub record LoginRequest : Type 0 where
  pub username : Text
  pub password : Text

unfoldable pub new_auth_service : AuthCfg → AuthService
new_auth_service cfg = record { cfg = cfg; sessions = [] }

abbrev has_users : List UserCfg → Bool
has_users [] = false
has_users (u ∷ users) = true

unfoldable pub is_enabled : AuthCfg → Bool
is_enabled cfg = not (is_empty cfg.api_token) || has_users cfg.users

-- The `Authorization` header, empty if there is none, and the session cookie.
pub record Request : Type 0 where
  pub authorization : Text
  pub cookie : Option Text

unfoldable pub has_api_token : AuthCfg → Text → Bool
has_api_token cfg authorization =
    not (is_empty cfg.api_token) && text_eq authorization (codes "Bearer " ++ cfg.api_token)

-- A session that is missing or over is deleted.
unfoldable pub check_session : Text → ℕ → AuthService → Option WebSession → Bool × AuthService
check_session token now a none = (false, record a { sessions = erase token a.sessions })
check_session token now a (some s) =
    if ltb s.expires_at now
    then (false, record a { sessions = erase token a.sessions })
    else (true, a)

unfoldable pub check_cookie : ℕ → AuthService → Option Text → Bool × AuthService
unfolding check_session
check_cookie now a none = (false, a)
check_cookie now a (some token) =
    if is_empty token then (false, a) else check_session token now a (lookup token a.sessions)

unfoldable pub authorized : Request → ℕ → AuthService → Bool × AuthService
unfolding has_api_token check_cookie
authorized r now a =
    if has_api_token a.cfg r.authorization then (true, a) else check_cookie now a r.cookie

-- What an HTTP handler answers: the wrapped handler, a status code, or a body with the username.
pub data Answer : Type 0 where
  passes_on : Answer
  status : ℕ → Answer
  authenticated_as : Text → Answer

unfoldable pub require : Request → ℕ → AuthService → Answer × AuthService
unfolding is_enabled authorized
require r now a =
    if not (is_enabled a.cfg)
    then (passes_on, a)
    else (let (allowed, a') = authorized r now a in (if allowed then passes_on else status 401, a'))

unfoldable pub check_password : (Text → Text → Bool) → Text → Text → List UserCfg → Bool
check_password compare username password [] = false
check_password compare username password (u ∷ users) =
    let rest = check_password compare username password users in
    if text_eq u.username username then compare u.password_hash password else rest

-- 24 * time.Hour
abbrev pub day : ℕ
day = 24 * 3600 * 1000000000

-- What a log-in comes back with: a status code, or the token and the end of the new session.
pub data LoggedIn : Type 0 where
  login_refused : ℕ → LoggedIn
  cookie_set : Text → ℕ → LoggedIn

-- From the token on, none if crypto/rand fails.
unfoldable pub create_session : Text → ℕ → AuthService → Option Text → LoggedIn × AuthService
create_session username now a none = (login_refused 500, a)
create_session username now a (some token) =
    let s : WebSession = record { username = username; expires_at = now + day } in
    (cookie_set token (now + day), record a { sessions = insert token s a.sessions })

-- The body is none if it is no JSON of a loginRequest.
unfoldable pub handle_login :
    (Text → Text → Bool)
    → Option LoginRequest
    → Option Text
    → ℕ
    → AuthService
    → LoggedIn × AuthService
unfolding check_password create_session
handle_login compare none token now a = (login_refused 400, a)
handle_login compare (some req) token now a =
    if check_password compare req.username req.password a.cfg.users
    then create_session req.username now a token
    else (login_refused 401, a)

-- The answer is always 204, with the cookie taken away.
unfoldable pub handle_logout : Option Text → AuthService → AuthService
handle_logout none a = a
handle_logout (some token) a = record a { sessions = erase token a.sessions }

unfoldable pub me_session : ℕ → Option WebSession → Answer
me_session now none = status 401
me_session now (some s) = if ltb now s.expires_at then authenticated_as s.username else status 401

unfoldable pub me_cookie : ℕ → AuthService → Option Text → Answer
unfolding me_session
me_cookie now a none = status 401
me_cookie now a (some token) = me_session now (lookup token a.sessions)

unfoldable pub handle_me : Option Text → ℕ → AuthService → Answer
unfolding is_enabled me_cookie
handle_me cookie now a =
    if not (is_enabled a.cfg) then authenticated_as (codes "anonymous") else me_cookie now a cookie
