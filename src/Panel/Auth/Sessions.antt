-- ===== src/Panel/Auth/Sessions.antt =====
-- Who gets past server/internal/web/auth.go, and for how long.
use safelink_ssh.Base.{
  ℕ, ◌+◌, ◌≡◌, ◌⊎◌, refl, subst, inl, inr, Bool, true, Option, none, some, List, [], ◌∷◌, ltb, All,
  if_rule,
}
use safelink_ssh.Text.{Text, is_empty}
use safelink_ssh.Text.Table.{lookup, insert, erase-All}
use safelink_ssh.Config.Server.{AuthCfg}
use safelink_ssh.Panel.Auth.{
  WebSession, AuthService, LoginRequest, Request, new_auth_service, has_api_token, check_session,
  check_cookie, authorized, check_password, day, create_session, handle_login, handle_logout,
  LoggedIn, login_refused,
}

pub data WebCall : Type 0 where
  logs_in : Option LoginRequest → Option Text → ℕ → WebCall
  logs_out : Option Text → WebCall
  asks : Request → ℕ → WebCall

unfoldable pub serve : (Text → Text → Bool) → WebCall → AuthService → AuthService
serve compare (logs_in req token now) a = (handle_login compare req token now a).1
serve compare (logs_out cookie) a = handle_logout cookie a
serve compare (asks r now) a = (authorized r now a).1

-- The service after the calls, of which the latest comes first.
unfoldable pub serve_all : (Text → Text → Bool) → AuthCfg → List WebCall → AuthService
unfolding serve
serve_all compare cfg [] = new_auth_service cfg
serve_all compare cfg (c ∷ calls) = serve compare c (serve_all compare cfg calls)

-- A service after further calls, of which the latest comes first.
unfoldable pub serve_on : (Text → Text → Bool) → List WebCall → AuthService → AuthService
unfolding serve
serve_on compare [] a = a
serve_on compare (c ∷ calls) a = serve compare c (serve_on compare calls a)

-- A log-in with the right password that opened the session.
abbrev pub Opens : (Text → Text → Bool) → AuthCfg → Text × WebSession → WebCall → Type 0
Opens compare cfg (token, s) (logs_in (some req) (some t) now) =
    (t ≡ token)
    × (check_password compare req.username req.password cfg.users ≡ true)
    × (s.username ≡ req.username)
    × (s.expires_at ≡ now + day)
Opens compare cfg e _ = ⊥

abbrev pub IsOpened : (Text → Text → Bool) → AuthCfg → List WebCall → Text × WebSession → Type 0
IsOpened compare cfg [] e = ⊥
IsOpened compare cfg (c ∷ calls) e = Opens compare cfg e c ⊎ IsOpened compare cfg calls e

-- The configuration is the one that the service started with, and every session was opened.
abbrev pub IsGenuine : (Text → Text → Bool) → AuthCfg → List WebCall → AuthService → Type 0
IsGenuine compare cfg calls a = (a.cfg ≡ cfg) × All (IsOpened compare cfg calls) a.sessions

later-All :
    (compare : Text → Text → Bool) (cfg : AuthCfg) (c : WebCall) (calls : List WebCall)
    (m : List (Text × WebSession))
    → All (IsOpened compare cfg calls) m
    → All (IsOpened compare cfg (c ∷ calls)) m
later-All compare cfg c calls [] h = tt
later-All compare cfg c calls (e ∷ m) h = (inr h.0, later-All compare cfg c calls m h.1)

module _ (compare : Text → Text → Bool) (cfg : AuthCfg) (calls : List WebCall) where
  abbrev Keeps : Bool × AuthService → Type 0
  Keeps r = IsGenuine compare cfg calls r.1

  check_session-Keeps :
      (token : Text) (now : ℕ) (a : AuthService) (o : Option WebSession)
      → IsGenuine compare cfg calls a
      → Keeps (check_session token now a o)
  unfolding check_session
  check_session-Keeps token now a none h =
      (h.0, erase-All (IsOpened compare cfg calls) token a.sessions h.1)
  check_session-Keeps token now a (some s) h =
      if_rule Keeps (ltb s.expires_at now) _ _
        (λ e. (h.0, erase-All (IsOpened compare cfg calls) token a.sessions h.1)) (λ e. h)

  check_cookie-Keeps :
      (now : ℕ) (a : AuthService) (c : Option Text)
      → IsGenuine compare cfg calls a
      → Keeps (check_cookie now a c)
  unfolding check_cookie
  check_cookie-Keeps now a none h = h
  check_cookie-Keeps now a (some token) h =
      if_rule Keeps (is_empty token) _ _ (λ e. h)
        (λ e. check_session-Keeps token now a (lookup token a.sessions) h)

  authorized-Keeps :
      (r : Request) (now : ℕ) (a : AuthService)
      → IsGenuine compare cfg calls a
      → Keeps (authorized r now a)
  unfolding authorized
  authorized-Keeps r now a h =
      if_rule Keeps (has_api_token a.cfg r.authorization) _ _ (λ e. h)
        (λ e. check_cookie-Keeps now a r.cookie h)

login-IsGenuine :
    (compare : Text → Text → Bool) (cfg : AuthCfg) (calls : List WebCall)
    (req : Option LoginRequest) (token : Option Text) (now : ℕ) (a : AuthService)
    → IsGenuine compare cfg calls a
    → IsGenuine compare cfg (logs_in req token now ∷ calls) (handle_login compare req token now a).1
unfolding handle_login create_session insert
login-IsGenuine compare cfg calls none token now a h =
    (h.0, later-All compare cfg (logs_in none token now) calls a.sessions h.1)
login-IsGenuine compare cfg calls (some req) token now a h =
    if_rule (λ (r : LoggedIn × AuthService). IsGenuine compare cfg (c ∷ calls) r.1)
      (check_password compare req.username req.password a.cfg.users)
      (create_session req.username now a token) (login_refused 401, a) (opened token)
      (λ e. (h.0, kept))
  where
    c : WebCall
    c = logs_in (some req) token now

    kept : All (IsOpened compare cfg (logs_in (some req) token now ∷ calls)) a.sessions
    kept = later-All compare cfg (logs_in (some req) token now) calls a.sessions h.1

    opened :
        (t : Option Text)
        → check_password compare req.username req.password a.cfg.users ≡ true
        → IsGenuine compare cfg
            (logs_in (some req) t now ∷ calls)
            (create_session req.username now a t).1
    opened none e = (h.0, later-All compare cfg (logs_in (some req) none now) calls a.sessions h.1)
    opened (some t) e = (
      h.0,
      (
        inl (
          refl,
          subst (λ (k : AuthCfg). check_password compare req.username req.password k.users ≡ true)
              h.0 e,
          refl,
          refl,
        ),
        erase-All (IsOpened compare cfg (logs_in (some req) (some t) now ∷ calls)) t a.sessions
            (later-All compare cfg (logs_in (some req) (some t) now) calls a.sessions h.1),
      ),
    )

logout-IsGenuine :
    (compare : Text → Text → Bool) (cfg : AuthCfg) (calls : List WebCall) (cookie : Option Text)
    (a : AuthService)
    → IsGenuine compare cfg calls a
    → IsGenuine compare cfg calls (handle_logout cookie a)
unfolding handle_logout
logout-IsGenuine compare cfg calls none a h = h
logout-IsGenuine compare cfg calls (some token) a h =
    (h.0, erase-All (IsOpened compare cfg calls) token a.sessions h.1)

pub serve_all-IsGenuine :
    (compare : Text → Text → Bool) (cfg : AuthCfg) (calls : List WebCall)
    → IsGenuine compare cfg calls (serve_all compare cfg calls)
unfolding serve_all serve new_auth_service
serve_all-IsGenuine compare cfg [] = (refl, tt)
serve_all-IsGenuine compare cfg (logs_in req token now ∷ calls) =
    login-IsGenuine compare cfg calls req token now (serve_all compare cfg calls)
      (serve_all-IsGenuine compare cfg calls)
serve_all-IsGenuine compare cfg (logs_out cookie ∷ calls) =
    let h =
      logout-IsGenuine compare cfg calls cookie (serve_all compare cfg calls)
        (serve_all-IsGenuine compare cfg calls) in
    (h.0, later-All compare cfg (logs_out cookie) calls _ h.1)
serve_all-IsGenuine compare cfg (asks r now ∷ calls) =
    let h =
      authorized-Keeps compare cfg calls r now (serve_all compare cfg calls)
        (serve_all-IsGenuine compare cfg calls) in
    (h.0, later-All compare cfg (asks r now) calls _ h.1)
