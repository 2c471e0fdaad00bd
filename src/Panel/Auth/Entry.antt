-- ===== src/Panel/Auth/Entry.antt =====
-- Who gets past the check of server/internal/web/auth.go.
use safelink_ssh.Base.{
  ℕ, ◌+◌, ◌≤◌, ◌≡◌, ◌≢◌, ◌⊎◌, refl, sym, subst, inl, inr, Bool, true, false, Option, none, some,
  List, [], ◌∷◌, ltb, arith, if_rule,
}
use safelink_ssh.Text.{Text, is_empty}
use safelink_ssh.Text.Table.{lookup, erase, insert, lookup-All}
use safelink_ssh.Config.Server.{AuthCfg}
use safelink_ssh.Panel.Auth.{
  WebSession, AuthService, LoginRequest, Request, has_api_token, check_session, check_cookie,
  authorized, check_password, day, create_session, handle_login,
}
use safelink_ssh.Panel.Auth.Sessions.{WebCall, serve_all, IsOpened, IsGenuine, serve_all-IsGenuine}

-- What a request that gets in has: the API token, or the cookie of a session that was opened by a
-- log-in and is not over.
abbrev pub HasEntry : (Text → Text → Bool) → AuthCfg → List WebCall → Request → ℕ → Type 0
HasEntry compare cfg calls r now =
    (has_api_token cfg r.authorization ≡ true)
    ⊎ ((token : Text) × (s : WebSession) × (r.cookie ≡ some token)
        × IsOpened compare cfg calls (token, s)
        × (now ≤ s.expires_at))

module _ (compare : Text → Text → Bool) (cfg : AuthCfg) (calls : List WebCall) (r : Request)
    (now : ℕ) where
  check_session-HasEntry :
      (token : Text) (a : AuthService) (o : Option WebSession)
      → IsGenuine compare cfg calls a
      → r.cookie ≡ some token
      → lookup token a.sessions ≡ o
      → (check_session token now a o).0 ≡ true
      → HasEntry compare cfg calls r now
  unfolding check_session
  check_session-HasEntry token a none h c found e = cc
  check_session-HasEntry token a (some s) h c found e = inr (
    token,
    s,
    c,
    lookup-All (IsOpened compare cfg calls) token s a.sessions h.1 found,
    ground arith,
  )

  check_cookie-HasEntry :
      (a : AuthService) (o : Option Text)
      → IsGenuine compare cfg calls a
      → r.cookie ≡ o
      → (check_cookie now a o).0 ≡ true
      → HasEntry compare cfg calls r now
  unfolding check_cookie
  check_cookie-HasEntry a none h c = λ e. cc
  check_cookie-HasEntry a (some token) h c =
      if_rule (λ (q : Bool × AuthService). q.0 ≡ true → HasEntry compare cfg calls r now)
        (is_empty token) (false, a) (check_session token now a (lookup token a.sessions))
        (λ e e'. cc) (λ e e'. check_session-HasEntry token a (lookup token a.sessions) h c refl e')

-- A request gets past the check, after any calls in any order, only with the API token or with the
-- cookie of a session that some log-in with a right password opened at most 24 hours ago.
pub authorized-HasEntry :
    (compare : Text → Text → Bool) (cfg : AuthCfg) (calls : List WebCall) (r : Request) (now : ℕ)
    → (authorized r now (serve_all compare cfg calls)).0 ≡ true
    → HasEntry compare cfg calls r now
unfolding authorized
authorized-HasEntry compare cfg calls r now =
    let a = serve_all compare cfg calls in
    let h = serve_all-IsGenuine compare cfg calls in
    if_rule (λ (q : Bool × AuthService). q.0 ≡ true → HasEntry compare cfg calls r now)
      (has_api_token a.cfg r.authorization) (true, a) (check_cookie now a r.cookie)
      (λ e e'. inl (subst (λ (k : AuthCfg). has_api_token k r.authorization ≡ true) h.0 e))
      (λ e e'. check_cookie-HasEntry compare cfg calls r now a r.cookie h refl e')

abbrev with_cookie : Text → Text → Request
with_cookie header token = record { authorization = header; cookie = some token }

pub authorized-found :
    (header token : Text) (now : ℕ) (a : AuthService) (s : WebSession)
    → token ≢ []
    → lookup token a.sessions ≡ some s
    → now ≤ s.expires_at
    → (authorized (with_cookie header token) now a).0 ≡ true
unfolding authorized check_cookie check_session
authorized-found header [] now a s named found early = elim (named refl) [ ]
authorized-found header (c ∷ token) now a s named found early =
    if_rule (λ (q : Bool × AuthService). q.0 ≡ true) (has_api_token a.cfg header) (true, a)
      (check_session (c ∷ token) now a (lookup (c ∷ token) a.sessions)) (λ e. refl)
      (λ e. rw found (
        if_rule (λ (q : Bool × AuthService). q.0 ≡ true) (ltb s.expires_at now)
          (false, record a { sessions = erase (c ∷ token) a.sessions }) (true, a)
          (λ e'. ground arith) (λ e'. refl)))

pub authorized-missing :
    (header token : Text) (now : ℕ) (a : AuthService)
    → lookup token a.sessions ≡ none
    → (authorized (with_cookie header token) now a).0 ≡ has_api_token a.cfg header
unfolding authorized check_cookie check_session
authorized-missing header token now a missing =
    if_rule (λ (q : Bool × AuthService). q.0 ≡ has_api_token a.cfg header)
      (has_api_token a.cfg header) (true, a) (check_cookie now a (some token)) (λ e. sym e)
      (λ e. rw missing (
        if_rule (λ (q : Bool × AuthService). q.0 ≡ has_api_token a.cfg header) (is_empty token)
          (false, a) (false, record a { sessions = erase token a.sessions }) (λ e'. sym e)
          (λ e'. sym e)))

abbrev pub logged_in : LoginRequest → Text → ℕ → AuthService → AuthService
logged_in req token now a = record a {
  sessions = insert token (record { username = req.username; expires_at = now + day }) a.sessions;
}

pub login-logged_in :
    (compare : Text → Text → Bool) (req : LoginRequest) (token : Text) (now : ℕ) (a : AuthService)
    → check_password compare req.username req.password a.cfg.users ≡ true
    → (handle_login compare (some req) (some token) now a).1 ≡ logged_in req token now a
unfolding handle_login create_session
login-logged_in compare req token now a right = rw right
