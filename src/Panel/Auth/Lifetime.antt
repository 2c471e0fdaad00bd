-- ===== src/Panel/Auth/Lifetime.antt =====
-- How long the cookie of a log-in is let in by server/internal/web/auth.go, with other calls in between.
use safelink_ssh.Base.{
  ℕ, ◌+◌, ◌≤◌, ◌≡◌, ◌≢◌, refl, sym, ap, subst, inl, inr, Bool-cases, ◌∙◌, Bool, true, false, Option,
  none, some, List, [], ◌∷◌, ltb, arith, All, if_rule,
}
use safelink_ssh.Text.{Text, is_empty, text_eq}
use safelink_ssh.Text.Laws.{text_eq_iff, eq_of_text_eq}
use safelink_ssh.Text.Table.{
  lookup, erase, insert, lookup-insert, lookup-erase, lookup-erase_other, lookup-insert_other,
}
use safelink_ssh.Config.Server.{AuthCfg}
use safelink_ssh.Panel.Auth.{
  WebSession, AuthService, LoginRequest, Request, has_api_token, check_session, check_cookie,
  authorized, check_password, day, create_session, handle_login, handle_logout, LoggedIn,
  login_refused,
}
use safelink_ssh.Panel.Auth.Sessions.{WebCall, logs_in, logs_out, asks, serve, serve_on}
use safelink_ssh.Panel.Auth.Entry.{authorized-found, authorized-missing, login-logged_in, logged_in}

-- A call that does not give the token out again, does not log out with it, and does not ask for
-- anything after the session is over.
abbrev pub Spares : Text → ℕ → WebCall → Type 0
Spares token over (logs_in req (some t) now) = t ≢ token
Spares token over (logs_in req none now) = Unit
Spares token over (logs_out (some t)) = t ≢ token
Spares token over (logs_out none) = Unit
Spares token over (asks r now) = now ≤ over

-- A call that does not give the token out again.
abbrev pub IsOther : Text → WebCall → Type 0
IsOther token (logs_in req (some t) now) = t ≢ token
IsOther token (logs_in req none now) = Unit
IsOther token (logs_out cookie) = Unit
IsOther token (asks r now) = Unit

-- What holds of the service holds behind a request, if it does behind the look at a cookie.
authorized_rule :
    (P : AuthService → Type 0) (r : Request) (now : ℕ) (a : AuthService)
    → P a
    → ((t : Text) → P (check_session t now a (lookup t a.sessions)).1)
    → P (authorized r now a).1
unfolding authorized check_cookie
authorized_rule P r now a h checked =
    if_rule (λ (q : Bool × AuthService). P q.1) (has_api_token a.cfg r.authorization) (true, a)
      (check_cookie now a r.cookie) (λ e. h) (λ e. by_cookie r.cookie)
  where
    by_cookie : (c : Option Text) → P (check_cookie now a c).1
    by_cookie none = h
    by_cookie (some t) =
        if_rule (λ (q : Bool × AuthService). P q.1) (is_empty t) (false, a)
          (check_session t now a (lookup t a.sessions)) (λ e. h) (λ e. checked t)

-- What holds of the service holds behind a log-in, if it does behind a new session.
login_rule :
    (P : AuthService → Type 0) (compare : Text → Text → Bool) (req : Option LoginRequest)
    (token : Option Text) (now : ℕ) (a : AuthService)
    → P a
    → ((t : Text) (s : WebSession)
        → token ≡ some t
        → P (record a { sessions = insert t s a.sessions }))
    → P (handle_login compare req token now a).1
unfolding handle_login create_session
login_rule P compare none token now a h opened = h
login_rule P compare (some req) token now a h opened =
    if_rule (λ (q : LoggedIn × AuthService). P q.1)
      (check_password compare req.username req.password a.cfg.users)
      (create_session req.username now a token) (login_refused 401, a) (λ e. created token refl)
      (λ e. h)
  where
    created : (o : Option Text) → token ≡ o → P (create_session req.username now a o).1
    created none e = h
    created (some t) e = opened t (record { username = req.username; expires_at = now + day }) e

some_same : {t u : Text} → some t ≡ some u → t ≡ u
some_same e = cc

module _ (token : Text) (cfg : AuthCfg) where
  -- The token has the session `s`.
  abbrev Holds : WebSession → AuthService → Type 0
  Holds s a = (a.cfg ≡ cfg) × (lookup token a.sessions ≡ some s)

  -- The token has no session.
  abbrev Lacks : AuthService → Type 0
  Lacks a = (a.cfg ≡ cfg) × (lookup token a.sessions ≡ none)

  erase-Lacks :
      (t : Text) (a : AuthService) → Lacks a → Lacks (record a { sessions = erase t a.sessions })
  erase-Lacks t a (c, h) = (
    c,
    elim (Bool-cases (text_eq token t)) [
      | inl e ↦
          subst (λ k. lookup k (erase t a.sessions) ≡ none) (sym (eq_of_text_eq token t e))
            (lookup-erase t a.sessions)
      | inr e ↦ lookup-erase_other t token a.sessions (apart t e) ∙ h
    ],
  )
    where
      apart : (t : Text) → text_eq token t ≡ false → token ≢ t
      apart t e same = cc (e, (text_eq_iff token t).1 same)

  check_session-Lacks :
      (now : ℕ) (a : AuthService)
      → Lacks a
      → (t : Text) → Lacks (check_session t now a (lookup t a.sessions)).1
  unfolding check_session
  check_session-Lacks now a h t = found (lookup t a.sessions)
    where
      found : (o : Option WebSession) → Lacks (check_session t now a o).1
      found none = erase-Lacks t a h
      found (some x) =
          if_rule (λ (q : Bool × AuthService). Lacks q.1) (ltb x.expires_at now) _ _
            (λ e. erase-Lacks t a h) (λ e. h)

  check_session-Holds :
      (s : WebSession) (now : ℕ) (a : AuthService)
      → now ≤ s.expires_at
      → Holds s a
      → (t : Text) → Holds s (check_session t now a (lookup t a.sessions)).1
  unfolding check_session
  check_session-Holds s now a early h t = elim (Bool-cases (text_eq token t)) [
    | inl e ↦ at_token (eq_of_text_eq token t e)
    | inr e ↦ elsewhere (λ same. cc (e, (text_eq_iff token t).1 same)) (lookup t a.sessions)
  ]
    where
      not_over : ltb s.expires_at now ≡ false
      not_over = ground arith

      at_token : token ≡ t → Holds s (check_session t now a (lookup t a.sessions)).1
      at_token same =
          subst (λ k. Holds s (check_session k now a (lookup k a.sessions)).1) same
            (rw (h.1, not_over) h)

      elsewhere : token ≢ t → (o : Option WebSession) → Holds s (check_session t now a o).1
      elsewhere ne none = (h.0, lookup-erase_other t token a.sessions ne ∙ h.1)
      elsewhere ne (some x) =
          if_rule (λ (q : Bool × AuthService). Holds s q.1) (ltb x.expires_at now) _ _
            (λ e. (h.0, lookup-erase_other t token a.sessions ne ∙ h.1)) (λ e. h)

module _ (compare : Text → Text → Bool) (token : Text) (cfg : AuthCfg) where
  serve-Holds :
      (s : WebSession) (c : WebCall) (a : AuthService)
      → Spares token s.expires_at c
      → Holds token cfg s a
      → Holds token cfg s (serve compare c a)
  unfolding serve handle_logout
  serve-Holds s (logs_in req none now) a spares h =
      login_rule (Holds token cfg s) compare req none now a h (λ t x e. cc)
  serve-Holds s (logs_in req (some t') now) a spares h =
      login_rule (Holds token cfg s) compare req (some t') now a h (λ t x e. (
        h.0,
        lookup-insert_other t token x a.sessions (λ same. spares (some_same e ∙ sym same)) ∙ h.1,
      ))
  serve-Holds s (logs_out none) a spares h = h
  serve-Holds s (logs_out (some t)) a spares h =
      (h.0, lookup-erase_other t token a.sessions (λ same. spares (sym same)) ∙ h.1)
  serve-Holds s (asks r now) a spares h =
      authorized_rule (Holds token cfg s) r now a h (check_session-Holds token cfg s now a spares h)

  serve-Lacks :
      (c : WebCall) (a : AuthService)
      → IsOther token c
      → Lacks token cfg a
      → Lacks token cfg (serve compare c a)
  unfolding serve handle_logout
  serve-Lacks (logs_in req none now) a other h =
      login_rule (Lacks token cfg) compare req none now a h (λ t x e. cc)
  serve-Lacks (logs_in req (some t') now) a other h =
      login_rule (Lacks token cfg) compare req (some t') now a h (λ t x e. (
        h.0,
        lookup-insert_other t token x a.sessions (λ same. other (some_same e ∙ sym same)) ∙ h.1,
      ))
  serve-Lacks (logs_out none) a other h = h
  serve-Lacks (logs_out (some t)) a other h = erase-Lacks token cfg t a h
  serve-Lacks (asks r now) a other h =
      authorized_rule (Lacks token cfg) r now a h (check_session-Lacks token cfg now a h)

  serve_on-Holds :
      (s : WebSession) (calls : List WebCall) (a : AuthService)
      → All (Spares token s.expires_at) calls
      → Holds token cfg s a
      → Holds token cfg s (serve_on compare calls a)
  unfolding serve_on
  serve_on-Holds s [] a spares h = h
  serve_on-Holds s (c ∷ calls) a (spares, more) h =
      serve-Holds s c (serve_on compare calls a) spares (serve_on-Holds s calls a more h)

  serve_on-Lacks :
      (calls : List WebCall) (a : AuthService)
      → All (IsOther token) calls
      → Lacks token cfg a
      → Lacks token cfg (serve_on compare calls a)
  unfolding serve_on
  serve_on-Lacks [] a other h = h
  serve_on-Lacks (c ∷ calls) a (other, more) h =
      serve-Lacks c (serve_on compare calls a) other (serve_on-Lacks calls a more h)

-- The cookie that a log-in with the right password sets is let in for 24 hours, with any other headers,
-- whatever log-ins, log-outs and requests come in between, if none of them logs out with the cookie and
-- no request among them comes after the 24 hours. After the log-out with it, whatever calls follow, it
-- is let in no more than its other headers are. Both hold for a token that is not empty and that no
-- later log-in gives out again.
pub login_lifetime :
    (compare : Text → Text → Bool) (req : LoginRequest) (token : Text) (now later : ℕ)
    (header : Text) (a : AuthService) (calls rest : List WebCall)
    → check_password compare req.username req.password a.cfg.users ≡ true
    → token ≢ []
    → later ≤ now + day
    → All (Spares token (now + day)) calls
    → All (IsOther token) rest
    → let b = serve_on compare calls (handle_login compare (some req) (some token) now a).1 in
      let r : Request = record { authorization = header; cookie = some token } in
      ((authorized r later b).0 ≡ true)
      × ((n : ℕ)
          → (authorized r n (serve_on compare rest (handle_logout (some token) b))).0
            ≡ has_api_token a.cfg header)
unfolding handle_logout
login_lifetime compare req token now later header a calls rest right named early spares other =
    rw (login-logged_in compare req token now a right) (
      authorized-found header token later b s named held.1 early,
      λ n.
          let gone =
            serve_on-Lacks compare token a.cfg rest (handle_logout (some token) b) other
              (held.0, lookup-erase token b.sessions) in
          authorized-missing header token n (serve_on compare rest (handle_logout (some token) b))
            gone.1
          ∙ ap (λ c. has_api_token c header) gone.0,
    )
  where
    s : WebSession
    s = record { username = req.username; expires_at = now + day }

    b : AuthService
    b = serve_on compare calls (logged_in req token now a)

    held : Holds token a.cfg s b
    held =
        serve_on-Holds compare token a.cfg s calls (logged_in req token now a) spares
          (refl, lookup-insert token s a.sessions)
