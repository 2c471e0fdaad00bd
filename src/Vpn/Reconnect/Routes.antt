-- ===== src/Vpn/Reconnect/Routes.antt =====
-- The routes of client/internal/tunnel/vpn.go.
use safelink_ssh.Base.{
  ℕ, ◌≡◌, refl, sym, ◌∙◌, Bool, true, false, not, ◌&&◌, Option, none, List, [], ◌∷◌, Result, ok,
  err, All, if◌then◌else◌, if_rule, Bool-cases, inl, inr,
}
use safelink_ssh.Text.{Text, is_empty}
use safelink_ssh.Config.Tunnel.{TunnelCfg}
use safelink_ssh.Vpn.Reconnect.{
  Vpn, VpnState, VpnError, Answers, Added, all_routes, some_routes, no_routes, Attempt, Cleared,
  RouteCall, Round, running, stopped, fails_early, no_stream, serves, set_state, clean_up,
  clean_up_if_needed, include_server, exclude_server, extract_host, add_routes, enable_routes,
  set_route, set_routes, auto_route, begin_session, attempt_once, run_once, after_attempt,
  run_round, run_loop, run,
}

-- Routes are there only while they are noted for the clean-up, which is as long as they are active;
-- the server is excluded only where its address has a host.
pub record IsTidy (forward : Text) (v : Vpn) : Type 0 where
  pub noted : v.route_cleanup_needed ≡ v.route_active
  pub tun : v.route_cleanup_needed ≡ false → v.through_tun ≡ false
  pub server : v.route_cleanup_needed ≡ false → v.server_excluded ≡ false
  pub host : is_empty (extract_host forward) ≡ true → v.server_excluded ≡ false

-- Both deletions of a clean-up succeed.
abbrev pub Clears : Cleared → Type 0
Clears cleared = (cleared.tun_deleted ≡ true) × (cleared.server_deleted ≡ true)

gone : (b : Bool) → (b && not true) ≡ false
gone true = refl
gone false = refl

module _ (forward : Text) where
  clean_up-IsTidy :
      (cleared : Cleared) (v : Vpn)
      → Clears cleared
      → IsTidy forward v
      → IsTidy forward (clean_up forward cleared v)
  unfolding clean_up include_server
  clean_up-IsTidy cleared v (tun, server) t = elim (Bool-cases (is_empty (extract_host forward))) [
    | inl e ↦
        rw (e, tun)
          (record {
            noted = refl;
            tun = λ h. gone v.through_tun;
            server = λ h. t.host e;
            host = λ h. t.host e;
          })
    | inr e ↦
        rw (e, tun, server)
          (record {
            noted = refl;
            tun = λ h. gone v.through_tun;
            server = λ h. gone v.server_excluded;
            host = λ h. gone v.server_excluded;
          })
  ]

  add_routes-IsTidy :
      (added : Added) (v : Vpn)
      → added ≡ all_routes
      → (is_empty (extract_host forward) ≡ true → v.server_excluded ≡ false)
      → IsTidy forward (add_routes added v).1
  unfolding add_routes
  add_routes-IsTidy all_routes v e host = record {
    noted = refl;
    tun = λ h. cc;
    server = λ h. cc;
    host = host;
  }
  add_routes-IsTidy some_routes v e host = cc
  add_routes-IsTidy no_routes v e host = cc

  exclude_server-host :
      (host : Text) (excluded : Bool) (v : Vpn)
      → (is_empty host ≡ true → v.server_excluded ≡ false)
      → is_empty host ≡ true
      → (exclude_server host excluded v).server_excluded ≡ false
  unfolding exclude_server
  exclude_server-host [] excluded v h e = h e
  exclude_server-host (c ∷ s) excluded v h e = cc

  enable_routes-IsTidy :
      (answers : Answers) (v : Vpn)
      → answers.added ≡ all_routes
      → IsTidy forward v
      → IsTidy forward (enable_routes forward answers v).1
  unfolding enable_routes
  enable_routes-IsTidy answers v e t =
      add_routes-IsTidy answers.added (exclude_server (extract_host forward) answers.excluded v) e
        (exclude_server-host (extract_host forward) answers.excluded v t.host)

  clean_up_if_needed-IsTidy :
      (cleared : Cleared) (v : Vpn)
      → Clears cleared
      → IsTidy forward v
      → IsTidy forward (clean_up_if_needed forward cleared v)
  unfolding clean_up_if_needed
  clean_up_if_needed-IsTidy cleared v clears t =
      if_rule (IsTidy forward) v.route_cleanup_needed (clean_up forward cleared v) v
        (λ e. clean_up-IsTidy cleared v clears t) (λ e. t)

  -- Behind the clean-up nothing is noted, so nothing is left.
  abbrev NoRoutes : Vpn → Type 0
  NoRoutes v = (v.through_tun ≡ false) × (v.server_excluded ≡ false) × (v.route_active ≡ false)

  clean_up-NoRoutes :
      (cleared : Cleared) (v : Vpn)
      → Clears cleared
      → IsTidy forward v
      → NoRoutes (clean_up forward cleared v)
  unfolding clean_up include_server
  clean_up-NoRoutes cleared v (tun, server) t =
      elim (Bool-cases (is_empty (extract_host forward))) [
        | inl e ↦ rw (e, tun) (gone v.through_tun, t.host e, refl)
        | inr e ↦ rw (e, tun, server) (gone v.through_tun, gone v.server_excluded, refl)
      ]

  clean_up_if_needed-NoRoutes :
      (cleared : Cleared) (v : Vpn)
      → Clears cleared
      → IsTidy forward v
      → NoRoutes (clean_up_if_needed forward cleared v)
  unfolding clean_up_if_needed
  clean_up_if_needed-NoRoutes cleared v clears t =
      if_rule NoRoutes v.route_cleanup_needed (clean_up forward cleared v) v
        (λ e. clean_up-NoRoutes cleared v clears t) (λ e. (t.tun e, t.server e, sym t.noted ∙ e))

  set_state-IsTidy :
      (s : VpnState) (e : Option VpnError) (v : Vpn)
      → IsTidy forward v
      → IsTidy forward (set_state s e v)
  unfolding set_state
  set_state-IsTidy s e v t = record {
    noted = t.noted;
    tun = t.tun;
    server = t.server;
    host = t.host;
  }

-- Whatever a call of SetRoute adds or deletes, it adds or deletes all of it.
abbrev pub CallSucceeds : RouteCall → Type 0
CallSucceeds call = (call.answers.added ≡ all_routes) × Clears call.cleared

-- The same of all commands of an attempt, and of a round.
abbrev pub AttemptSucceeds : Attempt → Type 0
AttemptSucceeds (fails_early calls) = All CallSucceeds calls
AttemptSucceeds (no_stream calls answers more) =
    All CallSucceeds calls × (answers.added ≡ all_routes) × All CallSucceeds more
AttemptSucceeds (serves calls answers more cleared) =
    All CallSucceeds calls × (answers.added ≡ all_routes) × All CallSucceeds more × Clears cleared

abbrev pub RoundSucceeds : Round → Type 0
RoundSucceeds round = AttemptSucceeds round.attempt × All CallSucceeds round.between

module _ (has_gateway : Text → Bool) (cfg : TunnelCfg) where
  abbrev Tidy : Vpn → Type 0
  Tidy = IsTidy cfg.forward

  abbrev TidyPair : Result VpnError (Unit {0}) × Vpn → Type 0
  TidyPair r = Tidy r.1

  set_route-IsTidy :
      (call : RouteCall) (v : Vpn)
      → CallSucceeds call
      → Tidy v
      → TidyPair (set_route has_gateway cfg call v)
  unfolding set_route
  set_route-IsTidy call v (added, clears) t =
      if_rule TidyPair (if call.enable then v.route_active else not v.route_active) _ _ (λ same. t)
        (λ same.
          if_rule TidyPair (is_empty cfg.tun.subnet) _ _ (λ none_set. t)
            (λ some_set.
              if_rule TidyPair (not (has_gateway cfg.tun.subnet)) _ _ (λ bad. t)
                (λ good.
                  if_rule TidyPair call.enable _ _
                    (λ on. enable_routes-IsTidy cfg.forward call.answers v added t)
                    (λ off. clean_up-IsTidy cfg.forward call.cleared v clears t))))

  set_routes-IsTidy :
      (calls : List RouteCall) (v : Vpn)
      → All CallSucceeds calls
      → Tidy v
      → Tidy (set_routes has_gateway cfg calls v)
  unfolding set_routes
  set_routes-IsTidy [] v h t = t
  set_routes-IsTidy (call ∷ calls) v (e, h) t =
      set_routes-IsTidy calls _ h (set_route-IsTidy call v e t)

  begin_session-IsTidy :
      (answers : Answers) (v : Vpn)
      → answers.added ≡ all_routes
      → Tidy v
      → Tidy (begin_session has_gateway cfg answers v)
  unfolding begin_session auto_route
  begin_session-IsTidy answers v e t = set_state-IsTidy cfg.forward running none _ (
      if_rule Tidy
        (cfg.tun.auto_route && not (is_empty cfg.tun.subnet) && has_gateway cfg.tun.subnet) _ v
        (λ on. enable_routes-IsTidy cfg.forward answers v e t) (λ off. t))

  session-IsTidy :
      (calls : List RouteCall) (answers : Answers) (more : List RouteCall) (v : Vpn)
      → All CallSucceeds calls
      → answers.added ≡ all_routes
      → All CallSucceeds more
      → Tidy v
      → Tidy (
          set_routes has_gateway cfg more
            (begin_session has_gateway cfg answers (set_routes has_gateway cfg calls v)))
  session-IsTidy calls answers more v h e h' t =
      set_routes-IsTidy more _ h' (begin_session-IsTidy answers _ e (set_routes-IsTidy calls v h t))

  attempt_once-IsTidy :
      (attempt : Attempt) (v : Vpn)
      → AttemptSucceeds attempt
      → Tidy v
      → TidyPair (attempt_once has_gateway cfg attempt v)
  unfolding attempt_once
  attempt_once-IsTidy (fails_early calls) v h t = set_routes-IsTidy calls v h t
  attempt_once-IsTidy (no_stream calls answers more) v (h, e, h') t =
      session-IsTidy calls answers more v h e h' t
  attempt_once-IsTidy (serves calls answers more cleared) v (h, e, h', clears) t =
      clean_up_if_needed-IsTidy cfg.forward cleared _ clears
        (session-IsTidy calls answers more v h e h' t)

  run_once-IsTidy :
      (attempt : Attempt) (v : Vpn)
      → AttemptSucceeds attempt
      → Tidy v
      → TidyPair (run_once has_gateway cfg attempt v)
  unfolding run_once set_state
  run_once-IsTidy attempt v h t =
      if_rule TidyPair (is_empty cfg.forward && is_empty cfg.ssh.addr) _ _ (λ e. counted)
        (λ e. attempt_once-IsTidy attempt _ h counted)
    where
      counted :
          {s : VpnState} {e : Option VpnError} {n : ℕ}
          → Tidy (record v { state = s; last_err = e; run_count = n })
      counted = record { noted = t.noted; tun = t.tun; server = t.server; host = t.host }

  after_attempt-IsTidy :
      (nanos backoff : ℕ) (r : Result VpnError (Unit {0}) × Vpn)
      → TidyPair r
      → Tidy (after_attempt has_gateway cfg nanos backoff r).1
  unfolding after_attempt set_state
  after_attempt-IsTidy nanos backoff (ok u, v) t = t
  after_attempt-IsTidy nanos backoff (err e, v) t = record {
    noted = t.noted;
    tun = t.tun;
    server = t.server;
    host = t.host;
  }

  run_loop-IsTidy :
      (rounds : List Round) (s : ℕ × Vpn)
      → All RoundSucceeds rounds
      → Tidy s.1
      → Tidy (run_loop has_gateway cfg rounds s).1
  unfolding run_loop run_round
  run_loop-IsTidy [] s h t = t
  run_loop-IsTidy (round ∷ rounds) (backoff, v) ((a, between), h) t = run_loop-IsTidy rounds _ h (
      set_routes-IsTidy round.between _ between
        (after_attempt-IsTidy round.nanos backoff _ (run_once-IsTidy round.attempt v a t)))

  -- However often Run connects, fails, serves and connects again, and whatever SetRoute calls come while
  -- it connects, serves or waits: when Run returns, the state is stopped and neither a route through the
  -- TUN device nor the exclusion of the server is left, if none was there before, no call of AddRoutes
  -- fails, and the commands that delete routes succeed.
  pub run-NoRoutes :
      (rounds : List Round) (cleared : Cleared) (v : Vpn)
      → All RoundSucceeds rounds
      → Clears cleared
      → IsTidy cfg.forward v
      → ((run has_gateway cfg rounds cleared v).state ≡ stopped)
        × ((run has_gateway cfg rounds cleared v).through_tun ≡ false)
        × ((run has_gateway cfg rounds cleared v).server_excluded ≡ false)
        × ((run has_gateway cfg rounds cleared v).route_active ≡ false)
  unfolding run set_state
  run-NoRoutes rounds cleared v h clears t =
      let (tun, server, active) =
        clean_up_if_needed-NoRoutes cfg.forward cleared _ clears
          (run_loop-IsTidy rounds (1, v) h t) in
      (refl, tun, server, active)
