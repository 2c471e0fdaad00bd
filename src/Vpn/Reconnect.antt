-- ===== src/Vpn/Reconnect.antt =====
-- Run, runOnce, SetRoute and setState of client/internal/tunnel/vpn.go. A call of SetRoute runs as a
-- whole between two steps of Run. What the network, the TUN device and the routing commands of the
-- operating system answer is what a Round says; of the routes it is kept whether some lead through the
-- TUN device, and whether the server is excluded.
pub mod Backoff
pub mod Routes
use safelink_ssh.Base.{
  ℕ, ◌+◌, ◌*◌, ◌%◌, Bool, true, false, not, ◌&&◌, Option, none, some, List, [], ◌∷◌, ◌++◌, Result,
  ok, err, if◌then◌else◌, ltb,
}
use safelink_ssh.Text.{Text, is_empty}
use safelink_ssh.Net.HostPort.{split_host_port}
use safelink_ssh.Config.Tunnel.{TunnelCfg}

pub data VpnState : Type 0 where
  connecting running reconnecting stopped : VpnState

pub data VpnError : Type 0 where
  no_address connect_failed no_data_stream : VpnError
  no_subnet bad_subnet add_failed : VpnError

-- The fields of VPN that change, the routes there are, and the waits of Run in nanoseconds. `last_err` is
-- the error that was stored last, none after the empty text.
pub record Vpn : Type 0 where
  pub state : VpnState
  pub last_err : Option VpnError
  pub run_count : ℕ
  pub route_cleanup_needed : Bool
  pub route_active : Bool
  pub through_tun : Bool
  pub server_excluded : Bool
  pub waits : List ℕ

-- NewVPN, on a system that has none of the routes.
abbrev pub new_vpn : Vpn
new_vpn = record {
  state = stopped;
  last_err = none;
  run_count = 0;
  route_cleanup_needed = false;
  route_active = false;
  through_tun = false;
  server_excluded = false;
  waits = [];
}

-- How AddRoutes ends: with all routes, or with an error when it has added some or none.
pub data Added : Type 0 where
  all_routes some_routes no_routes : Added

-- What the commands answer to one attempt to add the routes: the exclusion of the server, AddRoutes.
pub record Answers : Type 0 where
  pub excluded : Bool
  pub added : Added

-- What the commands answer to one clean-up, whose errors the code drops: are all routes through the TUN
-- device gone, is the exclusion of the server?
pub record Cleared : Type 0 where
  pub tun_deleted : Bool
  pub server_deleted : Bool

-- One call of SetRoute and what its commands answer.
pub record RouteCall : Type 0 where
  pub enable : Bool
  pub answers : Answers
  pub cleared : Cleared

-- What a call of runOnce meets, with the calls of SetRoute that come while it connects: it ends with an
-- error before the routes are touched, or the routes are asked for, and more calls come while the
-- session runs. Then the data stream cannot be opened, or the session serves until its clean-up.
pub data Attempt : Type 0 where
  fails_early : List RouteCall → Attempt
  no_stream : List RouteCall → Answers → List RouteCall → Attempt
  serves : List RouteCall → Answers → List RouteCall → Cleared → Attempt

-- A round of the loop of Run: the nanosecond that time.Now shows when the wait is computed, and the
-- calls of SetRoute that come before the next round.
pub record Round : Type 0 where
  pub attempt : Attempt
  pub nanos : ℕ
  pub between : List RouteCall

-- setState
unfoldable pub stored_error : VpnState → Option VpnError → Option VpnError → Option VpnError
stored_error s (some e) old = some e
stored_error running none old = none
stored_error connecting none old = old
stored_error reconnecting none old = old
stored_error stopped none old = old

unfoldable pub counts_run : VpnState → ℕ
counts_run running = 1
counts_run connecting = 0
counts_run reconnecting = 0
counts_run stopped = 0

unfoldable pub set_state : VpnState → Option VpnError → Vpn → Vpn
unfolding stored_error counts_run
set_state s e v = record v {
  state = s;
  last_err = stored_error s e v.last_err;
  run_count = v.run_count + counts_run s;
}

-- extractHost
unfoldable pub extract_host : Text → Text
unfolding split_host_port
extract_host addr =
    if is_empty addr then [] else elim (split_host_port addr) [ none ↦ addr | some parts ↦ parts.0 ]

unfoldable pub exclude_server : Text → Bool → Vpn → Vpn
exclude_server host excluded v =
    if is_empty host then v else if excluded then record v { server_excluded = true } else v

unfoldable pub include_server : Text → Bool → Vpn → Vpn
include_server host deleted v =
    if is_empty host then v else record v { server_excluded = v.server_excluded && not deleted }

unfoldable pub add_routes : Added → Vpn → Bool × Vpn
add_routes all_routes v =
    (true, record v { through_tun = true; route_cleanup_needed = true; route_active = true })
add_routes some_routes v = (false, record v { through_tun = true })
add_routes no_routes v = (false, v)

-- DelRoutes and what stands with it wherever it is called.
unfoldable pub clean_up : Text → Cleared → Vpn → Vpn
unfolding include_server
clean_up forward cleared v =
    include_server (extract_host forward) cleared.server_deleted (record v {
      through_tun = v.through_tun && not cleared.tun_deleted;
      route_cleanup_needed = false;
      route_active = false;
    })

-- if v.routeCleanupNeeded
unfoldable pub clean_up_if_needed : Text → Cleared → Vpn → Vpn
unfolding clean_up
clean_up_if_needed forward cleared v =
    if v.route_cleanup_needed then clean_up forward cleared v else v

-- The exclusion of the server and AddRoutes, as runOnce and SetRoute call them.
unfoldable pub enable_routes : Text → Answers → Vpn → Bool × Vpn
unfolding add_routes exclude_server extract_host
enable_routes forward answers v =
    add_routes answers.added (exclude_server (extract_host forward) answers.excluded v)

-- ParseGateway, which needs net.ParseCIDR, is a parameter: does it take the subnet?
module _ (has_gateway : Text → Bool) (cfg : TunnelCfg) where
  -- SetRoute
  unfoldable pub set_route : RouteCall → Vpn → Result VpnError (Unit {0}) × Vpn
  unfolding enable_routes clean_up
  set_route call v =
      if (if call.enable then v.route_active else not v.route_active)
      then (ok tt, v)
      else if is_empty cfg.tun.subnet
      then (err no_subnet, v)
      else if not (has_gateway cfg.tun.subnet)
      then (err bad_subnet, v)
      else if call.enable
      then (let (added, v') = enable_routes cfg.forward call.answers v in
          (if added then ok tt else err add_failed, v'))
      else (ok tt, clean_up cfg.forward call.cleared v)

  unfoldable pub set_routes : List RouteCall → Vpn → Vpn
  unfolding set_route
  set_routes [] v = v
  set_routes (call ∷ calls) v = set_routes calls (set_route call v).1

  -- The auto route of runOnce.
  unfoldable pub auto_route : Answers → Vpn → Vpn
  unfolding enable_routes
  auto_route answers v =
      if cfg.tun.auto_route && not (is_empty cfg.tun.subnet) && has_gateway cfg.tun.subnet
      then (enable_routes cfg.forward answers v).1
      else v

  -- runOnce from the routes on, until the session runs.
  unfoldable pub begin_session : Answers → Vpn → Vpn
  unfolding auto_route set_state
  begin_session answers v = set_state running none (auto_route answers v)

  unfoldable pub attempt_once : Attempt → Vpn → Result VpnError (Unit {0}) × Vpn
  unfolding begin_session set_routes clean_up_if_needed
  attempt_once (fails_early calls) v = (err connect_failed, set_routes calls v)
  attempt_once (no_stream calls answers more) v =
      (err no_data_stream, set_routes more (begin_session answers (set_routes calls v)))
  attempt_once (serves calls answers more cleared) v = (
    ok tt,
    clean_up_if_needed cfg.forward cleared
        (set_routes more (begin_session answers (set_routes calls v))),
  )

  unfoldable pub run_once : Attempt → Vpn → Result VpnError (Unit {0}) × Vpn
  unfolding attempt_once set_state
  run_once attempt v =
      let v' = record (set_state connecting none v) { run_count = v.run_count + 1 } in
      if is_empty cfg.forward && is_empty cfg.ssh.addr
      then (err no_address, v')
      else attempt_once attempt v'

  -- backoff *= 2, up to maxBackoff
  unfoldable pub next_backoff : ℕ → ℕ
  next_backoff backoff = if ltb 60 (backoff * 2) then 60 else backoff * 2

  -- applyJitterVPN of a back-off in seconds, in nanoseconds: the factor is between 0.8 and 1.2, and is
  -- exact here where Go computes with a float64.
  unfoldable pub apply_jitter : ℕ → ℕ → ℕ
  apply_jitter backoff nanos = backoff * (400000 * (2000 + nanos % 1000))

  -- What follows runOnce in a round, with the wait behind a failure.
  unfoldable pub after_attempt : ℕ → ℕ → Result VpnError (Unit {0}) × Vpn → ℕ × Vpn
  unfolding next_backoff apply_jitter set_state
  after_attempt nanos backoff (ok u, v) = (1, v)
  after_attempt nanos backoff (err e, v) =
      let v' = set_state reconnecting (some e) v in
      (next_backoff backoff, record v' { waits = v'.waits ++ apply_jitter backoff nanos ∷ [] })

  unfoldable pub run_round : Round → ℕ × Vpn → ℕ × Vpn
  unfolding run_once after_attempt set_routes
  run_round round (backoff, v) =
      let (backoff', v') = after_attempt round.nanos backoff (run_once round.attempt v) in
      (backoff', set_routes round.between v')

  -- The loop: it meets the rounds in order, and the context is cancelled behind the last one, or in
  -- the wait at its end.
  unfoldable pub run_loop : List Round → ℕ × Vpn → ℕ × Vpn
  unfolding run_round
  run_loop [] s = s
  run_loop (round ∷ rounds) s = run_loop rounds (run_round round s)

  -- Run with its deferred calls.
  unfoldable pub run : List Round → Cleared → Vpn → Vpn
  unfolding run_loop clean_up_if_needed set_state
  run rounds cleared v =
      set_state stopped none (clean_up_if_needed cfg.forward cleared (run_loop rounds (1, v)).1)
