-- ===== src/Tests/Reconnects.antt =====
-- A VPN that fails, serves and fails again.
use safelink_ssh.Base.{ℕ, ◌≡◌, refl, Bool, true, false, not, none, List, [], ◌∷◌, ◌++◌, All}
use safelink_ssh.Text.{Text, codes, is_empty}
use safelink_ssh.Config.Tunnel.{TunnelCfg, mode_vpn}
use safelink_ssh.Vpn.Reconnect.{
  new_vpn, Answers, Cleared, RouteCall, Round, all_routes, Attempt, fails_early, no_stream, serves,
  stopped, run,
}
use safelink_ssh.Vpn.Reconnect.Backoff.{failures, IsJittered, run-waits}
use safelink_ssh.Vpn.Reconnect.Routes.{IsTidy, CallSucceeds, RoundSucceeds, run-NoRoutes}

abbrev routed : TunnelCfg
routed = record {
  name = codes "demo";
  mode = mode_vpn;
  ssh = record {
    addr = [];
    user = codes "u";
    identity_file = [];
    passphrase = [];
    password = codes "p";
  };
  listen = [];
  forward = codes "vpn.example.com:443";
  transport = [];
  tun = record {
    subnet = codes "10.8.0.2/24";
    dns = [];
    auto_route = true;
    tls_cert = [];
    tls_key = [];
    sni = [];
    pin_sha256 = [];
    padding = none;
  };
}

abbrev granted : Answers
granted = record { excluded = true; added = all_routes }

abbrev cleared : Cleared
cleared = record { tun_deleted = true; server_deleted = true }

abbrev switch_off : RouteCall
switch_off = record { enable = false; answers = granted; cleared = cleared }

abbrev switch_on : RouteCall
switch_on = record { enable = true; answers = granted; cleared = cleared }

abbrev round : Attempt → List RouteCall → Round
round attempt between = record { attempt = attempt; nanos = 500; between = between }

-- The third round leaves its routes to the end of Run, and so does a call in the last wait.
abbrev rounds : List Round
rounds =
    round (fails_early (switch_on ∷ [])) (switch_off ∷ [])
    ∷ round (serves [] granted (switch_off ∷ []) cleared) []
    ∷ round (no_stream [] granted []) []
    ∷ round (fails_early []) (switch_on ∷ [])
    ∷ []

abbrev any_gateway : Text → Bool
any_gateway subnet = not (is_empty subnet)

waits_run :
    (run any_gateway routed rounds cleared new_vpn).waits
    ≡ 1000000000 ∷ 1000000000 ∷ 2000000000 ∷ []
unfolding run
waits_run = refl

run-waits_example :
    (waits : List ℕ) × ((run any_gateway routed rounds cleared new_vpn).waits
      ≡ new_vpn.waits ++ waits)
    × IsJittered any_gateway routed 0 (failures any_gateway routed rounds) waits
run-waits_example = run-waits any_gateway routed rounds cleared new_vpn

new-IsTidy : IsTidy (codes "vpn.example.com:443") new_vpn
new-IsTidy = record { noted = refl; tun = λ h. refl; server = λ h. refl; host = λ h. refl }

switch_off-CallSucceeds : CallSucceeds switch_off
switch_off-CallSucceeds = (refl, (refl, refl))

switch_on-CallSucceeds : CallSucceeds switch_on
switch_on-CallSucceeds = (refl, (refl, refl))

rounds-Succeed : All RoundSucceeds rounds
rounds-Succeed = (
  ((switch_on-CallSucceeds, tt), (switch_off-CallSucceeds, tt)),
  (
    ((tt, refl, (switch_off-CallSucceeds, tt), (refl, refl)), tt),
    (((tt, refl, tt), tt), ((tt, (switch_on-CallSucceeds, tt)), tt)),
  ),
)

run-NoRoutes_example :
    ((run any_gateway routed rounds cleared new_vpn).state ≡ stopped)
    × ((run any_gateway routed rounds cleared new_vpn).through_tun ≡ false)
    × ((run any_gateway routed rounds cleared new_vpn).server_excluded ≡ false)
    × ((run any_gateway routed rounds cleared new_vpn).route_active ≡ false)
run-NoRoutes_example =
    run-NoRoutes any_gateway routed rounds cleared new_vpn rounds-Succeed (refl, refl) new-IsTidy
