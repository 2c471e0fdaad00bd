-- ===== src/Tests/Vpns.antt =====
-- Handshake, registry and sessions of the VPN, and the sessions of the web panel.
use safelink_ssh.Base.{
  ℕ, ◌≡◌, ◌≢◌, ◌↔◌, refl, Bool, true, false, none, some, List, [], ◌∷◌, ◌++◌, ok, All, arith,
}
use safelink_ssh.Text.{Text, codes, text_eq}
use safelink_ssh.Text.Table.{lookup, insert}
use safelink_ssh.Config.Tunnel.{TunCfg}
use safelink_ssh.Config.Server.{AuthCfg}
use safelink_ssh.Wire.Loops.{send, receive, returned}
use safelink_ssh.Vpn.Client.{client_send, client_receive}
use safelink_ssh.Vpn.Client.Same.{unset, tunnel_delivers}
use safelink_ssh.Vpn.Handshake.{http_request, read_auth, authenticate}
use safelink_ssh.Vpn.Handshake.Accepts.{request_accepted}
use safelink_ssh.Vpn.Runtime.{RuntimeConfig, new_runtime, register_client, client_id}
use safelink_ssh.Vpn.Runtime.Traffic.{
  Call, registers, carries, unregisters, make_all, total, bytes_in_of, bytes_out_of,
  registrations_of, Counts, traffic_accounted,
}
use safelink_ssh.Vpn.Runtime.Ids.{register_fresh}
use safelink_ssh.Vpn.Session.{Gate, Attempt, handle_client}
use safelink_ssh.Vpn.Session.Registry.{Leaves, handle_client-Leaves}
use safelink_ssh.Text.Laws.{text_eq_iff}
use safelink_ssh.Panel.Auth.{
  LoginRequest, Request, authorized, handle_login, handle_logout, has_api_token, check_password,
  new_auth_service,
}
use safelink_ssh.Panel.Auth.Sessions.{WebCall, logs_in, logs_out, asks, serve_all, serve_on}
use safelink_ssh.Panel.Auth.Entry.{HasEntry, authorized-HasEntry}
use safelink_ssh.Panel.Auth.Lifetime.{login_lifetime}

request_accepted_example :
    (read_auth [] (http_request (codes "admin") (codes "changeme") ++ 7 ∷ [])
      ≡ some (http_request (codes "admin") (codes "changeme"), 7 ∷ []))
    × ((authenticate
            (codes "admin")
            (codes "secret")
            (http_request (codes "admin") (codes "changeme"))
          ≡ true)
        ↔ ((codes "admin" ≡ codes "admin") × (codes "changeme" ≡ codes "secret")))
request_accepted_example =
    request_accepted (codes "admin") (codes "secret") (codes "admin") (codes "changeme") (7 ∷ [])
      (omega arith, omega arith) (omega arith, omega arith) (omega arith)

abbrev panel : RuntimeConfig
panel = record {
  listen_addr = codes ":1562";
  subnet = codes "10.8.0.0/24";
  nat_iface = [];
  nat_enabled = false;
  padding = true;
}

abbrev two_clients : List Call
two_clients =
    registers (codes "192.0.2.1:5000") 1
    ∷ registers (codes "192.0.2.2:5000") 2
    ∷ carries (client_id 1) 1400 60 3
    ∷ unregisters (client_id 1)
    ∷ []

traffic_accounted_example :
    Counts
      (total bytes_in_of two_clients)
      (total bytes_out_of two_clients)
      (total registrations_of two_clients)
      (make_all two_clients (new_runtime panel 0))
traffic_accounted_example = traffic_accounted panel 0 two_clients

register_fresh_example :
    All
      (λ e. e.0 ≢ (register_client [] 4 (make_all two_clients (new_runtime panel 0))).0)
      (make_all two_clients (new_runtime panel 0)).clients
register_fresh_example = register_fresh panel 0 two_clients [] 4 (omega arith)

abbrev gate : Gate
gate = record { username = codes "admin"; password = codes "changeme" }

abbrev attempt : Attempt
attempt = record {
  control = some (http_request (codes "admin") (codes "changeme"));
  replies = true;
  remote = codes "192.0.2.1:5000";
  started_at = 5;
  tun = ok (codes "tun0");
  configured = none;
  opens_data = true;
  traffic = (1400, 0, 6) ∷ [];
}

handle_client-Leaves_example :
    Leaves gate attempt (new_runtime panel 0) (handle_client gate (client_id 1) attempt)
unfolding new_runtime register_client
handle_client-Leaves_example = handle_client-Leaves gate attempt (new_runtime panel 0) tt

abbrev always : ℕ → Bool
always k = true

abbrev tun : TunCfg
tun = record {
  subnet = codes "10.8.0.2/24";
  dns = [];
  auto_route = true;
  tls_cert = [];
  tls_key = [];
  sni = [];
  pin_sha256 = [];
  padding = none;
}

abbrev packets : List (List ℕ)
packets = (69 ∷ 0 ∷ []) ∷ (96 ∷ []) ∷ []

tunnel_delivers_example :
    (receive true always 3 0 (client_send tun always packets).written ≡ record {
      delivered = packets;
      counted = (client_send tun always packets).counted;
      ending = returned;
    })
    × (client_receive tun always 3 (send true always 0 packets).written ≡ record {
      delivered = packets;
      counted = (send true always 0 packets).counted;
      ending = returned;
    })
tunnel_delivers_example =
    tunnel_delivers tun true always always 3 packets unset (λ j. refl) (λ j. refl) (omega arith)
      (omega arith)

abbrev accounts : AuthCfg
accounts = record {
  api_token = [];
  users = record { username = codes "admin"; password_hash = codes "h" } ∷ [];
}

-- A check that takes the password that is the hash.
abbrev is_hash : Text → Text → Bool
is_hash hash password = text_eq hash password

abbrev admin : LoginRequest
admin = record { username = codes "admin"; password = codes "h" }

abbrev logins : List WebCall
logins = logs_in (some admin) (some (codes "t")) 10 ∷ []

abbrev visit : Request
visit = record { authorization = []; cookie = some (codes "t") }

visit_allowed : (authorized visit 11 (serve_all is_hash accounts logins)).0 ≡ true
unfolding authorized serve_all handle_login text_eq new_auth_service lookup insert
visit_allowed = refl

authorized-HasEntry_example : HasEntry is_hash accounts logins visit 11
authorized-HasEntry_example = authorized-HasEntry is_hash accounts logins visit 11 visit_allowed

right_password : check_password is_hash (codes "admin") (codes "h") accounts.users ≡ true
unfolding check_password text_eq
right_password = refl

-- Another user logs in with another token and out again, and the cookie is used.
abbrev between : List WebCall
between =
    logs_out (some (codes "u")) ∷ asks visit 11 ∷ logs_in (some admin) (some (codes "u")) 10 ∷ []

apart : codes "u" ≢ codes "t"
unfolding text_eq
apart e = cc ((text_eq_iff (codes "u") (codes "t")).1 e)

login_lifetime_example :
    let b =
      serve_on is_hash between
        (handle_login is_hash (some admin) (some (codes "t")) 10 (new_auth_service accounts)).1 in
    ((authorized visit 12 b).0 ≡ true)
    × ((n : ℕ)
        → (authorized visit n (serve_on is_hash between (handle_logout (some (codes "t")) b))).0
          ≡ has_api_token (new_auth_service accounts).cfg [])
unfolding new_auth_service
login_lifetime_example =
    login_lifetime is_hash admin (codes "t") 10 12 [] (new_auth_service accounts) between between
      right_password (λ e. cc) (omega arith) (apart, (omega arith, (apart, tt)))
      (tt, (tt, (apart, tt)))
