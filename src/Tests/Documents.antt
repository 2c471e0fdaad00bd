-- ===== src/Tests/Documents.antt =====
-- Documents of VPN tunnels, with encodings that know one document.
use safelink_ssh.Base.{◌≡◌, ◌≢◌, refl, true, none, some, ok, [], ◌∷◌, All, List, Option}
use safelink_ssh.Base.Int.{pos}
use safelink_ssh.Text.{Text, codes, text_eq, trim_space, to_lower}
use native.Mathlib.Decide.{ℕ_discrete}
use safelink_ssh.Config.Tunnel.{TunnelCfg, mode_vpn, mode_local}
use safelink_ssh.Subscription.Codec.{
  Codec, Document, ClashProxy, format_safe_link_json, clash_safe_link_type,
}
use safelink_ssh.Subscription.Parse.{parse}
use safelink_ssh.Subscription.Accepted.{IsAccepted, parse-IsVpnList}

abbrev demo : TunnelCfg
demo = record {
  name = codes "demo";
  mode = mode_vpn;
  ssh = record {
    addr = [];
    user = codes "admin";
    identity_file = [];
    passphrase = [];
    password = codes "pw";
  };
  listen = [];
  forward = codes "[::1]:0443";
  transport = [];
  tun = record {
    subnet = codes "10.8.0.2/24";
    dns = [];
    auto_route = true;
    tls_cert = [];
    tls_key = [];
    sni = [];
    pin_sha256 = [];
    padding = none;
  };
}

abbrev forwarding : TunnelCfg
forwarding = record demo {
  mode = mode_local;
  listen = codes "127.0.0.1:80";
  ssh = record {
    addr = codes "a:22";
    user = codes "u";
    identity_file = [];
    passphrase = [];
    password = codes "p";
  };
}

abbrev demo_proxy : ClashProxy
demo_proxy = record {
  name = codes "demo";
  type = clash_safe_link_type;
  server = codes "::1";
  port = pos 443;
  username = codes "admin";
  password = codes "pw";
  sni = [];
  subnet = codes "10.8.0.2/24";
  dns = [];
  auto_route = true;
  pin_sha256 = [];
  padding = none;
}

abbrev document : Document
document = record { version = pos 1; tunnels = demo ∷ [] }

document_text : Text
document_text = codes "one document"

Document-discrete : Discrete Document
Document-discrete = hlevel (ℕ_discrete)

proxies-discrete : Discrete (List ClashProxy)
proxies-discrete = hlevel (ℕ_discrete)

-- An encoder that knows one value, and writes `document_text` for it.
abbrev write_one : {A : Type 0} → (known : A) → (a : A) → Dec (a ≡ known) → Option Text
write_one known a (yes e) = some document_text
write_one known a (no ne) = none

abbrev codec : Codec
codec = record {
  read_json = λ c. some document;
  write_json = λ doc. write_one document doc (Document-discrete doc document);
  read_yaml = λ c. some (demo_proxy ∷ []);
  write_yaml = λ ps. write_one (demo_proxy ∷ []) ps (proxies-discrete ps (demo_proxy ∷ []));
}

auto_run : parse codec document_text (codes " Auto") ≡ (format_safe_link_json, ok (demo ∷ []))
unfolding parse text_eq trim_space to_lower
auto_run = refl

parse-IsVpnList_example : ((demo ∷ []) ≢ []) × All IsAccepted (demo ∷ [])
parse-IsVpnList_example =
    parse-IsVpnList codec document_text (codes " Auto") format_safe_link_json (demo ∷ []) auto_run
