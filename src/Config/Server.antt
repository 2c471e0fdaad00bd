-- ===== src/Config/Server.antt =====
-- pkg/config/server.go. The file read is the outcome of os.ReadFile; the YAML decoder of
-- gopkg.in/yaml.v3 is a parameter, which decodes onto the defaults.
use safelink_ssh.Base.{
  ℕ, subst, ◌≡◌, ◌≢◌, Bool, false, Option, none, some, List, [], ◌∷◌, Result, ok, err,
  if◌then◌else◌,
}
use safelink_ssh.Text.{Text, codes, is_empty}

pub record UserCfg : Type 0 where
  pub username : Text
  pub password_hash : Text

pub record AuthCfg : Type 0 where
  pub api_token : Text
  pub users : List UserCfg

pub record WebCfg : Type 0 where
  pub addr : Text
  pub auth : AuthCfg

pub record TlsCfg : Type 0 where
  pub cert : Text
  pub key : Text

pub record NatCfg : Type 0 where
  pub enabled : Bool
  pub iface : Text

pub record ServerCfg : Type 0 where
  pub listen : Text
  pub subnet : Text
  pub web : WebCfg
  pub tls : TlsCfg
  pub nat : NatCfg

abbrev pub default_server_config : ServerCfg
default_server_config = record {
  listen = codes ":1562";
  subnet = codes "10.0.8.0/24";
  web = record { addr = codes "0.0.0.0:8080"; auth = record { api_token = []; users = [] } };
  tls = record { cert = []; key = [] };
  nat = record { enabled = false; iface = [] };
}

abbrev or_default : Text → Text → Text
or_default s d = if is_empty s then d else s

unfoldable pub apply_defaults : ServerCfg → ServerCfg
apply_defaults c = record c {
  listen = or_default c.listen default_server_config.listen;
  subnet = or_default c.subnet default_server_config.subnet;
  web = record c.web { addr = or_default c.web.addr default_server_config.web.addr };
}

-- What os.ReadFile returns.
pub data ReadOutcome : Type 0 where
  not_exist : ReadOutcome
  read_failed : ReadOutcome
  bytes : List ℕ → ReadOutcome

pub data LoadError : Type 0 where
  read_error parse_error : LoadError

decode : Option ServerCfg → Result LoadError ServerCfg
decode none = err parse_error
decode (some c) = ok (apply_defaults c)

module _ (unmarshal : List ℕ → ServerCfg → Option ServerCfg) where
  unfoldable pub load_server_config : Text → ReadOutcome → Result LoadError ServerCfg
  unfolding decode
  load_server_config [] file = ok default_server_config
  load_server_config (c ∷ path) not_exist = ok default_server_config
  load_server_config (c ∷ path) read_failed = err read_error
  load_server_config (c ∷ path) (bytes b) = decode (unmarshal b default_server_config)

-- A configuration that a server can start from.
pub record IsBound (c : ServerCfg) : Type 0 where
  pub listen : c.listen ≢ []
  pub subnet : c.subnet ≢ []
  pub web : c.web.addr ≢ []

or_default-ne_nil : (s d : Text) → d ≢ [] → or_default s d ≢ []
or_default-ne_nil [] d h = h
or_default-ne_nil (c ∷ s) d h = cc

apply_defaults-IsBound : (c : ServerCfg) → IsBound (apply_defaults c)
unfolding apply_defaults
apply_defaults-IsBound c = record {
  listen = or_default-ne_nil c.listen _ (λ e. cc);
  subnet = or_default-ne_nil c.subnet _ (λ e. cc);
  web = or_default-ne_nil c.web.addr _ (λ e. cc);
}

default-IsBound : IsBound default_server_config
default-IsBound = record { listen = λ e. cc; subnet = λ e. cc; web = λ e. cc }

ok_injective : {a b : ServerCfg} → ◌≡◌ {A = Result LoadError ServerCfg} (ok a) (ok b) → a ≡ b
ok_injective h = cc

decode-IsBound : (o : Option ServerCfg) (c : ServerCfg) → decode o ≡ ok c → IsBound c
unfolding decode
decode-IsBound none c h = cc
decode-IsBound (some d) c h = subst IsBound (ok_injective h) (apply_defaults-IsBound d)

-- Whatever the file holds and however the decoder reads it, a configuration that LoadServerConfig
-- returns has a listening address, a subnet and a web address.
pub load_config-IsBound :
    (unmarshal : List ℕ → ServerCfg → Option ServerCfg) (path : Text) (file : ReadOutcome)
    (c : ServerCfg)
    → load_server_config unmarshal path file ≡ ok c
    → IsBound c
unfolding load_server_config
load_config-IsBound unmarshal [] file c h = subst IsBound (ok_injective h) default-IsBound
load_config-IsBound unmarshal (p ∷ path) not_exist c h =
    subst IsBound (ok_injective h) default-IsBound
load_config-IsBound unmarshal (p ∷ path) read_failed c h = cc
load_config-IsBound unmarshal (p ∷ path) (bytes b) c h =
    decode-IsBound (unmarshal b default_server_config) c h
