-- ===== src/Config/Rules.antt =====
-- pkg/config/proxy_rule.go
pub mod Normal
pub mod Usable
use safelink_ssh.Base.{
  ℕ, ◌+◌, Bool, true, false, ◌&&◌, ◌||◌, not, List, [], ◌∷◌, map, Result, ok, err, if◌then◌else◌,
}
use safelink_ssh.Text.{Text, codes, is_empty, text_eq, trim_space, to_lower, contains_any}
use safelink_ssh.Net.Prefix.{parses_as_prefix}

abbrev pub type_domain : Text
type_domain = codes "domain"

abbrev pub type_domain_suffix : Text
type_domain_suffix = codes "domain_suffix"

abbrev pub type_domain_keyword : Text
type_domain_keyword = codes "domain_keyword"

abbrev pub type_ip_cidr : Text
type_ip_cidr = codes "ip_cidr"

abbrev pub type_rule_set : Text
type_rule_set = codes "rule_set"

abbrev pub geoip_cn : Text
geoip_cn = codes "geoip-cn"

abbrev pub geosite_cn : Text
geosite_cn = codes "geosite-geolocation-cn"

abbrev pub geosite_not_cn : Text
geosite_not_cn = codes "geosite-geolocation-!cn"

abbrev pub outbound_proxy : Text
outbound_proxy = codes "selected"

abbrev pub outbound_direct : Text
outbound_direct = codes "direct"

abbrev pub outbound_block : Text
outbound_block = codes "block"

pub record ProxyRule : Type 0 where
  pub id : Text
  pub name : Text
  pub type : Text
  pub value : Text
  pub outbound : Text
  pub enabled : Bool

abbrev pub default_ip_rule : Text → Text → Text → ProxyRule
default_ip_rule id name value = record {
  id = id;
  name = name;
  type = type_ip_cidr;
  value = value;
  outbound = outbound_direct;
  enabled = true;
}

abbrev pub default_rule_set_rule : Text → Text → Text → Text → ProxyRule
default_rule_set_rule id name value outbound = record {
  id = id;
  name = name;
  type = type_rule_set;
  value = value;
  outbound = outbound;
  enabled = true;
}

unfoldable pub default_proxy_rules : List ProxyRule
default_proxy_rules =
    default_ip_rule (codes "lan-ipv4-this-network") (codes "IPv4 保留地址") (codes "0.0.0.0/8")
    ∷ default_ip_rule (codes "lan-ipv4-private-10") (codes "IPv4 私有地址") (codes "10.0.0.0/8")
    ∷ default_ip_rule (codes "lan-ipv4-carrier") (codes "运营商内网") (codes "100.64.0.0/10")
    ∷ default_ip_rule (codes "lan-ipv4-loopback") (codes "本机地址") (codes "127.0.0.0/8")
    ∷ default_ip_rule (codes "lan-ipv4-link-local") (codes "链路本地") (codes "169.254.0.0/16")
    ∷ default_ip_rule (codes "lan-ipv4-private-172") (codes "IPv4 私有地址") (codes "172.16.0.0/12")
    ∷ default_ip_rule (codes "lan-ipv4-private-192") (codes "IPv4 私有地址") (codes "192.168.0.0/16")
    ∷ default_ip_rule (codes "lan-ipv4-multicast") (codes "组播地址") (codes "224.0.0.0/4")
    ∷ default_ip_rule (codes "lan-ipv6-loopback") (codes "IPv6 本机地址") (codes "::1/128")
    ∷ default_ip_rule (codes "lan-ipv6-unique-local") (codes "IPv6 私有地址") (codes "fc00::/7")
    ∷ default_ip_rule (codes "lan-ipv6-link-local") (codes "IPv6 链路本地") (codes "fe80::/10")
    ∷ default_rule_set_rule (codes "foreign-geosite") (codes "国外域名") geosite_not_cn outbound_proxy
    ∷ default_rule_set_rule (codes "cn-geosite") (codes "国内域名") geosite_cn outbound_direct
    ∷ default_rule_set_rule (codes "cn-geoip") (codes "国内 IP") geoip_cn outbound_direct
    ∷ []

-- The switch of NormalizeProxyRuleType, on the trimmed lower-case text.
unfoldable pub type_of_word : Text → Text
type_of_word w =
    if text_eq w type_domain
    then type_domain
    else if text_eq w type_domain_keyword
    then type_domain_keyword
    else if text_eq w type_ip_cidr || text_eq w (codes "cidr")
    then type_ip_cidr
    else if text_eq w type_rule_set || text_eq w (codes "rule-set") || text_eq w (codes "ruleset")
    then type_rule_set
    else type_domain_suffix

unfoldable pub normalize_proxy_rule_type : Text → Text
unfolding type_of_word
normalize_proxy_rule_type type = type_of_word (to_lower (trim_space type))

unfoldable pub is_known_proxy_rule_set : Text → Bool
is_known_proxy_rule_set rule_set =
    let w = to_lower (trim_space rule_set) in
    text_eq w geoip_cn || text_eq w geosite_cn || text_eq w geosite_not_cn

-- The switch of NormalizeProxyRuleOutbound.
unfoldable pub outbound_of_word : Text → Text
outbound_of_word w =
    if text_eq w outbound_direct
    then outbound_direct
    else if text_eq w outbound_block
    then outbound_block
    else if text_eq w (codes "proxy") || text_eq w outbound_proxy
    then outbound_proxy
    else outbound_direct

unfoldable pub normalize_proxy_rule_outbound : Text → Text
unfolding outbound_of_word
normalize_proxy_rule_outbound outbound = outbound_of_word (to_lower (trim_space outbound))

-- The value of a rule whose type is already normal.
unfoldable pub normalize_value : Text → Text → Text
normalize_value type value =
    if text_eq type type_rule_set then to_lower (trim_space value) else trim_space value

-- The body of the loop of NormalizeProxyRules.
unfoldable pub normalize_proxy_rule : ProxyRule → ProxyRule
normalize_proxy_rule r = record {
  id = trim_space r.id;
  name = trim_space r.name;
  type = normalize_proxy_rule_type r.type;
  value = normalize_value (normalize_proxy_rule_type r.type) r.value;
  outbound = normalize_proxy_rule_outbound r.outbound;
  enabled = r.enabled;
}

unfoldable pub normalize_proxy_rules : List ProxyRule → List ProxyRule
normalize_proxy_rules = map normalize_proxy_rule

-- The error messages of ValidateProxyRules, with the number of the rule, which counts from 1.
pub data RuleError : Type 0 where
  empty_value : ℕ → RuleError
  value_has_whitespace : ℕ → RuleError
  invalid_cidr : ℕ → Text → RuleError
  unsupported_rule_set : ℕ → Text → RuleError

-- The checks of ValidateProxyRules on one normal rule that is enabled.
unfoldable pub check_proxy_rule : ℕ → ProxyRule → Result RuleError (Unit {0})
check_proxy_rule number r =
    if is_empty r.value
    then err (empty_value number)
    else if contains_any r.value (codes "\r\n\t ")
    then err (value_has_whitespace number)
    else if text_eq r.type type_ip_cidr && not (parses_as_prefix r.value)
    then err (invalid_cidr number r.value)
    else if text_eq r.type type_rule_set && not (is_known_proxy_rule_set r.value)
    then err (unsupported_rule_set number r.value)
    else ok tt

-- The loop of ValidateProxyRules, from the index of the first rule of the list.
unfoldable pub check_proxy_rules : ℕ → List ProxyRule → Result RuleError (Unit {0})
check_proxy_rules index [] = ok tt
check_proxy_rules index (r ∷ rules) =
    let rest = check_proxy_rules (index + 1) rules in
    if not r.enabled
    then rest
    else elim (check_proxy_rule (index + 1) r) [ ok u ↦ rest | err e ↦ err e ]

unfoldable pub validate_proxy_rules : List ProxyRule → Result RuleError (Unit {0})
validate_proxy_rules rules = check_proxy_rules 0 (normalize_proxy_rules rules)
