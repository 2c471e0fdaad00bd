-- ===== src/Config/Rules/Normal.antt =====
-- Normal rules: what NormalizeProxyRules of pkg/config/proxy_rule.go guarantees.
use safelink_ssh.Base.{◌≡◌, refl, ap₂, ◌⊎◌, inl, inr, List, [], ◌∷◌, ok, arith, All}
use safelink_ssh.Text.{Text, text_eq, trim_space, to_lower, contains_any}
use safelink_ssh.Text.Laws.{trim_space_idem, to_lower_idem, trim_space-to_lower, text_eq_iff}
use safelink_ssh.Net.Prefix.{parses_as_prefix}
use safelink_ssh.Config.Rules.{
  ProxyRule, type_domain, type_domain_suffix, type_domain_keyword, type_ip_cidr, type_rule_set,
  outbound_proxy, outbound_direct, outbound_block, type_of_word, normalize_proxy_rule_type,
  outbound_of_word, normalize_proxy_rule_outbound, normalize_value, normalize_proxy_rule,
  normalize_proxy_rules, default_proxy_rules, check_proxy_rule, check_proxy_rules,
  validate_proxy_rules, is_known_proxy_rule_set,
}

-- The five types of rule and the three outbounds.
abbrev pub IsRuleType : Text → Type 0
IsRuleType t =
    (t ≡ type_domain)
    ⊎ (t ≡ type_domain_suffix)
    ⊎ (t ≡ type_domain_keyword)
    ⊎ (t ≡ type_ip_cidr)
    ⊎ (t ≡ type_rule_set)

abbrev pub IsOutbound : Text → Type 0
IsOutbound t = (t ≡ outbound_proxy) ⊎ (t ≡ outbound_direct) ⊎ (t ≡ outbound_block)

type_of_word-IsRuleType : (w : Text) → IsRuleType (type_of_word w)
unfolding type_of_word
type_of_word-IsRuleType w = ground arith

outbound_of_word-IsOutbound : (w : Text) → IsOutbound (outbound_of_word w)
unfolding outbound_of_word
outbound_of_word-IsOutbound w = ground arith

-- A rule type is its own normal form.
normalize_type-eq_self : (t : Text) → IsRuleType t → normalize_proxy_rule_type t ≡ t
unfolding normalize_proxy_rule_type trim_space to_lower text_eq
normalize_type-eq_self t (inl e) = rw e
normalize_type-eq_self t (inr (inl e)) = rw e
normalize_type-eq_self t (inr (inr (inl e))) = rw e
normalize_type-eq_self t (inr (inr (inr (inl e)))) = rw e
normalize_type-eq_self t (inr (inr (inr (inr e)))) = rw e

normalize_outbound-eq_self : (t : Text) → IsOutbound t → normalize_proxy_rule_outbound t ≡ t
unfolding normalize_proxy_rule_outbound trim_space to_lower text_eq
normalize_outbound-eq_self t (inl e) = rw e
normalize_outbound-eq_self t (inr (inl e)) = rw e
normalize_outbound-eq_self t (inr (inr e)) = rw e

normalize_value_idem : (t v : Text) → normalize_value t (normalize_value t v) ≡ normalize_value t v
unfolding normalize_value
normalize_value_idem t v =
    ground
      (arith, trim_space_idem v, trim_space-to_lower (trim_space v), to_lower_idem (trim_space v))

normalize_type-IsRuleType : (t : Text) → IsRuleType (normalize_proxy_rule_type t)
unfolding normalize_proxy_rule_type
normalize_type-IsRuleType t = type_of_word-IsRuleType (to_lower (trim_space t))

normalized-IsOutbound : (t : Text) → IsOutbound (normalize_proxy_rule_outbound t)
unfolding normalize_proxy_rule_outbound
normalized-IsOutbound t = outbound_of_word-IsOutbound (to_lower (trim_space t))

-- A rule that the code can emit: a known type and outbound, and no space around its texts.
pub record IsNormal (r : ProxyRule) : Type 0 where
  pub known_type : IsRuleType r.type
  pub known_outbound : IsOutbound r.outbound
  pub trimmed_value : trim_space r.value ≡ r.value
  pub trimmed_id : trim_space r.id ≡ r.id
  pub lower_set : r.type ≡ type_rule_set → to_lower r.value ≡ r.value

normalize_value-trimmed : (t v : Text) → trim_space (normalize_value t v) ≡ normalize_value t v
unfolding normalize_value
normalize_value-trimmed t v = ground (arith, trim_space_idem v, trim_space-to_lower (trim_space v))

normalize_value-lower :
    (t v : Text) → t ≡ type_rule_set → to_lower (normalize_value t v) ≡ normalize_value t v
unfolding normalize_value
normalize_value-lower t v e =
    ground (arith, text_eq_iff t type_rule_set, to_lower_idem (trim_space v))

normalize_rule-IsNormal : (r : ProxyRule) → IsNormal (normalize_proxy_rule r)
unfolding normalize_proxy_rule
normalize_rule-IsNormal r = record {
  known_type = normalize_type-IsRuleType r.type;
  known_outbound = normalized-IsOutbound r.outbound;
  trimmed_value = normalize_value-trimmed (normalize_proxy_rule_type r.type) r.value;
  trimmed_id = trim_space_idem r.id;
  lower_set = λ e. normalize_value-lower (normalize_proxy_rule_type r.type) r.value e;
}

normalize_rule_idem :
    (r : ProxyRule) → normalize_proxy_rule (normalize_proxy_rule r) ≡ normalize_proxy_rule r
unfolding normalize_proxy_rule
normalize_rule_idem r = cc (
  trim_space_idem r.id,
  trim_space_idem r.name,
  normalize_type-eq_self _ (normalize_type-IsRuleType r.type),
  normalize_value_idem (normalize_proxy_rule_type r.type) r.value,
  normalize_outbound-eq_self _ (normalized-IsOutbound r.outbound),
)

-- NormalizeProxyRules returns rules of a known type and outbound with trimmed values and ids (those of
-- rule sets in small letters), and changes nothing when it is applied again.
pub normalize_rules_lem :
    (rules : List ProxyRule)
    → All IsNormal (normalize_proxy_rules rules)
      × (normalize_proxy_rules (normalize_proxy_rules rules) ≡ normalize_proxy_rules rules)
unfolding normalize_proxy_rules
normalize_rules_lem [] = (tt, refl)
normalize_rules_lem (r ∷ rules) =
    let (normal, again) = normalize_rules_lem rules in
    ((normalize_rule-IsNormal r, normal), ap₂ ◌∷◌ (normalize_rule_idem r) again)

-- The built-in rules are normal and pass the validation.
pub default_rules_valid :
    (normalize_proxy_rules default_proxy_rules ≡ default_proxy_rules)
    × (validate_proxy_rules default_proxy_rules ≡ ok tt)
unfolding normalize_proxy_rules normalize_proxy_rule normalize_proxy_rule_type
    normalize_proxy_rule_outbound normalize_value default_proxy_rules validate_proxy_rules
    check_proxy_rules check_proxy_rule is_known_proxy_rule_set trim_space to_lower text_eq
    contains_any parses_as_prefix
default_rules_valid = (refl, refl)
