-- ===== src/Config/Rules/Usable.antt =====
-- What ValidateProxyRules of pkg/config/proxy_rule.go accepts.
use safelink_ssh.Base.{ℕ, ◌+◌, ◌≡◌, refl, ◌≢◌, ◌↔◌, true, false, List, [], ◌∷◌, ok, arith, All}
use safelink_ssh.Text.{Text, codes, contains_any}
use safelink_ssh.Text.Laws.{is_empty_iff, text_eq_iff}
use safelink_ssh.Net.Prefix.{parses_as_prefix}
use safelink_ssh.Config.Rules.{
  ProxyRule, type_ip_cidr, type_rule_set, is_known_proxy_rule_set, normalize_proxy_rules,
  check_proxy_rule, check_proxy_rules, validate_proxy_rules,
}

-- No carriage return, line feed, tab or space.
abbrev pub NoBlank : Text → Type 0
NoBlank = All (λ (c : ℕ). (c ≢ 13) × (c ≢ 10) × (c ≢ 9) × (c ≢ 32))

-- A rule that can be matched against traffic.
pub record IsUsable (r : ProxyRule) : Type 0 where
  pub not_empty : r.value ≢ []
  pub one_word : NoBlank r.value
  pub cidr : r.type ≡ type_ip_cidr → parses_as_prefix r.value ≡ true
  pub rule_set : r.type ≡ type_rule_set → is_known_proxy_rule_set r.value ≡ true

NoBlank-contains : (s : Text) → NoBlank s → contains_any s (codes "\r\n\t ") ≡ false
unfolding contains_any
NoBlank-contains [] h = refl
NoBlank-contains (c ∷ s) h = ground (arith, NoBlank-contains s h.1)

contains-NoBlank : (s : Text) → contains_any s (codes "\r\n\t ") ≡ false → NoBlank s
unfolding contains_any
contains-NoBlank [] h = tt
contains-NoBlank (c ∷ s) h = (ground arith, contains-NoBlank s (ground arith))

check_rule-IsUsable : (n : ℕ) (r : ProxyRule) → check_proxy_rule n r ≡ ok tt → IsUsable r
unfolding check_proxy_rule
check_rule-IsUsable n r h = record {
  not_empty = ground (arith, is_empty_iff r.value);
  one_word = contains-NoBlank r.value (ground arith);
  cidr = λ e. ground (arith, text_eq_iff r.type type_ip_cidr);
  rule_set = λ e. ground (arith, text_eq_iff r.type type_rule_set);
}

IsUsable-check_rule : (n : ℕ) (r : ProxyRule) → IsUsable r → check_proxy_rule n r ≡ ok tt
unfolding check_proxy_rule
IsUsable-check_rule n r u = ground (
  arith,
  u.not_empty,
  u.cidr,
  u.rule_set,
  is_empty_iff r.value,
  NoBlank-contains r.value u.one_word,
  text_eq_iff r.type type_ip_cidr,
  text_eq_iff r.type type_rule_set,
)

check_rules-All :
    (i : ℕ) (rules : List ProxyRule)
    → check_proxy_rules i rules ≡ ok tt
    → All (λ (r : ProxyRule). r.enabled ≡ true → IsUsable r) rules
unfolding check_proxy_rules
check_rules-All i [] h = tt
check_rules-All i (r ∷ rules) h = (
  λ on. check_rule-IsUsable (i + 1) r (ground arith),
  check_rules-All (i + 1) rules (ground arith),
)

All-check_rules :
    (i : ℕ) (rules : List ProxyRule)
    → All (λ (r : ProxyRule). r.enabled ≡ true → IsUsable r) rules
    → check_proxy_rules i rules ≡ ok tt
unfolding check_proxy_rules
All-check_rules i [] h = refl
All-check_rules i (r ∷ rules) h =
    ground (arith, h.0, All-check_rules (i + 1) rules h.1, IsUsable-check_rule (i + 1) r)

-- ValidateProxyRules returns no error exactly when, after normalisation, every enabled rule has a value
-- with no blank in it, a CIDR rule a value that netip.ParsePrefix takes, and a rule-set rule one of the
-- bundled sets; rules that are not enabled are not looked at.
pub validate_rules_iff :
    (rules : List ProxyRule)
    → (validate_proxy_rules rules ≡ ok tt)
      ↔ All (λ (r : ProxyRule). r.enabled ≡ true → IsUsable r) (normalize_proxy_rules rules)
unfolding validate_proxy_rules
validate_rules_iff rules = (
  check_rules-All 0 (normalize_proxy_rules rules),
  All-check_rules 0 (normalize_proxy_rules rules),
)
