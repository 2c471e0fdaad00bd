-- ===== src/Store/Settings.antt =====
-- The settings of client/internal/store/store.go.
pub mod Filled
pub mod Saved
use safelink_ssh.Base.{
  ℕ, Bool, true, false, ◌&&◌, ◌||◌, Option, none, some, List, [], ◌∷◌, ◌++◌, any, Result, ok, err,
  Exec, ◌>>=◌, ◌>>◌, pure, lift, resume, if◌then◌else◌,
}
use safelink_ssh.Base.Int.{ℤ, pos, ltb_ℤ}
use safelink_ssh.Text.{Text, codes, is_empty, text_eq}
use safelink_ssh.Config.Rules.{ProxyRule, type_rule_set, default_proxy_rules, normalize_proxy_rules}
use safelink_ssh.Store.{ClientSettings, Action, settings_path, id_or_random}
use safelink_ssh.Store.Disk.{load, write_file_atomic}

abbrev pub rule_mode_rules_version : ℤ
rule_mode_rules_version = pos 1

unfoldable pub normalize_mode : Text → Text
normalize_mode mode =
    if text_eq mode (codes "rule") || text_eq mode (codes "global") || text_eq mode (codes "direct")
    then mode
    else codes "rule"

abbrev pub is_rule_set : ProxyRule → Bool
is_rule_set r = text_eq r.type type_rule_set

-- The loop of migrateRuleModeRules over the built-in rules.
unfoldable pub rule_sets : List ProxyRule → List ProxyRule
rule_sets [] = []
rule_sets (r ∷ rules) = let rest = rule_sets rules in if is_rule_set r then r ∷ rest else rest

unfoldable pub migrate_rule_mode_rules : List ProxyRule → List ProxyRule
unfolding rule_sets
migrate_rule_mode_rules rules =
    if any is_rule_set rules then rules else rules ++ rule_sets default_proxy_rules

unfoldable pub migrate_from : ℤ → List ProxyRule → List ProxyRule
unfolding migrate_rule_mode_rules
migrate_from version rules =
    if ltb_ℤ version rule_mode_rules_version then migrate_rule_mode_rules rules else rules

-- The rules of normalizeSettings, before they get identifiers.
unfoldable pub settled_rules : ℤ → Option (List ProxyRule) → List ProxyRule
unfolding migrate_from
settled_rules version none = default_proxy_rules
settled_rules version (some rules) = migrate_from version (normalize_proxy_rules rules)

-- if rule.ID == "" { rule.ID = randomID() }, for every rule
unfoldable pub fill_ids : List ProxyRule → Action (List ProxyRule)
fill_ids [] = pure []
fill_ids (r ∷ rules) = do
  id ← id_or_random r.id
  rest ← fill_ids rules
  pure (record r { id = id } ∷ rest)

abbrev pub settle : ClientSettings → List ProxyRule → ClientSettings
settle s rules = record s {
  proxy_mode = normalize_mode s.proxy_mode;
  rule_mode_rules = some rules;
  rule_mode_rules_version = rule_mode_rules_version;
}

unfoldable pub normalize_settings : ClientSettings → Action ClientSettings
unfolding normalize_mode settled_rules fill_ids
normalize_settings s = do
  rules ← fill_ids (settled_rules s.rule_mode_rules_version s.rule_mode_rules)
  pure (settle s rules)

-- ClientSettings{}
abbrev pub zero_settings : ClientSettings
zero_settings = record {
  proxy_mode = [];
  system_proxy = false;
  auto_start = false;
  bypass_lan = false;
  auto_connect = false;
  minimize_to_tray = false;
  rule_mode_rules = none;
  rule_mode_rules_version = pos 0;
  selected_proxy_node_id = [];
  selected_proxy_subscription_id = [];
}

unfoldable pub load_settings : Action ClientSettings
unfolding normalize_settings
load_settings = do s ← load settings_path zero_settings; normalize_settings s

unfoldable pub save_settings : ClientSettings → Action (Unit {0})
unfolding normalize_settings
save_settings s = do normal ← normalize_settings s; write_file_atomic settings_path normal
