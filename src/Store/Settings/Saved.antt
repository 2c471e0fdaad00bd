-- ===== src/Store/Settings/Saved.antt =====
-- Settings that SaveSettings of client/internal/store/store.go wrote are read back as they were written.
use safelink_ssh.Base.{
  ◌≡◌, ◌≢◌, ◌⊎◌, inl, inr, refl, ap, sym, ◌∙◌, some, List, [], ◌++◌, Result, ok, err, arith, All,
}
use safelink_ssh.Text.{Text, codes, text_eq}
use safelink_ssh.Text.Laws.{text_eq_iff}
use safelink_ssh.Config.Rules.{ProxyRule}
use safelink_ssh.Store.{World, Files, ClientSettings, StoreError, settings_path, holds}
use safelink_ssh.Store.Disk.{write_file_atomic}
use safelink_ssh.Store.Disk.Transact.{bind_rule, load-holds, write_file_atomic-ok}
use safelink_ssh.Store.Disk.Atomic.{Writes, write_file_atomic-Writes}
use safelink_ssh.Store.Settings.{
  rule_mode_rules_version, normalize_mode, migrate_from, settled_rules, normalize_settings,
  fill_ids, load_settings, save_settings, zero_settings, settle,
}
use safelink_ssh.Store.Settings.Filled.{
  IsFilled, rules_normal, settled-AreNormal, fill_ids-IsFilled, filled-AreNormal, fill_ids-eq_self,
  fill_ids-append, settled_rules-extends,
}

abbrev pub IsMode : Text → Type 0
IsMode m = (m ≡ codes "rule") ⊎ (m ≡ codes "global") ⊎ (m ≡ codes "direct")

normalize_mode-IsMode : (m : Text) → IsMode (normalize_mode m)
unfolding normalize_mode
normalize_mode-IsMode m = ground (
  arith,
  text_eq_iff m (codes "rule"),
  text_eq_iff m (codes "global"),
  text_eq_iff m (codes "direct"),
)

normalize_mode-eq_self : (m : Text) → IsMode m → normalize_mode m ≡ m
unfolding normalize_mode text_eq
normalize_mode-eq_self m (inl e) = rw e
normalize_mode-eq_self m (inr (inl e)) = rw e
normalize_mode-eq_self m (inr (inr e)) = rw e

-- Settings as the store hands them out: a known mode, the version of this release, and normal rules
-- that all have an identifier.
abbrev pub AreSettled : ClientSettings → Type 0
AreSettled s =
    IsMode s.proxy_mode
    × (s.rule_mode_rules_version ≡ rule_mode_rules_version)
    × ((rules : List ProxyRule) × (s.rule_mode_rules ≡ some rules) × All IsFilled rules)

-- What settings that are saved keep of those that were passed: every switch and selection, a mode that
-- is known, and rules that are normal and have identifiers: they are all there is if they are of this
-- release, and the first ones otherwise.
pub record KeepsChoices (s t : ClientSettings) : Type 0 where
  pub system_proxy : t.system_proxy ≡ s.system_proxy
  pub auto_start : t.auto_start ≡ s.auto_start
  pub bypass_lan : t.bypass_lan ≡ s.bypass_lan
  pub auto_connect : t.auto_connect ≡ s.auto_connect
  pub minimize_to_tray : t.minimize_to_tray ≡ s.minimize_to_tray
  pub node : t.selected_proxy_node_id ≡ s.selected_proxy_node_id
  pub subscription : t.selected_proxy_subscription_id ≡ s.selected_proxy_subscription_id
  pub mode : IsMode s.proxy_mode → t.proxy_mode ≡ s.proxy_mode
  pub rules :
      (rules : List ProxyRule)
      → s.rule_mode_rules ≡ some rules
      → s.rule_mode_rules_version ≡ rule_mode_rules_version
      → All IsFilled rules
      → t.rule_mode_rules ≡ some rules
  pub rules_of_any_version :
      (rules : List ProxyRule)
      → s.rule_mode_rules ≡ some rules
      → All IsFilled rules
      → (others : List ProxyRule) × (t.rule_mode_rules ≡ some (rules ++ others))

settled_rules-eq_self :
    (rules : List ProxyRule)
    → All IsFilled rules
    → settled_rules rule_mode_rules_version (some rules) ≡ rules
unfolding settled_rules migrate_from
settled_rules-eq_self rules h = rules_normal rules (filled-AreNormal rules h)

fill_settled :
    (s : ClientSettings) (w v : World) (filled rules : List ProxyRule)
    → fill_ids (settled_rules s.rule_mode_rules_version s.rule_mode_rules) w ≡ (ok filled, v)
    → s.rule_mode_rules ≡ some rules
    → s.rule_mode_rules_version ≡ rule_mode_rules_version
    → All IsFilled rules
    → filled ≡ rules
fill_settled s w v filled rules e is version all = same (sym e ∙ passed)
  where
    passed : fill_ids (settled_rules s.rule_mode_rules_version s.rule_mode_rules) w ≡ (ok rules, w)
    passed = rw (version, is, settled_rules-eq_self rules all, fill_ids-eq_self rules w all)

    same :
        ◌≡◌ {A = Result StoreError (List ProxyRule) × World} (ok filled, v) (ok rules, w)
        → filled ≡ rules
    same e' = cc

fill_any_version :
    (s : ClientSettings) (w v : World) (filled rules : List ProxyRule)
    → fill_ids (settled_rules s.rule_mode_rules_version s.rule_mode_rules) w ≡ (ok filled, v)
    → s.rule_mode_rules ≡ some rules
    → All IsFilled rules
    → (others : List ProxyRule) × (filled ≡ rules ++ others)
fill_any_version s w v filled rules e is all =
    let (others, extended, normal) =
      settled_rules-extends s.rule_mode_rules_version rules (filled-AreNormal rules all) in
    let (behind, u, e', files, io, all') = fill_ids-IsFilled others w normal in
    (
      behind,
      same u behind (sym e ∙ rw (is, extended) (fill_ids-append rules others behind w u all e')),
    )
  where
    same :
        (u : World) (behind : List ProxyRule)
        → ◌≡◌ {A = Result StoreError (List ProxyRule) × World}
            (ok filled, v)
            (ok (rules ++ behind), u)
        → filled ≡ rules ++ behind
    same u behind e' = cc

normalize-AreSettled :
    (s : ClientSettings) (w : World)
    → (t : ClientSettings) × (v : World) × (normalize_settings s w ≡ (ok t, v))
      × (v.files ≡ w.files)
      × (v.io ≡ w.io)
      × AreSettled t
      × KeepsChoices s t
unfolding normalize_settings
normalize-AreSettled s w =
    let rules = settled_rules s.rule_mode_rules_version s.rule_mode_rules in
    let (filled, v, e, files, io, all) =
      fill_ids-IsFilled rules w (settled-AreNormal s.rule_mode_rules_version s.rule_mode_rules) in
    (
      settle s filled,
      v,
      rw e,
      files,
      io,
      (normalize_mode-IsMode s.proxy_mode, refl, (filled, refl, all)),
      record {
        system_proxy = refl;
        auto_start = refl;
        bypass_lan = refl;
        auto_connect = refl;
        minimize_to_tray = refl;
        node = refl;
        subscription = refl;
        mode = normalize_mode-eq_self s.proxy_mode;
        rules =
            λ rules is version all'. ap some (fill_settled s w v filled rules e is version all');
        rules_of_any_version = λ rules is all'.
            let (others, same) = fill_any_version s w v filled rules e is all' in
            (others, ap some same);
      },
    )

normalize-eq_self :
    (t : ClientSettings) (w : World) → AreSettled t → normalize_settings t w ≡ (ok t, w)
unfolding normalize_settings
normalize-eq_self t w (mode, version, (rules, is, all)) = rw (
  version,
  is,
  settled_rules-eq_self rules all,
  fill_ids-eq_self rules w all,
  normalize_mode-eq_self t.proxy_mode mode,
)

-- What SaveSettings does.
abbrev pub SavesSettings : ClientSettings → World → Result StoreError (Unit {0}) × World → Type 0
SavesSettings s w (ok u, v) =
    (t : ClientSettings) × (v.files ≡ settings_path.put (holds t) w.files)
    × AreSettled t
    × KeepsChoices s t
    × (load_settings (record v { io = [] }) ≡ (ok t, record v { io = [] }))
SavesSettings s w (err e, v) = (v.files ≡ w.files) × (w.io ≢ [])

read_back :
    (t : ClientSettings) (v : World)
    → v.files.settings ≡ holds t
    → AreSettled t
    → load_settings (record v { io = [] }) ≡ (ok t, record v { io = [] })
unfolding load_settings
read_back t v file settled =
    rw (load-holds settings_path zero_settings t v file)
      (normalize-eq_self t (record v { io = [] }) settled)

-- SaveSettings changes no file when it fails, which needs a system call that fails. When it succeeds,
-- settings.json holds settings with a known mode, the version of this release and normal rules that all
-- have identifiers. They have the switches and the selected node and subscription of the settings
-- passed, and their mode if it is known. Rules that are passed, are normal and have identifiers are
-- stored as they are, and others are put behind them only if they are not of this release. LoadSettings
-- returns exactly the stored settings, without a new identifier, when its read succeeds.
pub save_settings-SavesSettings :
    (s : ClientSettings) (w : World) → SavesSettings s w (save_settings s w)
unfolding save_settings
save_settings-SavesSettings s w =
    let (t, v, e, files, io, settled, choices) = normalize-AreSettled s w in
    bind_rule (SavesSettings s w) (normalize_settings s) (write_file_atomic settings_path) w v t e (
      go t v files settled choices (write_file_atomic settings_path t v)
        (λ none_fails. write_file_atomic-ok settings_path t v (io ∙ none_fails))
        (write_file_atomic-Writes settings_path t v))
  where
    go :
        (t : ClientSettings) (v : World)
        → v.files ≡ w.files
        → AreSettled t
        → KeepsChoices s t
        → (o : Result StoreError (Unit {0}) × World) → (w.io ≡ [] → o.0 ≡ ok tt)
        → Writes (settings_path.put (holds t)) v o
        → SavesSettings s w o
    go t v files settled choices (ok u, x) works h = (
      t,
      h.0 ∙ ap (settings_path.put (holds t)) files,
      settled,
      choices,
      read_back t x (ap (λ (f : Files). f.settings) h.0) settled,
    )
    go t v files settled choices (err e, x) works h =
        (h.0 ∙ files, λ none_fails. cc (works none_fails))
