-- ===== src/Store/Settings/Filled.antt =====
-- The rules of the settings of client/internal/store/store.go: normal, and each with an identifier.
use safelink_ssh.Base.{
  ◌++◌, append-nil, ◌≡◌, ◌≢◌, inl, inr, refl, ap, ◌∙◌, sym, Option, none, some, List, [], ◌∷◌,
  Result, ok, All, any, Bool-cases, All-append,
}
use safelink_ssh.Base.Int.{ℤ, ltb_ℤ}
use safelink_ssh.Text.{Text, is_empty, trim_space}
use safelink_ssh.Text.Laws.{is_empty_iff}
use safelink_ssh.Config.Rules.{
  ProxyRule, default_proxy_rules, normalize_proxy_rule, normalize_proxy_rules,
}
use safelink_ssh.Config.Rules.Normal.{normalize_rules_lem, default_rules_valid}
use safelink_ssh.Store.{
  World, StoreError, id_or_random, random_id, new_id, id_or_random_lem, draw, hex_encode,
}
use safelink_ssh.Store.Hex.{trim_space-hex}
use safelink_ssh.Store.Settings.{
  rule_mode_rules_version, rule_sets, is_rule_set, migrate_rule_mode_rules, migrate_from,
  settled_rules, fill_ids,
}

-- A list of rules that NormalizeProxyRules does not change.
abbrev pub AreNormal : List ProxyRule → Type 0
AreNormal rules = All (λ r. normalize_proxy_rule r ≡ r) rules

normal_rules : (rules : List ProxyRule) → normalize_proxy_rules rules ≡ rules → AreNormal rules
unfolding normalize_proxy_rules
normal_rules [] e = tt
normal_rules (r ∷ rules) e = (cc, normal_rules rules (cc))

pub rules_normal : (rules : List ProxyRule) → AreNormal rules → normalize_proxy_rules rules ≡ rules
unfolding normalize_proxy_rules
rules_normal [] h = refl
rules_normal (r ∷ rules) h = cc (h.0, rules_normal rules h.1)

rule_sets-AreNormal : (rules : List ProxyRule) → AreNormal rules → AreNormal (rule_sets rules)
unfolding rule_sets
rule_sets-AreNormal [] h = tt
rule_sets-AreNormal (r ∷ rules) h = elim (Bool-cases (is_rule_set r)) [
  | inl e ↦ rw e (h.0, rule_sets-AreNormal rules h.1)
  | inr e ↦ rw e (rule_sets-AreNormal rules h.1)
]

migrate-AreNormal :
    (version : ℤ) (rules : List ProxyRule)
    → AreNormal rules
    → AreNormal (migrate_from version rules)
unfolding migrate_from migrate_rule_mode_rules
migrate-AreNormal version rules h = elim (Bool-cases (ltb_ℤ version rule_mode_rules_version)) [
  | inl e ↦ elim (Bool-cases (any is_rule_set rules)) [
    | inl e' ↦ rw (e, e') h
    | inr e' ↦
        rw (e, e')
          (All-append (λ r. normalize_proxy_rule r ≡ r) rules (rule_sets default_proxy_rules) h
            (rule_sets-AreNormal default_proxy_rules
              (normal_rules default_proxy_rules default_rules_valid.0)))
  ]
  | inr e ↦ rw e h
]

pub settled-AreNormal :
    (version : ℤ) (rules : Option (List ProxyRule)) → AreNormal (settled_rules version rules)
unfolding settled_rules
settled-AreNormal version none = normal_rules default_proxy_rules default_rules_valid.0
settled-AreNormal version (some rules) =
    migrate-AreNormal version (normalize_proxy_rules rules)
      (normal_rules (normalize_proxy_rules rules) (normalize_rules_lem rules).1)

-- Every rule is normal and has an identifier.
abbrev pub IsFilled : ProxyRule → Type 0
IsFilled r = (normalize_proxy_rule r ≡ r) × (r.id ≢ [])

new_id-ne_nil : (id : Text) (w : World) → new_id id w ≢ []
unfolding draw hex_encode
new_id-ne_nil [] w = λ e. cc
new_id-ne_nil (c ∷ id) w = λ e. cc

trim-new_id : (id : Text) (w : World) → trim_space id ≡ id → trim_space (new_id id w) ≡ new_id id w
trim-new_id [] w h = trim_space-hex 8 w.entropy w.drawn
trim-new_id (c ∷ id) w h = h

fill-IsFilled :
    (r : ProxyRule) (w : World)
    → normalize_proxy_rule r ≡ r
    → IsFilled (record r { id = new_id r.id w })
unfolding normalize_proxy_rule
fill-IsFilled r w h =
    (cc (trim-new_id r.id w (ap (λ (q : ProxyRule). q.id) h), h), new_id-ne_nil r.id w)

-- Random bytes take no system call.
id_or_random-io : (id : Text) (w : World) → (id_or_random id w).1.io ≡ w.io
unfolding id_or_random random_id
id_or_random-io [] w = refl
id_or_random-io (c ∷ id) w = refl

pub fill_ids-IsFilled :
    (rules : List ProxyRule) (w : World)
    → AreNormal rules
    → (filled : List ProxyRule) × (v : World) × (fill_ids rules w ≡ (ok filled, v))
      × (v.files ≡ w.files)
      × (v.io ≡ w.io)
      × All IsFilled filled
unfolding fill_ids
fill_ids-IsFilled [] w h = ([], w, refl, refl, refl, tt)
fill_ids-IsFilled (r ∷ rules) w h =
    let (v, e, files, entropy) = id_or_random_lem r.id w in
    let (filled, u, e', files', io, all) = fill_ids-IsFilled rules v h.1 in
    (
      record r { id = new_id r.id w } ∷ filled,
      u,
      rw (e, e'),
      files' ∙ files,
      io ∙ ap (λ (o : Result StoreError Text × World). o.1.io) (sym e) ∙ id_or_random-io r.id w,
      (fill-IsFilled r w h.0, all),
    )

pub filled-AreNormal : (rules : List ProxyRule) → All IsFilled rules → AreNormal rules
filled-AreNormal [] h = tt
filled-AreNormal (r ∷ rules) h = (h.0.0, filled-AreNormal rules h.1)

-- Filled rules are passed through without a random byte.
pub fill_ids-eq_self :
    (rules : List ProxyRule) (w : World) → All IsFilled rules → fill_ids rules w ≡ (ok rules, w)
unfolding fill_ids id_or_random
fill_ids-eq_self [] w h = refl
fill_ids-eq_self (r ∷ rules) w h = elim (Bool-cases (is_empty r.id)) [
  | inl e ↦ elim (h.0.1 ((is_empty_iff r.id).0 e)) [ ]
  | inr e ↦ rw (e, fill_ids-eq_self rules w h.1)
]

-- Behind filled rules, others are filled as they are on their own.
pub fill_ids-append :
    (rules others filled : List ProxyRule) (w v : World)
    → All IsFilled rules
    → fill_ids others w ≡ (ok filled, v)
    → fill_ids (rules ++ others) w ≡ (ok (rules ++ filled), v)
unfolding fill_ids id_or_random
fill_ids-append [] others filled w v h e = e
fill_ids-append (r ∷ rules) others filled w v h e = elim (Bool-cases (is_empty r.id)) [
  | inl empty ↦ elim (h.0.1 ((is_empty_iff r.id).0 empty)) [ ]
  | inr named ↦ rw (named, fill_ids-append rules others filled w v h.1 e) refl
]

-- Settings of any version keep normal rules, and at most put built-in ones behind them.
pub settled_rules-extends :
    (version : ℤ) (rules : List ProxyRule)
    → AreNormal rules
    → (others : List ProxyRule) × (settled_rules version (some rules) ≡ rules ++ others)
      × AreNormal others
unfolding settled_rules migrate_from migrate_rule_mode_rules
settled_rules-extends version rules h = elim (Bool-cases (ltb_ℤ version rule_mode_rules_version)) [
  | inl e ↦ elim (Bool-cases (any is_rule_set rules)) [
    | inl e' ↦ ([], rw (rules_normal rules h, e, e') (sym (append-nil rules)), tt)
    | inr e' ↦ (
      rule_sets default_proxy_rules,
      rw (rules_normal rules h, e, e') refl,
      rule_sets-AreNormal default_proxy_rules
          (normal_rules default_proxy_rules default_rules_valid.0),
    )
  ]
  | inr e ↦ ([], rw (rules_normal rules h, e) (sym (append-nil rules)), tt)
]
