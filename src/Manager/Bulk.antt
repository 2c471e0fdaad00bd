-- ===== src/Manager/Bulk.antt =====
-- What BulkUpsert of client/internal/manager/manager.go does to the tunnels.
use safelink_ssh.Base.{
  ℕ, ◌+◌, ◌≡◌, ◌⊎◌, inl, inr, refl, sym, ◌∙◌, ap, subst, true, false, Option, none, some, List, [],
  ◌∷◌, Result, ok, err, arith, length, Bool-cases, if_rule, ◌==◌,
}
use safelink_ssh.Text.{Text, text_eq}
use safelink_ssh.Text.Laws.{eq_of_text_eq, text_eq_iff}
use safelink_ssh.Text.Table.{lookup, insert, lookup-insert, lookup-insert_other}
use safelink_ssh.Config.Tunnel.{TunnelCfg, TunnelError, validate_tunnel}
use safelink_ssh.Store.{World, StoreError}
use safelink_ssh.Manager.{
  ManagedTunnel, Tunnels, Import, ImportError, was_running, invalid, skip, take_in, place_tunnel,
  place_valid, prefixed, upsert_tunnel, upsert_tunnels, persist, after_persist, bulk_upsert,
  stopped_tunnel,
}

-- A tunnel that was there, or one that passed the validation under its own name.
abbrev pub IsKnown : Tunnels → Text → ManagedTunnel → Type 0
IsKnown m name t =
    (lookup name m ≡ some t) ⊎ ((validate_tunnel t.cfg ≡ ok tt) × (t.cfg.name ≡ name))

-- What an import does to `m`, in `n` more rounds.
abbrev pub Imports : ℕ → Import → Import → Type 0
Imports n u u' =
    (u'.imported + u'.skipped ≡ u.imported + u.skipped + n)
    × ((name : Text) (t : ManagedTunnel)
        → lookup name u.tunnels ≡ some t
        → t.running ≡ true
        → lookup name u'.tunnels ≡ some t)
    × ((name : Text) (t : ManagedTunnel)
        → lookup name u'.tunnels ≡ some t
        → IsKnown u.tunnels name t)

skip-Imports : (e : ImportError) (u : Import) → Imports 1 u (skip e u)
unfolding skip
skip-Imports e u = (omega arith, (λ name t at on. at), λ name t at. inl at)

take_in-Imports :
    (tc : TunnelCfg) (t : ManagedTunnel) (u : Import)
    → t.cfg ≡ tc
    → validate_tunnel tc ≡ ok tt
    → ((s : ManagedTunnel) → lookup tc.name u.tunnels ≡ some s → s.running ≡ false)
    → Imports 1 u (take_in tc t u)
unfolding take_in
take_in-Imports tc t u is valid idle = (omega arith, kept, known)
  where
    kept :
        (name : Text) (s : ManagedTunnel)
        → lookup name u.tunnels ≡ some s
        → s.running ≡ true
        → lookup name (insert tc.name t u.tunnels) ≡ some s
    kept name s at on =
        lookup-insert_other tc.name name t u.tunnels
          (λ same. cc (idle s (subst (λ n. lookup n u.tunnels ≡ some s) same at), on))
        ∙ at

    known :
        (name : Text) (s : ManagedTunnel)
        → lookup name (insert tc.name t u.tunnels) ≡ some s
        → IsKnown u.tunnels name s
    known name s at = elim (Bool-cases (text_eq name tc.name)) [
      | inl e ↦
          let same = eq_of_text_eq name tc.name e in
          let here : t ≡ s = cc (lookup-insert tc.name t u.tunnels, same, at) in
          inr (
            subst (λ (k : ManagedTunnel). validate_tunnel k.cfg ≡ ok tt) here
                (subst (λ c. validate_tunnel c ≡ ok tt) (sym is) valid),
            ap (λ (k : ManagedTunnel). k.cfg.name) (sym here)
                ∙ ap (λ (c : TunnelCfg). c.name) is
                ∙ sym same,
          )
      | inr e ↦ inl (
          sym (
            lookup-insert_other tc.name name t u.tunnels
              (λ same. cc ((text_eq_iff name tc.name).1 same, e)))
          ∙ at)
    ]

place_tunnel-Imports :
    (tc : TunnelCfg) (o : Option ManagedTunnel) (u : Import)
    → validate_tunnel tc ≡ ok tt
    → lookup tc.name u.tunnels ≡ o
    → Imports 1 u (place_tunnel tc o u)
unfolding place_tunnel
place_tunnel-Imports tc none u valid at =
    take_in-Imports tc (stopped_tunnel tc) u refl valid (λ s at'. cc)
place_tunnel-Imports tc (some t) u valid at =
    if_rule (Imports 1 u) t.running (skip (was_running tc.name) u)
      (take_in tc (record t { cfg = tc }) u) (λ e. skip-Imports (was_running tc.name) u)
      (λ e.
        take_in-Imports tc (record t { cfg = tc }) u refl valid
          (λ s at'.
            let same : t ≡ s = cc in subst (λ (k : ManagedTunnel). k.running ≡ false) same e))

upsert_tunnel-Imports :
    (prefix : Text) (tc : TunnelCfg) (u : Import) → Imports 1 u (upsert_tunnel prefix tc u)
unfolding upsert_tunnel place_valid
upsert_tunnel-Imports prefix tc u = go (validate_tunnel (prefixed prefix tc)) refl
  where
    go :
        (r : Result TunnelError (Unit {0}))
        → validate_tunnel (prefixed prefix tc) ≡ r
        → Imports 1 u (place_valid (prefixed prefix tc) r u)
    go (err e) is = skip-Imports (invalid (prefixed prefix tc).name e) u
    go (ok v) is =
        place_tunnel-Imports (prefixed prefix tc) (lookup (prefixed prefix tc).name u.tunnels) u is
          refl

IsKnown-through :
    (u u' : Import) (name : Text) (t : ManagedTunnel)
    → ((name : Text) (t : ManagedTunnel)
        → lookup name u'.tunnels ≡ some t
        → IsKnown u.tunnels name t)
    → IsKnown u'.tunnels name t
    → IsKnown u.tunnels name t
IsKnown-through u u' name t h (inl at) = h name t at
IsKnown-through u u' name t h (inr valid) = inr valid

upsert_tunnels-Imports :
    (prefix : Text) (incoming : List TunnelCfg) (u : Import)
    → Imports (length incoming) u (upsert_tunnels prefix incoming u)
unfolding upsert_tunnels
upsert_tunnels-Imports prefix [] u = (omega arith, (λ name t at on. at), λ name t at. inl at)
upsert_tunnels-Imports prefix (tc ∷ incoming) u =
    let (count, kept, known) = upsert_tunnel-Imports prefix tc u in
    let (count', kept', known') =
      upsert_tunnels-Imports prefix incoming (upsert_tunnel prefix tc u) in
    (
      omega (arith, count, count'),
      (λ name t at on. kept' name t (kept name t at on) on),
      λ name t at. IsKnown-through u (upsert_tunnel prefix tc u) name t known (known' name t at),
    )

abbrev fresh_import : Tunnels → Import
fresh_import m = record { tunnels = m; imported = 0; skipped = 0; errs = [] }

after_persist-Imports :
    (n : ℕ) (u u' : Import) (o : Result StoreError (Unit {0}) × World)
    → Imports n u u'
    → Imports n u (after_persist u' o).0
unfolding after_persist
after_persist-Imports n u u' (ok v, w) h = h
after_persist-Imports n u u' (err e, w) h = h

-- BulkUpsert counts every configuration as imported or skipped, changes no tunnel that is running, and
-- leaves only tunnels that were there before or that ValidateTunnel accepts under their own name.
pub bulk_upsert-Imports :
    (prefix : Text) (incoming : List TunnelCfg) (m : Tunnels) (w : World)
    → Imports
        (length incoming)
        (record { tunnels = m; imported = 0; skipped = 0; errs = [] })
        (bulk_upsert prefix incoming m w).0
unfolding bulk_upsert
bulk_upsert-Imports prefix incoming m w =
    let u = upsert_tunnels prefix incoming (fresh_import m) in
    if_rule (λ (r : Import × World). Imports (length incoming) (fresh_import m) r.0)
      (u.imported == 0) (u, w) (after_persist u (persist u.tunnels w))
      (λ e. upsert_tunnels-Imports prefix incoming (fresh_import m))
      (λ e.
        after_persist-Imports (length incoming) (fresh_import m) u (persist u.tunnels w)
          (upsert_tunnels-Imports prefix incoming (fresh_import m)))
