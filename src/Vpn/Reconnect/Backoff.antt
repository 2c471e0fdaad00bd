-- ===== src/Vpn/Reconnect/Backoff.antt =====
-- The waits of Run in client/internal/tunnel/vpn.go, against their closed form.
use safelink_ssh.Base.{
  ℕ, zero, suc, ◌+◌, ◌*◌, ◌%◌, ◌≤◌, ◌<◌, ◌≡◌, refl, ap, subst, sym, ◌∙◌, Bool, true, false, ◌&&◌,
  some, List, [], ◌∷◌, ◌++◌, append_assoc, append-nil, map, Result, ok, err, arith, ltb,
  if◌then◌else◌, if_rule, not,
}
use safelink_ssh.Text.{Text, is_empty}
use safelink_ssh.Config.Tunnel.{TunnelCfg}
use safelink_ssh.Vpn.Reconnect.{
  Vpn, VpnError, Answers, Added, all_routes, some_routes, no_routes, Attempt, Cleared, RouteCall,
  Round, reconnecting, fails_early, no_stream, serves, set_state, clean_up, clean_up_if_needed,
  include_server, exclude_server, extract_host, add_routes, enable_routes, set_route, set_routes,
  auto_route, begin_session, attempt_once, run_once, next_backoff, apply_jitter, after_attempt,
  run_round, run_loop, run,
}

-- 2^k, at most 60.
power : ℕ → ℕ
power zero = 1
power (suc k) = power k * 2

abbrev cap : ℕ → ℕ
cap n = if ltb 60 n then 60 else n

unfoldable pub wait_after : ℕ → ℕ
unfolding power
wait_after k = cap (power k)

-- The back-off that is doubled up to the limit is the next one.
double_cap :
    (has_gateway : Text → Bool) (cfg : TunnelCfg) (n : ℕ)
    → 1 ≤ n
    → next_backoff has_gateway cfg (cap n) ≡ cap (n * 2)
unfolding next_backoff
double_cap has_gateway cfg n h = ground arith

power-pos : (k : ℕ) → 1 ≤ power k
unfolding power
power-pos zero = omega arith
power-pos (suc k) = omega (arith, power-pos k)

cap-pos : (n : ℕ) → 1 ≤ n → 1 ≤ cap n
cap-pos n h = ground arith

scale : (b lo x hi : ℕ) → 1 ≤ b → lo ≤ x → x < hi → (b * lo ≤ b * x) × (b * x < b * hi)
scale zero lo x hi pos_b h h' = omega arith
scale (suc zero) lo x hi pos_b h h' = (omega arith, omega arith)
scale (suc (suc b)) lo x hi pos_b h h' =
    let (below, above) = scale (suc b) lo x hi (omega arith) h h' in (omega arith, omega arith)

module _ (has_gateway : Text → Bool) (cfg : TunnelCfg) where
  jitter-bounds :
      (b nanos : ℕ)
      → 1 ≤ b
      → let wait = apply_jitter has_gateway cfg b nanos in
        (b * 800000000 ≤ wait) × (wait < b * 1200000000)
  unfolding apply_jitter
  jitter-bounds b nanos h =
      scale b 800000000 (400000 * (2000 + nanos % 1000)) 1200000000 h (omega arith) (omega arith)

failed : Result VpnError (Unit {0}) → Bool
failed (ok u) = false
failed (err e) = true

module _ (has_gateway : Text → Bool) (cfg : TunnelCfg) where
  -- Does the attempt end with an error?
  unfoldable pub fails : Attempt → Bool
  fails (fails_early calls) = true
  fails (no_stream calls answers more) = true
  fails (serves calls answers more cleared) = is_empty cfg.forward && is_empty cfg.ssh.addr

  -- Which of the rounds fail.
  abbrev pub failures : List Round → List Bool
  failures = map (λ (r : Round). fails r.attempt)

  -- The waits, in nanoseconds, behind attempts that failed or not, after `k` failures in a row: the next
  -- failure waits for 2^k seconds, at most 60, give or take a fifth, and a session that ended without
  -- an error starts again at one.
  unfoldable pub IsJittered : ℕ → List Bool → List ℕ → Type 0
  IsJittered k [] [] = Unit
  IsJittered k [] (wait ∷ waits) = ⊥
  IsJittered k (true ∷ failed) [] = ⊥
  IsJittered k (true ∷ failed) (wait ∷ waits) =
      (wait_after k * 800000000 ≤ wait)
      × (wait < wait_after k * 1200000000)
      × IsJittered (suc k) failed waits
  IsJittered k (false ∷ failed) waits = IsJittered 0 failed waits

  clean_up-waits : (cleared : Cleared) (v : Vpn) → (clean_up cfg.forward cleared v).waits ≡ v.waits
  unfolding clean_up include_server
  clean_up-waits cleared v =
      if_rule (λ (u : Vpn). u.waits ≡ v.waits) (is_empty (extract_host cfg.forward)) _ _ (λ e. refl)
        (λ e. refl)

  add_routes-waits : (added : Added) (v : Vpn) → (add_routes added v).1.waits ≡ v.waits
  unfolding add_routes
  add_routes-waits all_routes v = refl
  add_routes-waits some_routes v = refl
  add_routes-waits no_routes v = refl

  exclude_server-waits :
      (host : Text) (excluded : Bool) (v : Vpn) → (exclude_server host excluded v).waits ≡ v.waits
  unfolding exclude_server
  exclude_server-waits [] excluded v = refl
  exclude_server-waits (c ∷ s) true v = refl
  exclude_server-waits (c ∷ s) false v = refl

  enable_routes-waits :
      (answers : Answers) (v : Vpn) → (enable_routes cfg.forward answers v).1.waits ≡ v.waits
  unfolding enable_routes
  enable_routes-waits answers v =
      add_routes-waits answers.added _
      ∙ exclude_server-waits (extract_host cfg.forward) answers.excluded v

  set_route-waits :
      (call : RouteCall) (v : Vpn) → (set_route has_gateway cfg call v).1.waits ≡ v.waits
  unfolding set_route
  set_route-waits call v =
      if_rule Same (if call.enable then v.route_active else not v.route_active) _ _ (λ same. refl)
        (λ same.
          if_rule Same (is_empty cfg.tun.subnet) _ _ (λ none_set. refl)
            (λ some_set.
              if_rule Same (not (has_gateway cfg.tun.subnet)) _ _ (λ bad. refl)
                (λ good.
                  if_rule Same call.enable _ _ (λ on. enable_routes-waits call.answers v)
                    (λ off. clean_up-waits call.cleared v))))
    where
      Same : Result VpnError (Unit {0}) × Vpn → Type 0
      Same r = r.1.waits ≡ v.waits

  set_routes-waits :
      (calls : List RouteCall) (v : Vpn) → (set_routes has_gateway cfg calls v).waits ≡ v.waits
  unfolding set_routes
  set_routes-waits [] v = refl
  set_routes-waits (call ∷ calls) v = set_routes-waits calls _ ∙ set_route-waits call v

  begin_session-waits :
      (answers : Answers) (v : Vpn) → (begin_session has_gateway cfg answers v).waits ≡ v.waits
  unfolding begin_session auto_route set_state
  begin_session-waits answers v =
      if_rule (λ (u : Vpn). u.waits ≡ v.waits)
        (cfg.tun.auto_route && not (is_empty cfg.tun.subnet) && has_gateway cfg.tun.subnet) _ v
        (λ on. enable_routes-waits answers v) (λ off. refl)

  clean_up_if_needed-waits :
      (cleared : Cleared) (v : Vpn) → (clean_up_if_needed cfg.forward cleared v).waits ≡ v.waits
  unfolding clean_up_if_needed
  clean_up_if_needed-waits cleared v =
      if_rule (λ (u : Vpn). u.waits ≡ v.waits) v.route_cleanup_needed _ v
        (λ e. clean_up-waits cleared v) (λ e. refl)

  session-waits :
      (calls : List RouteCall) (answers : Answers) (more : List RouteCall) (v : Vpn)
      → (set_routes has_gateway cfg more
          (begin_session has_gateway cfg answers (set_routes has_gateway cfg calls v))).waits
        ≡ v.waits
  session-waits calls answers more v =
      set_routes-waits more _ ∙ begin_session-waits answers _ ∙ set_routes-waits calls v

  abbrev Outcome : Bool → Vpn → Result VpnError (Unit {0}) × Vpn → Type 0
  Outcome f v r = (failed r.0 ≡ f) × (r.1.waits ≡ v.waits)

  attempt_once-Outcome :
      (attempt : Attempt) (v : Vpn)
      → (is_empty cfg.forward && is_empty cfg.ssh.addr) ≡ false
      → Outcome (fails attempt) v (attempt_once has_gateway cfg attempt v)
  unfolding attempt_once fails failed
  attempt_once-Outcome (fails_early calls) v e = (refl, set_routes-waits calls v)
  attempt_once-Outcome (no_stream calls answers more) v e =
      (refl, session-waits calls answers more v)
  attempt_once-Outcome (serves calls answers more cleared) v e =
      (sym e, clean_up_if_needed-waits cleared _ ∙ session-waits calls answers more v)

  no_address-fails :
      (attempt : Attempt)
      → (is_empty cfg.forward && is_empty cfg.ssh.addr) ≡ true
      → fails attempt ≡ true
  unfolding fails
  no_address-fails (fails_early calls) e = refl
  no_address-fails (no_stream calls answers more) e = refl
  no_address-fails (serves calls answers more cleared) e = e

  run_once-Outcome :
      (attempt : Attempt) (v : Vpn) → Outcome (fails attempt) v (run_once has_gateway cfg attempt v)
  unfolding run_once set_state failed
  run_once-Outcome attempt v =
      if_rule (Outcome (fails attempt) v) (is_empty cfg.forward && is_empty cfg.ssh.addr) _ _
        (λ e. (sym (no_address-fails attempt e), refl)) (λ e. attempt_once-Outcome attempt _ e)

  -- What a loop adds to the waits.
  abbrev Adds : ℕ → List Bool → Vpn → Vpn → Type 0
  Adds k failed v u = (waits : List ℕ) × (u.waits ≡ v.waits ++ waits) × IsJittered k failed waits

  -- One round: what the rest of the loop waits behind it.
  round-waits :
      (nanos : ℕ) (between : List RouteCall) (r : Result VpnError (Unit {0}) × Vpn) (k : ℕ)
      (rest : List Bool) (go : ℕ × Vpn → Vpn)
      → ((j : ℕ) (u : Vpn) → Adds j rest u (go (wait_after j, u)))
      → let (b, u) = after_attempt has_gateway cfg nanos (wait_after k) r in
        Adds k (failed r.0 ∷ rest) r.1 (go (b, set_routes has_gateway cfg between u))
  unfolding after_attempt failed IsJittered set_state wait_after
  round-waits nanos between (ok u, v) k rest go later =
      let (waits, e, h) = later 0 (set_routes has_gateway cfg between v) in
      (waits, e ∙ ap (λ ws. ws ++ waits) (set_routes-waits between v), h)
  round-waits nanos between (err e, v) k rest go later =
      subst (λ b. Adds k (true ∷ rest) v (go (b, set_routes has_gateway cfg between waited)))
        (sym (double_cap has_gateway cfg (power k) (power-pos k))) behind
    where
      wait : ℕ
      wait = apply_jitter has_gateway cfg (cap (power k)) nanos

      waited : Vpn
      waited = record (set_state reconnecting (some e) v) { waits = v.waits ++ wait ∷ [] }

      behind :
          Adds k
            (true ∷ rest)
            v
            (go (wait_after (suc k), set_routes has_gateway cfg between waited))
      behind =
          let (waits, e', h) = later (suc k) (set_routes has_gateway cfg between waited) in
          let (lo, hi) =
            jitter-bounds has_gateway cfg (cap (power k)) nanos (cap-pos (power k) (power-pos k)) in
          (
            wait ∷ waits,
            e'
                ∙ ap (λ ws. ws ++ waits) (set_routes-waits between waited)
                ∙ append_assoc v.waits (wait ∷ []) waits,
            (lo, hi, h),
          )

  Adds-after :
      (k : ℕ) (failed : List Bool) (v v' u : Vpn)
      → v'.waits ≡ v.waits
      → Adds k failed v' u
      → Adds k failed v u
  Adds-after k failed v v' u same (waits, e, h) = (waits, e ∙ ap (λ ws. ws ++ waits) same, h)

  run_loop-waits :
      (rounds : List Round) (k : ℕ) (v : Vpn)
      → Adds k (failures rounds) v (run_loop has_gateway cfg rounds (wait_after k, v)).1
  unfolding run_loop run_round IsJittered
  run_loop-waits [] k v = ([], sym (append-nil v.waits), tt)
  run_loop-waits (round ∷ rounds) k v =
      let r = run_once has_gateway cfg round.attempt v in
      let (outcome, same) = run_once-Outcome round.attempt v in
      Adds-after k (failures (round ∷ rounds)) v r.1
        (run_loop has_gateway cfg rounds (run_round has_gateway cfg round (wait_after k, v))).1 same
        (subst
          (λ f.
            Adds k (f ∷ failures rounds) r.1
              (run_loop has_gateway cfg rounds
                (run_round has_gateway cfg round (wait_after k, v))).1)
          outcome
          (round-waits round.nanos round.between r k (failures rounds)
            (λ s. (run_loop has_gateway cfg rounds s).1) (run_loop-waits rounds)))

  -- Run waits behind every failure, and nowhere else. Where k failures came before it in a row, the wait
  -- is at least 0.8 times and less than 1.2 times 2^k seconds, or as much of 60 seconds if 2^k is more; a
  -- session that ended without an error starts the count again. SetRoute calls change none of it.
  pub run-waits :
      (rounds : List Round) (cleared : Cleared) (v : Vpn)
      → (waits : List ℕ) × ((run has_gateway cfg rounds cleared v).waits ≡ v.waits ++ waits)
        × IsJittered 0 (failures rounds) waits
  unfolding run set_state wait_after
  run-waits rounds cleared v =
      let (waits, e, h) = run_loop-waits rounds 0 v in
      (waits, clean_up_if_needed-waits cleared _ ∙ e, h)
