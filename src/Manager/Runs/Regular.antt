-- ===== src/Manager/Runs/Regular.antt =====
-- The cancel function of a tunnel of client/internal/manager/manager.go, in every interleaving of its calls.
use safelink_ssh.Base.{
  ℕ, ◌+◌, ◌≡◌, ◌≢◌, ◌<◌, refl, sym, ap, subst, ◌∙◌, Option, none, some, List, [], ◌∷◌, ◌++◌, true,
  All, arith, ◌==◌, ==_iff, if_rule,
}
use safelink_ssh.Manager.Runs.{
  Tunnel, Phase, working, set_phase, first_phase, start_unless, start_tunnel, start_run, take_from,
  take_cancel, cancel_phase, call_cancel, end_run, Step, start, stop, cancelling, finish, Reach,
  first, next_state,
}

abbrev pub Apart : ℕ → List ℕ → Type 0
Apart run = All (λ x. x ≢ run)

abbrev pub Below : ℕ → List ℕ → Type 0
Below n = All (λ x. x < n)

pub Below-Apart : (n : ℕ) (xs : List ℕ) → Below n xs → Apart n xs
Below-Apart n [] h = tt
Below-Apart n (x ∷ xs) (lt, h) = ((λ e. omega arith), Below-Apart n xs h)

Below-suc : (n : ℕ) (xs : List ℕ) → Below n xs → Below (n + 1) xs
Below-suc n [] h = tt
Below-suc n (x ∷ xs) (lt, h) = (omega arith, Below-suc n xs h)

-- One element taken out.
pub All-middle :
    (P : ℕ → Type 0) (before : List ℕ) (x : ℕ) (rest : List ℕ)
    → All P (before ++ x ∷ rest)
    → P x × All P (before ++ rest)
All-middle P [] x rest h = h
All-middle P (y ∷ before) x rest (hy, h) =
    let (hx, more) = All-middle P before x rest h in (hx, (hy, more))

-- Writing one phase.
pub set_phase_same : (phase : ℕ → Phase) (run : ℕ) (p : Phase) → set_phase phase run p run ≡ p
set_phase_same phase run p = rw ((==_iff run run).1 refl) refl

pub set_phase_other :
    (phase : ℕ → Phase) (run x : ℕ) (p : Phase) → x ≢ run → set_phase phase run p x ≡ phase x
set_phase_other phase run x p ne =
    if_rule (λ q. q ≡ phase x) (x == run) p (phase x) (λ e. absurd (ne ((==_iff x run).0 e)))
      (λ e. refl)

-- A tunnel's cancel function belongs to a run that works and whose number was given; no caller has it.
-- The root context is not cancelled.
abbrev pub IsCurrent : Tunnel → ℕ → Type 0
IsCurrent t run = (run < t.next) × (t.phase run ≡ working) × Apart run t.taken

abbrev pub Regular : Tunnel → Type 0
Regular t =
    ((run : ℕ) → t.cancel ≡ some run → IsCurrent t run) × Below t.next t.taken × (t.live ≡ true)

pub some_injective : {m n : ℕ} → some m ≡ some n → m ≡ n
some_injective e = cc

start_run-Regular : (t : Tunnel) → Regular t → Regular (start_run t)
unfolding start_run first_phase
start_run-Regular t (current, below, live) = (
  λ run e. subst (IsCurrent (start_run t)) (some_injective e) (
    omega arith,
    set_phase_same t.phase t.next (first_phase t.live) ∙ ap first_phase live,
    Below-Apart t.next t.taken below,
  ),
  Below-suc t.next t.taken below,
  live,
)

start-Regular : (t : Tunnel) → Regular t → Regular (start_tunnel t)
unfolding start_tunnel
start-Regular t regular = unless t.cancel
  where
    unless : (o : Option ℕ) → Regular (start_unless o t)
    unless none = start_run-Regular t regular
    unless (some run) = regular

take_cancel-Regular : (t : Tunnel) → Regular t → Regular (take_cancel t)
unfolding take_cancel
take_cancel-Regular t (current, below, live) = take (t.cancel) refl
  where
    take : (o : Option ℕ) → t.cancel ≡ o → Regular (take_from o t)
    take none e = (current, below, live)
    take (some run) e = ((λ x none_left. cc), ((current run e).0, below), live)

call_cancel-Regular :
    (run : ℕ) (before rest : List ℕ) (t : Tunnel)
    → t.taken ≡ before ++ run ∷ rest
    → Regular t
    → Regular (call_cancel run before rest t)
unfolding call_cancel
call_cancel-Regular run before rest t e (current, below, live) = (
  λ x h.
      let (lt, works, apart) = current x h in
      let (ne, apart_rest) = All-middle (λ y. y ≢ x) before run rest (subst (Apart x) e apart) in
      (
        lt,
        set_phase_other t.phase run x (cancel_phase (t.phase run)) (λ same. ne (sym same)) ∙ works,
        apart_rest,
      ),
  (All-middle (λ y. y < t.next) before run rest (subst (Below t.next) e below)).1,
  live,
)

end_run-Regular : (run : ℕ) (t : Tunnel) → Regular t → Regular (end_run run t)
unfolding end_run
end_run-Regular run t (current, below, live) = ((λ x h. cc), below, live)

pub step-Regular : {t u : Tunnel} → Step t u → Regular t → Regular u
step-Regular {t} start h = start-Regular t h
step-Regular {t} stop h = take_cancel-Regular t h
step-Regular {t} (cancelling run before rest e) h = call_cancel-Regular run before rest t e h
step-Regular {t} (finish run e) h = end_run-Regular run t h

pub Reach-Regular : {t : Tunnel} → Reach t → Regular t
Reach-Regular first = ((λ run e. cc), tt, refl)
Reach-Regular (next_state r s) = step-Regular s (Reach-Regular r)
