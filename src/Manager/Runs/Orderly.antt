-- ===== src/Manager/Runs/Orderly.antt =====
-- Stopping and starting a tunnel of client/internal/manager/manager.go in turns: a start comes only
-- when the goroutines of all earlier runs have ended, as after a stop that waited for its run.
use safelink_ssh.Base.{
  ℕ, ◌≡◌, ◌≢◌, ◌⊎◌, inl, inr, refl, sym, ap, subst, ◌∙◌, Option, none, some, List, [], ◌∷◌, ◌++◌,
  if_rule, ◌==◌, ==_iff, false,
}
use safelink_ssh.Manager.Runs.{
  Tunnel, Phase, working, cancelled, ended, fresh, set_phase, first_phase, start_unless,
  start_tunnel, start_run, take_from, take_cancel, cancel_phase, call_cancel, cancel_root, end_run,
}
use safelink_ssh.Manager.Runs.Regular.{set_phase_same, set_phase_other, some_injective}

pub data Turn (t : Tunnel) : Tunnel → Type 0 where
  start : ((run : ℕ) → t.phase run ≡ ended) → Turn t (start_tunnel t)
  stop : Turn t (take_cancel t)
  cancelling :
      (run : ℕ) (before rest : List ℕ)
      → t.taken ≡ before ++ run ∷ rest
      → Turn t (call_cancel run before rest t)
  finish : (run : ℕ) → t.phase run ≢ ended → Turn t (end_run run t)
  root_cancelled : Turn t (cancel_root t)

pub data Turns : Tunnel → Type 0 where
  first : Turns fresh
  later : {t u : Tunnel} → Turns t → Turn t u → Turns u

abbrev pub Among : ℕ → List ℕ → Type 0
Among x [] = ⊥
Among x (y ∷ ys) = (x ≡ y) ⊎ Among x ys

-- The tunnel, or a call that is stopping it, has the cancel function of a run.
abbrev pub CanStop : Tunnel → ℕ → Type 0
CanStop t run = (t.cancel ≡ some run) ⊎ Among run t.taken

-- At most one run has not ended, and one that works can be stopped.
abbrev IsOrderly : Tunnel → Type 0
IsOrderly t =
    ((x y : ℕ) → t.phase x ≢ ended → t.phase y ≢ ended → x ≡ y)
    × ((x : ℕ) → t.phase x ≡ working → CanStop t x)

working-ne : {p : Phase} → p ≡ working → p ≢ ended
working-ne e h = cc (e, h)

phase_dec : (p : Phase) → (p ≡ ended) ⊎ (p ≢ ended)
phase_dec working = inr (λ e. cc)
phase_dec cancelled = inr (λ e. cc)
phase_dec ended = inl refl

own : (t : Tunnel) → (start_run t).cancel ≡ some t.next
unfolding start_run
own t = refl

-- After a start from a state where everything has ended, only the new run has not.
only_new :
    (t : Tunnel) (x : ℕ)
    → ((run : ℕ) → t.phase run ≡ ended)
    → (start_run t).phase x ≢ ended
    → x ≡ t.next
unfolding start_run
only_new t x all_ended =
    if_rule (λ p. p ≢ ended → x ≡ t.next) (x == t.next) (first_phase t.live) (t.phase x)
      (λ e alive. (==_iff x t.next).0 e) (λ e alive. absurd (alive (all_ended x)))

start_run-IsOrderly : (t : Tunnel) → ((run : ℕ) → t.phase run ≡ ended) → IsOrderly (start_run t)
start_run-IsOrderly t all_ended = (
  λ x y hx hy. only_new t x all_ended hx ∙ sym (only_new t y all_ended hy),
  λ x h. inl (current x (only_new t x all_ended (working-ne h))),
)
  where
    current : (x : ℕ) → x ≡ t.next → (start_run t).cancel ≡ some x
    current x e = own t ∙ ap some (sym e)

start-IsOrderly :
    (t : Tunnel) → ((run : ℕ) → t.phase run ≡ ended) → IsOrderly t → IsOrderly (start_tunnel t)
unfolding start_tunnel
start-IsOrderly t all_ended orderly = unless t.cancel
  where
    unless : (o : Option ℕ) → IsOrderly (start_unless o t)
    unless none = start_run-IsOrderly t all_ended
    unless (some run) = orderly

take_cancel-IsOrderly : (t : Tunnel) → IsOrderly t → IsOrderly (take_cancel t)
unfolding take_cancel
take_cancel-IsOrderly t (one, can_stop) = take t.cancel refl
  where
    take : (o : Option ℕ) → t.cancel ≡ o → IsOrderly (take_from o t)
    take none e = (one, can_stop)
    take (some run) e = (
      one,
      λ x h. elim (can_stop x h) [
        | inl held ↦ inr (inl (some_injective (sym held ∙ e)))
        | inr among ↦ inr (inr among)
      ],
    )

cancel_phase-alive : (p : Phase) → cancel_phase p ≢ ended → p ≢ ended
unfolding cancel_phase
cancel_phase-alive working alive e = cc
cancel_phase-alive cancelled alive e = cc
cancel_phase-alive ended alive e = alive refl

cancel_phase-works : (p : Phase) → cancel_phase p ≡ working → ⊥
unfolding cancel_phase
cancel_phase-works working e = cc
cancel_phase-works cancelled e = cc
cancel_phase-works ended e = cc

module _ (run : ℕ) (before rest : List ℕ) (t : Tunnel) where
  alive_before : (x : ℕ) → (call_cancel run before rest t).phase x ≢ ended → t.phase x ≢ ended
  unfolding call_cancel
  alive_before x =
      if_rule (λ p. p ≢ ended → t.phase x ≢ ended) (x == run) (cancel_phase (t.phase run))
        (t.phase x)
        (λ e alive.
          subst (λ y. t.phase y ≢ ended) (sym ((==_iff x run).0 e))
            (cancel_phase-alive (t.phase run) alive))
        (λ e alive. alive)

  works_before :
      (x : ℕ)
      → (call_cancel run before rest t).phase x ≡ working
      → (x ≢ run) × (t.phase x ≡ working)
  unfolding call_cancel
  works_before x h = (other, works)
    where
      other : x ≢ run
      other e = cancel_phase-works (t.phase run) (
          sym (set_phase_same t.phase run (cancel_phase (t.phase run)))
          ∙ ap (set_phase t.phase run (cancel_phase (t.phase run))) (sym e)
          ∙ h)

      works : t.phase x ≡ working
      works = sym (set_phase_other t.phase run x (cancel_phase (t.phase run)) other) ∙ h

Among-middle :
    (x run : ℕ) (before rest : List ℕ)
    → x ≢ run
    → Among x (before ++ run ∷ rest)
    → Among x (before ++ rest)
Among-middle x run [] rest other (inl same) = absurd (other same)
Among-middle x run [] rest other (inr among) = among
Among-middle x run (y ∷ before) rest other (inl same) = inl same
Among-middle x run (y ∷ before) rest other (inr among) =
    inr (Among-middle x run before rest other among)

cancel_root-IsOrderly : (t : Tunnel) → IsOrderly t → IsOrderly (cancel_root t)
unfolding cancel_root
cancel_root-IsOrderly t (one, can_stop) = (
  λ x y hx hy. one x y (cancel_phase-alive (t.phase x) hx) (cancel_phase-alive (t.phase y) hy),
  λ x h. absurd (cancel_phase-works (t.phase x) h),
)

call_cancel-IsOrderly :
    (run : ℕ) (before rest : List ℕ) (t : Tunnel)
    → t.taken ≡ before ++ run ∷ rest
    → IsOrderly t
    → IsOrderly (call_cancel run before rest t)
unfolding call_cancel
call_cancel-IsOrderly run before rest t e (one, can_stop) = (
  λ x y hx hy. one x y (alive_before run before rest t x hx) (alive_before run before rest t y hy),
  λ x h.
      let (other, works) = works_before run before rest t x h in
      elim (can_stop x works) [
        | inl held ↦ inl held
        | inr among ↦ inr (Among-middle x run before rest other (subst (Among x) e among))
      ],
)

differs : (x y : ℕ) → (x == y) ≡ false → x ≡ y → ⊥
differs x y e same = cc (e, (==_iff x y).1 same)

end_run-IsOrderly :
    (run : ℕ) (t : Tunnel) → t.phase run ≢ ended → IsOrderly t → IsOrderly (end_run run t)
unfolding end_run
end_run-IsOrderly run t alive (one, can_stop) =
    (λ x y hx hy. absurd (hx (all_ended x)), λ x h. absurd (working-ne h (all_ended x)))
  where
    all_ended : (x : ℕ) → set_phase t.phase run ended x ≡ ended
    all_ended x =
        if_rule (λ p. p ≡ ended) (x == run) ended (t.phase x) (λ e. refl)
          (λ e. elim (phase_dec (t.phase x)) [
            | inl over ↦ over
            | inr other ↦ absurd (differs x run e (one x run other alive))
          ])

Turns-IsOrderly : {t : Tunnel} → Turns t → IsOrderly t
Turns-IsOrderly first = ((λ x y hx hy. absurd (hx refl)), λ x h. cc)
Turns-IsOrderly (later {t} turns (start all_ended)) =
    start-IsOrderly t all_ended (Turns-IsOrderly turns)
Turns-IsOrderly (later {t} turns stop) = take_cancel-IsOrderly t (Turns-IsOrderly turns)
Turns-IsOrderly (later {t} turns (cancelling run before rest e)) =
    call_cancel-IsOrderly run before rest t e (Turns-IsOrderly turns)
Turns-IsOrderly (later {t} turns (finish run alive)) =
    end_run-IsOrderly run t alive (Turns-IsOrderly turns)
Turns-IsOrderly (later {t} turns root_cancelled) = cancel_root-IsOrderly t (Turns-IsOrderly turns)

-- If a tunnel is only started when the goroutines of all its earlier runs have ended, at most one run
-- has not ended at any time, and a run that works can be stopped: the tunnel, or a call that is
-- stopping it, has its cancel function. The callers that stop it go on in any order, goroutines may end
-- by themselves, and the root context may be cancelled at any time.
pub Turns-CanStop :
    (t : Tunnel)
    → Turns t
    → ((x y : ℕ) → t.phase x ≢ ended → t.phase y ≢ ended → x ≡ y)
      × ((run : ℕ) → t.phase run ≡ working → CanStop t run)
Turns-CanStop t turns = Turns-IsOrderly turns
