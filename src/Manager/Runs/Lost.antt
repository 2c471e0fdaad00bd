-- ===== src/Manager/Runs/Lost.antt =====
-- A run of client/internal/manager/manager.go that no call can stop: a start that comes between the two
-- halves of a stop, before the goroutine of the old run ends.
use safelink_ssh.Base.{
  ℕ, ◌≡◌, ◌≢◌, ◌<◌, refl, sym, ap, subst, ◌∙◌, Option, none, some, List, [], ◌∷◌, ◌++◌, arith,
}
use safelink_ssh.Manager.Runs.{
  Tunnel, working, cancelled, ended, first_phase, start_unless, start_tunnel, start_run, take_from,
  take_cancel, cancel_phase, call_cancel, cancel_root, end_run, Event, by_call, root_cancelled,
  Events, no_more, then_event, start, stop, cancelling, finish, Steps, here, later, Reach,
}
use safelink_ssh.Manager.Runs.Regular.{
  Apart, All-middle, set_phase_same, set_phase_other, some_injective, Reach-Regular,
}

-- A run that was started and that no cancel function belongs to, neither the tunnel's nor a caller's.
pub record IsLost (run : ℕ) (t : Tunnel) : Type 0 where
  pub started : run < t.next
  pub no_cancel : t.cancel ≢ some run
  pub not_taken : Apart run t.taken

module _ (run : ℕ) where
  -- What a step leaves of a lost run: it stays lost, in the phase that it was in.
  abbrev Leaves : Tunnel → Tunnel → Type 0
  Leaves t u = IsLost run u × (u.phase run ≡ t.phase run)

  newer : {n : ℕ} → n ≡ run → run < n → ⊥
  newer e lt = omega arith

  start_unless-Leaves : (o : Option ℕ) (t : Tunnel) → IsLost run t → Leaves t (start_unless o t)
  unfolding start_unless start_run
  start_unless-Leaves none t l = (
    record {
      started = omega (arith, l.started);
      no_cancel = λ e. newer (some_injective e) l.started;
      not_taken = l.not_taken;
    },
    set_phase_other t.phase t.next run (first_phase t.live) (λ e. newer (sym e) l.started),
  )
  start_unless-Leaves (some x) t l = (l, refl)

  take_from-Leaves :
      (o : Option ℕ) (t : Tunnel) → t.cancel ≡ o → IsLost run t → Leaves t (take_from o t)
  unfolding take_from
  take_from-Leaves none t e l = (l, refl)
  take_from-Leaves (some x) t e l = (
    record {
      started = l.started;
      no_cancel = λ h. cc;
      not_taken = ((λ same. l.no_cancel (e ∙ ap some same)), l.not_taken);
    },
    refl,
  )

  call_cancel-Leaves :
      (x : ℕ) (before rest : List ℕ) (t : Tunnel)
      → t.taken ≡ before ++ x ∷ rest
      → IsLost run t
      → Leaves t (call_cancel x before rest t)
  unfolding call_cancel
  call_cancel-Leaves x before rest t e l =
      let (ne, apart) = All-middle (λ y. y ≢ run) before x rest (subst (Apart run) e l.not_taken) in
      (
        record { started = l.started; no_cancel = l.no_cancel; not_taken = apart },
        set_phase_other t.phase x run (cancel_phase (t.phase x)) (λ same. ne (sym same)),
      )

  end_run-IsLost : (x : ℕ) (t : Tunnel) → IsLost run t → IsLost run (end_run x t)
  unfolding end_run
  end_run-IsLost x t l = record {
    started = l.started;
    no_cancel = λ h. cc;
    not_taken = l.not_taken;
  }

  end_run-phase : (x : ℕ) (t : Tunnel) → x ≢ run → (end_run x t).phase run ≡ t.phase run
  unfolding end_run
  end_run-phase x t ne = set_phase_other t.phase x run ended (λ same. ne (sym same))

  cancel_root-IsLost : (t : Tunnel) → IsLost run t → IsLost run (cancel_root t)
  unfolding cancel_root
  cancel_root-IsLost t l = record {
    started = l.started;
    no_cancel = l.no_cancel;
    not_taken = l.not_taken;
  }

  -- An event that is neither the end of the run's own goroutine nor the cancellation of the root context.
  abbrev pub Spares : {t u : Tunnel} → Event t u → Type 0
  Spares (by_call start) = Unit
  Spares (by_call stop) = Unit
  Spares (by_call (cancelling x before rest e)) = Unit
  Spares (by_call (finish x alive)) = x ≢ run
  Spares root_cancelled = ⊥

  abbrev pub AllSpare : {t u : Tunnel} → Events t u → Type 0
  AllSpare no_more = Unit
  AllSpare (then_event p e) = AllSpare p × Spares e

  Event-IsLost :
      {t u : Tunnel} (e : Event t u)
      → IsLost run t
      → IsLost run u × (Spares e → u.phase run ≡ t.phase run)
  unfolding start_tunnel take_cancel
  Event-IsLost {t} (by_call start) l =
      let (lost, same) = start_unless-Leaves t.cancel t l in (lost, λ h. same)
  Event-IsLost {t} (by_call stop) l =
      let (lost, same) = take_from-Leaves t.cancel t refl l in (lost, λ h. same)
  Event-IsLost {t} (by_call (cancelling x before rest e)) l =
      let (lost, same) = call_cancel-Leaves x before rest t e l in (lost, λ h. same)
  Event-IsLost {t} (by_call (finish x alive)) l = (end_run-IsLost x t l, end_run-phase x t)
  Event-IsLost {t} root_cancelled l = (cancel_root-IsLost t l, λ h. absurd h)

  -- A run that no cancel function belongs to stays so, whatever is called afterwards, whichever goroutines
  -- end and whether or not the root context is cancelled. As long as its own goroutine has not returned
  -- and the root context is not cancelled, its phase stays what it is: a run that works goes on working.
  pub Events-IsLost :
      {t u : Tunnel} (p : Events t u)
      → IsLost run t
      → IsLost run u × (AllSpare p → u.phase run ≡ t.phase run)
  Events-IsLost no_more l = (l, λ h. refl)
  Events-IsLost (then_event p e) l =
      let (lost, same) = Events-IsLost p l in
      let (lost', same') = Event-IsLost e lost in (lost', λ (h, h'). same' h' ∙ same h)

take_some :
    (t : Tunnel) (run : ℕ)
    → t.cancel ≡ some run
    → take_cancel t ≡ record t { cancel = none; taken = run ∷ t.taken }
unfolding take_cancel take_from
take_some t run e = rw e refl

restarted :
    (t : Tunnel) (run : ℕ)
    → t.cancel ≡ some run
    → start_tunnel (take_cancel t) ≡ start_run (record t { cancel = none; taken = run ∷ t.taken })
unfolding start_tunnel start_unless
restarted t run e = ap start_tunnel (take_some t run e)

module _ (t : Tunnel) (run : ℕ) (r : Reach t) (e : t.cancel ≡ some run) (idle : t.taken ≡ []) where
  abbrev both : Tunnel
  both = start_run (record t { cancel = none; taken = run ∷ t.taken })

  abbrev stuck : Tunnel
  stuck = end_run run (call_cancel run [] [] both)

  older : t.next ≢ run
  older same = not_below same ((Reach-Regular r).0 run e).0
    where
      not_below : {m n : ℕ} → n ≡ m → m < n → ⊥
      not_below same' lt = omega arith

  stuck_works : stuck.phase t.next ≡ working
  unfolding end_run call_cancel start_run first_phase
  stuck_works =
      set_phase_other (call_cancel run [] [] both).phase run t.next ended older
      ∙ set_phase_other both.phase run t.next (cancel_phase (both.phase run)) older
      ∙ set_phase_same t.phase t.next (first_phase t.live)
      ∙ ap first_phase (Reach-Regular r).2

  stuck-IsLost : IsLost t.next stuck
  unfolding end_run call_cancel start_run
  stuck-IsLost = record { started = omega arith; no_cancel = λ h. cc; not_taken = tt }

  was_cancelled : (call_cancel run [] [] both).phase run ≢ ended
  unfolding call_cancel cancel_phase start_run
  was_cancelled h = cc (h, phase_now)
    where
      phase_now : (call_cancel run [] [] both).phase run ≡ cancelled
      phase_now =
          set_phase_same both.phase run (cancel_phase (both.phase run))
          ∙ ap cancel_phase (
              set_phase_other t.phase t.next run (first_phase t.live) (λ same. older (sym same))
              ∙ ((Reach-Regular r).0 run e).1)

  stuck-Steps : Steps t stuck
  unfolding start_run
  stuck-Steps =
      later
        (later (subst (Steps t) (restarted t run e) (later (later here stop) start))
          (cancelling run [] [] taken_now))
        (finish run was_cancelled)
    where
      taken_now : both.taken ≡ run ∷ []
      taken_now = ap (λ xs. run ∷ xs) idle

  -- From every state that can be reached, in which the tunnel has the cancel function of a run and no
  -- call is stopping it, a stop and a start that comes before the old run has ended lead to a state
  -- where the new run works and no cancel function belongs to it.
  pub start_during_stop-IsLost :
      (u : Tunnel) × Steps t u × (u.phase t.next ≡ working) × IsLost t.next u
  start_during_stop-IsLost = (stuck, stuck-Steps, stuck_works, stuck-IsLost)
