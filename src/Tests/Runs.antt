-- ===== src/Tests/Runs.antt =====
-- A tunnel that was started once.
use safelink_ssh.Base.{ℕ, ◌≡◌, ◌≢◌, refl, some, [], arith}
use safelink_ssh.Manager.Runs.{
  Tunnel, fresh, start_tunnel, working, ended, Steps, stop, by_call, Events, no_more, then_event,
  Reach, first, next_state, start, end_run, call_cancel, take_cancel,
}
use safelink_ssh.Manager.Runs.Lost.{IsLost, start_during_stop-IsLost, Events-IsLost, AllSpare}
use safelink_ssh.Manager.Runs.Orderly.{Turns, CanStop, Turns-CanStop}
use safelink_ssh.Manager.Runs.Orderly

abbrev started : Tunnel
started = start_tunnel fresh

started-Reach : Reach started
started-Reach = next_state first start

holds_first : started.cancel ≡ some 0
unfolding start_tunnel
holds_first = refl

none_taken : started.taken ≡ []
unfolding start_tunnel
none_taken = refl

start_during_stop-IsLost_example :
    (u : Tunnel) × Steps started u × (u.phase started.next ≡ working) × IsLost started.next u
start_during_stop-IsLost_example =
    start_during_stop-IsLost started 0 started-Reach holds_first none_taken

-- The state behind a stop that a start overtook.
abbrev overtaken : Tunnel
overtaken = end_run 0 (call_cancel 0 [] [] (start_tunnel (take_cancel started)))

overtaken-IsLost : IsLost 1 overtaken
unfolding end_run call_cancel start_tunnel take_cancel
overtaken-IsLost = record { started = omega arith; no_cancel = λ h. cc; not_taken = tt }

stopped_again : Events overtaken (take_cancel overtaken)
stopped_again = then_event no_more (by_call stop)

Events-IsLost_example :
    IsLost 1 (take_cancel overtaken)
    × (AllSpare 1 stopped_again → (take_cancel overtaken).phase 1 ≡ overtaken.phase 1)
Events-IsLost_example = Events-IsLost 1 stopped_again overtaken-IsLost

Turns-CanStop_example :
    ((x y : ℕ) → started.phase x ≢ ended → started.phase y ≢ ended → x ≡ y)
    × ((run : ℕ) → started.phase run ≡ working → CanStop started run)
Turns-CanStop_example =
    Turns-CanStop started (Orderly.later Orderly.first (Orderly.start (λ run. refl)))
