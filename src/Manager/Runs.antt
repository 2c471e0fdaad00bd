-- ===== src/Manager/Runs.antt =====
-- Starting and stopping one tunnel of client/internal/manager/manager.go, with the goroutine of every
-- run: startTunnel, startVPN and stopManagedWithTimeout, step by step as they hold the mutex. Runs are
-- numbered; a call that stops a tunnel holds the cancel function that it took until it calls it, and
-- goes on waiting or gives up, which changes nothing. The context of every run is derived from the
-- root context of the manager, which the application cancels when it closes.
pub mod Regular
pub mod Lost
pub mod Orderly
use safelink_ssh.Base.{
  ℕ, ◌+◌, ◌≡◌, ◌≢◌, Bool, true, false, Option, none, some, List, [], ◌∷◌, ◌++◌, if◌then◌else◌, ◌==◌,
}

-- A goroutine: it works until its context is cancelled, then Run returns; when it has the mutex it
-- clears the fields and ends, which closes `done`.
pub data Phase : Type 0 where
  working cancelled ended : Phase

-- One managedTunnel: `cancel` and `vpn` by the run that they belong to, the runs with their phases,
-- the cancel functions that callers of stopManagedWithTimeout have taken, the number of the next run,
-- and whether the root context has not been cancelled.
pub record Tunnel : Type 0 where
  pub cancel : Option ℕ
  pub vpn : Option ℕ
  pub phase : ℕ → Phase
  pub taken : List ℕ
  pub next : ℕ
  pub live : Bool

abbrev pub set_phase : (ℕ → Phase) → ℕ → Phase → ℕ → Phase
set_phase phase run p other = if other == run then p else phase other

-- A tunnel that was never started. Runs that were not started have ended.
abbrev pub fresh : Tunnel
fresh = record {
  cancel = none;
  vpn = none;
  phase = λ run. ended;
  taken = [];
  next = 0;
  live = true;
}

-- A context that is derived from a cancelled one is cancelled.
unfoldable pub first_phase : Bool → Phase
first_phase true = working
first_phase false = cancelled

-- startTunnel behind its guard: a new cancel function and a new goroutine.
unfoldable pub start_run : Tunnel → Tunnel
unfolding first_phase
start_run t = record {
  cancel = some t.next;
  vpn = some t.next;
  phase = set_phase t.phase t.next (first_phase t.live);
  taken = t.taken;
  next = t.next + 1;
  live = t.live;
}

start_unless : Option ℕ → Tunnel → Tunnel
unfolding start_run
start_unless none t = start_run t
start_unless (some run) t = t

-- startTunnel: a tunnel that has a cancel function is left as it is.
unfoldable pub start_tunnel : Tunnel → Tunnel
unfolding start_unless
start_tunnel t = start_unless t.cancel t

take_from : Option ℕ → Tunnel → Tunnel
take_from none t = t
take_from (some run) t = record t { cancel = none; taken = run ∷ t.taken }

-- The first part of stopManagedWithTimeout, under the mutex.
unfoldable pub take_cancel : Tunnel → Tunnel
unfolding take_from
take_cancel t = take_from t.cancel t

-- cancel(): a run that has ended stays so.
unfoldable pub cancel_phase : Phase → Phase
cancel_phase working = cancelled
cancel_phase cancelled = cancelled
cancel_phase ended = ended

-- One of the callers that hold a cancel function calls it.
unfoldable pub call_cancel : ℕ → List ℕ → List ℕ → Tunnel → Tunnel
unfolding cancel_phase
call_cancel run before rest t = record t {
  phase = set_phase t.phase run (cancel_phase (t.phase run));
  taken = before ++ rest;
}

-- a.cancel() of the application: the root context is cancelled, and with it that of every run.
unfoldable pub cancel_root : Tunnel → Tunnel
unfolding cancel_phase
cancel_root t = record t { phase = λ run. cancel_phase (t.phase run); live = false }

-- The end of the goroutine, under the mutex: mt.vpn = nil, and mt.cancel = nil if it is not.
unfoldable pub end_run : ℕ → Tunnel → Tunnel
end_run run t = record t { cancel = none; vpn = none; phase = set_phase t.phase run ended }

-- What the calls and the goroutines can do next to a tunnel. A goroutine may end before it was
-- cancelled too.
pub data Step (t : Tunnel) : Tunnel → Type 0 where
  start : Step t (start_tunnel t)
  stop : Step t (take_cancel t)
  cancelling :
      (run : ℕ) (before rest : List ℕ)
      → t.taken ≡ before ++ run ∷ rest
      → Step t (call_cancel run before rest t)
  finish : (run : ℕ) → t.phase run ≢ ended → Step t (end_run run t)

-- Any number of steps.
pub data Steps (t : Tunnel) : Tunnel → Type 0 where
  here : Steps t t
  later : {u v : Tunnel} → Steps t u → Step u v → Steps t v

-- The states before the root context is cancelled.
pub data Reach : Tunnel → Type 0 where
  first : Reach fresh
  next_state : {t u : Tunnel} → Reach t → Step t u → Reach u

-- A step, or the cancellation of the root context.
pub data Event (t : Tunnel) : Tunnel → Type 0 where
  by_call : {u : Tunnel} → Step t u → Event t u
  root_cancelled : Event t (cancel_root t)

pub data Events (t : Tunnel) : Tunnel → Type 0 where
  no_more : Events t t
  then_event : {u v : Tunnel} → Events t u → Event u v → Events t v
