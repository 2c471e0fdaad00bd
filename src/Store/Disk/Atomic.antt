-- ===== src/Store/Disk/Atomic.antt =====
-- writeFileAtomic of client/internal/store/store.go replaces a file whole or not at all, and the Load
-- functions change no file.
use safelink_ssh.Base.{
  ◌+◌, ◌≤◌, ◌≡◌, refl, ap, resume, Bool, true, false, List, Result, ok, err, ◌>>◌, arith,
}
use safelink_ssh.Store.{
  World, Files, Slot, holds, StoreError, Action, write_failed, fsync_failed, close_failed,
  rename_failed, mkdir_failed, create_failed,
}
use safelink_ssh.Store.Disk.{
  next_outcome, after_call, after_remove, syscall, create_temp, install, remove_temp, fill_temp,
  write_file_atomic,
}

-- The rule for a system call: it fails or goes on, and takes an outcome either way.
module _ {A : Type 0} (P : Result StoreError A × World → Type 0) where
  pub syscall_rule :
      (e : StoreError) (m : Action A) (w : World)
      → ((rest : List Bool) → P (err e, record w { io = rest }))
      → ((rest : List Bool) → P (m (record w { io = rest })))
      → P ((syscall e >> m) w)
  unfolding syscall
  syscall_rule e m w failed done = go (next_outcome w.io)
    where
      go :
          (o : Bool × List Bool)
          → P (resume (after_call e w o).0 (λ (u : Unit {0}). m) (after_call e w o).1)
      go (true, rest) = done rest
      go (false, rest) = failed rest

-- What an action does besides taking outcomes of system calls: on success it changes the files by `f`,
-- on failure no file; a temporary file may stay behind then, if it could not be removed.
abbrev pub Writes : {A : Type 0} → (Files → Files) → World → Result StoreError A × World → Type 0
Writes f w (ok a, v) =
    (v.files ≡ f w.files) × (v.temps ≡ w.temps) × (v.entropy ≡ w.entropy) × (v.drawn ≡ w.drawn)
Writes f w (err e, v) =
    (v.files ≡ w.files)
    × (w.temps ≤ v.temps)
    × (v.temps ≤ w.temps + 1)
    × (v.entropy ≡ w.entropy)
    × (v.drawn ≡ w.drawn)

remove_temp-Writes :
    (f : Files → Files) (e : StoreError) (w v : World)
    → v.files ≡ w.files
    → v.temps ≡ w.temps + 1
    → v.entropy ≡ w.entropy
    → v.drawn ≡ w.drawn
    → Writes f w (remove_temp (err e, v))
unfolding remove_temp
remove_temp-Writes f e w v files temps entropy drawn = go (next_outcome v.io)
  where
    go : (o : Bool × List Bool) → Writes {A = Unit {0}} f w (err e, after_remove v o)
    go (true, rest) = (files, omega arith, omega arith, entropy, drawn)
    go (false, rest) = (files, omega arith, omega arith, entropy, drawn)

module _ {A : Type 0} (slot : Slot A) (a : A) (w : World) where
  abbrev Replaces : Result StoreError (Unit {0}) × World → Type 0
  Replaces = Writes (slot.put (holds a)) w

  -- While the temporary file is there, every error goes through its removal.
  fill_temp-Replaces :
      (v : World)
      → v.files ≡ w.files
      → v.temps ≡ w.temps + 1
      → v.entropy ≡ w.entropy
      → v.drawn ≡ w.drawn
      → Replaces (remove_temp (fill_temp slot a v))
  unfolding fill_temp install
  fill_temp-Replaces v files temps entropy drawn =
      rule write_failed (do syscall fsync_failed; syscall close_failed; syscall rename_failed; done)
        v (failed write_failed)
        λ r.
          rule fsync_failed (do syscall close_failed; syscall rename_failed; done) (at r)
            (failed fsync_failed)
            λ r.
              rule close_failed (do syscall rename_failed; done) (at r) (failed close_failed)
                λ r. rule rename_failed done (at r) (failed rename_failed) λ r.
                  unfold remove_temp in (ap (slot.put (holds a)) files, omega arith, entropy, drawn)
    where
      done : Action (Unit {0})
      done = install slot a

      at : List Bool → World
      at r = record v { io = r }

      rule :
          (e : StoreError) (m : Action (Unit {0})) (v : World)
          → ((rest : List Bool) → Replaces (remove_temp (err e, record v { io = rest })))
          → ((rest : List Bool) → Replaces (remove_temp (m (record v { io = rest }))))
          → Replaces (remove_temp ((syscall e >> m) v))
      rule = syscall_rule (λ r. Replaces (remove_temp r))

      failed : (e : StoreError) (r : List Bool) → Replaces (remove_temp (err e, at r))
      failed e r = remove_temp-Writes (slot.put (holds a)) e w (at r) files temps entropy drawn

  -- writeFileAtomic replaces one file by the new value and leaves the others, or returns an error and
  -- leaves every file as it was, whichever of its system calls fail; it leaves no temporary file behind
  -- when it succeeds, and at most one when it fails.
  pub write_file_atomic-Writes : Replaces (write_file_atomic slot a w)
  unfolding write_file_atomic create_temp
  write_file_atomic-Writes =
      syscall_rule Replaces mkdir_failed (do syscall create_failed; create_temp; fill) w
        (unchanged mkdir_failed)
        λ r.
          syscall_rule Replaces create_failed (do create_temp; fill) (record w { io = r })
            (unchanged create_failed)
            λ r. fill_temp-Replaces (record w { io = r; temps = w.temps + 1 }) refl refl refl refl
    where
      fill : Action (Unit {0})
      fill v = remove_temp (fill_temp slot a v)

      unchanged : (e : StoreError) (r : List Bool) → Replaces (err e, record w { io = r })
      unchanged e r = (refl, omega arith, omega arith, refl, refl)
