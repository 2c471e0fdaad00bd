-- ===== src/Store/Disk/Transact.antt =====
-- The shape of most operations of client/internal/store/store.go: load a file, compute, save it.
use safelink_ssh.Base.{
  ◌≡◌, refl, ◌∙◌, ap, ◌⊎◌, inl, inr, Bool, List, [], Result, ok, err, ◌>>=◌, ◌>>◌, resume, lift,
  sym, subst,
}
use safelink_ssh.Store.{World, File, missing, garbled, Slot, holds, StoreError, Action, read_failed}
use safelink_ssh.Store.Disk.{
  next_outcome, after_call, syscall, parse, load, write_file_atomic, create_temp, fill_temp,
  install, remove_temp,
}
use safelink_ssh.Store.Disk.Atomic.{syscall_rule, Writes, write_file_atomic-Writes}

-- What Load returns from the file when the read succeeds.
unfoldable pub parsed : {A : Type 0} → Slot A → A → World → Result StoreError A
unfolding parse
parsed slot default w = parse default (slot.get w.files)

pub parsed-get :
    {A : Type 0} (slot : Slot A) (default : A) (v w : World)
    → slot.get v.files ≡ slot.get w.files
    → parsed slot default v ≡ parsed slot default w
unfolding parsed
parsed-get slot default v w e = ap (parse default) e

-- What was loaded is what the file holds, or the default if there is no file.
pub parsed_cases :
    {A : Type 0} (slot : Slot A) (default a : A) (w : World)
    → parsed slot default w ≡ ok a
    → ((slot.get w.files ≡ missing) × (a ≡ default)) ⊎ (slot.get w.files ≡ holds a)
unfolding parsed
parsed_cases {A} slot default a w = go (slot.get w.files)
  where
    go : (f : File A) → parse default f ≡ ok a → ((f ≡ missing) × (a ≡ default)) ⊎ (f ≡ holds a)
    go missing e = inl (refl, cc)
    go garbled e = cc
    go (holds b) e = inr (cc)

-- A load when no system call fails any more.
pub load-holds :
    {A : Type 0} (slot : Slot A) (default a : A) (w : World)
    → slot.get w.files ≡ holds a
    → load slot default (record w { io = [] }) ≡ (ok a, record w { io = [] })
unfolding load syscall next_outcome after_call parse
load-holds slot default a w h = rw h

pub write_file_atomic-ok :
    {A : Type 0} (slot : Slot A) (a : A) (w : World)
    → w.io ≡ []
    → (write_file_atomic slot a w).0 ≡ ok tt
unfolding write_file_atomic syscall next_outcome after_call create_temp fill_temp install
    remove_temp
write_file_atomic-ok slot a w h = rw h refl

module _ {A B : Type 0} (P : Result StoreError B × World → Type 0) where
  -- The rule for a load: it fails with no file changed, or hands on what the file holds.
  pub load_rule :
      (slot : Slot A) (default : A) (k : A → Action B) (w : World)
      → ((e : StoreError) (r : List Bool) → P (err e, record w { io = r }))
      → ((a : A) (r : List Bool) → parsed slot default w ≡ ok a → P (k a (record w { io = r })))
      → P ((load slot default >>= k) w)
  unfolding load parsed
  load_rule slot default k w failed done =
      syscall_rule (λ r. P (resume r.0 k r.1)) read_failed
        (λ v. (parse default (slot.get v.files), v)) w (failed read_failed)
        λ r. go (parse default (slot.get w.files)) refl r
    where
      go :
          (o : Result StoreError A)
          → parsed slot default w ≡ o
          → (r : List Bool) → P (resume o k (record w { io = r }))
      go (ok a) e r = done a r e
      go (err x) e r = failed x r

module _ {A B : Type 0} (P : Result StoreError B × World → Type 0) where
  -- The rule for a step whose outcome is known, and for a computation that may fail.
  pub bind_rule :
      (m : Action A) (k : A → Action B) (w v : World) (a : A)
      → m w ≡ (ok a, v)
      → P (k a v)
      → P ((m >>= k) w)
  bind_rule m k w v a e h = subst (λ o. P (resume o.0 k o.1)) (sym e) h

  pub lift_rule :
      (r : Result StoreError A) (k : A → Action B) (w : World)
      → ((e : StoreError) → P (err e, w))
      → ((a : A) → r ≡ ok a → P (k a w))
      → P ((lift r >>= k) w)
  lift_rule (ok a) k w failed done = done a refl
  lift_rule (err e) k w failed done = failed e

-- The rule for a save in the middle of an action.
module _ {A B : Type 0} (P : Result StoreError B × World → Type 0) where
  pub save_rule :
      (slot : Slot A) (a : A) (m : Action B) (w : World)
      → ((e : StoreError) (v : World) → v.files ≡ w.files → P (err e, v))
      → ((v : World)
          → v.files ≡ slot.put (holds a) w.files
          → v.entropy ≡ w.entropy
          → v.drawn ≡ w.drawn
          → P (m v))
      → P ((write_file_atomic slot a >> m) w)
  save_rule slot a m w failed done =
      go (write_file_atomic slot a w) (write_file_atomic-Writes slot a w)
    where
      go :
          (o : Result StoreError (Unit {0}) × World)
          → Writes (slot.put (holds a)) w o
          → P (resume o.0 (λ (u : Unit {0}). m) o.1)
      go (ok u, v) h = done v h.0 h.2 h.3
      go (err e, v) h = failed e v h.0

-- A transaction on one file: it succeeds with the result and the new contents that `f` computes from
-- what was loaded and changes no other file, or it fails and changes no file.
abbrev pub Transacts :
    {A B : Type 0}
    → Slot A
    → A
    → (A → Result StoreError (A × B))
    → World
    → Result StoreError B × World
    → Type 0
Transacts {A} slot default f w (ok b, v) =
    (a : A) × (a' : A) × (parsed slot default w ≡ ok a)
    × (f a ≡ ok (a', b))
    × (v.files ≡ slot.put (holds a') w.files)
Transacts slot default f w (err e, v) = v.files ≡ w.files

pub save-Transacts :
    {A B : Type 0} (slot : Slot A) (default : A) (f : A → Result StoreError (A × B)) (w v : World)
    (a a' : A) (b : B) (m : Action B)
    → parsed slot default w ≡ ok a
    → f a ≡ ok (a', b)
    → v.files ≡ w.files
    → ((u : World) → m u ≡ (ok b, u))
    → Transacts slot default f w ((write_file_atomic slot a' >> m) v)
save-Transacts slot default f w v a a' b m sees computes same returns =
    save_rule (Transacts slot default f w) slot a' m v (λ e u files. files ∙ same)
      λ u files entropy drawn.
        rw (returns u) (a, a', sees, computes, files ∙ ap (slot.put (holds a')) same)

-- The same for a save at the end of an action.
pub last_save-Transacts :
    {A : Type 0} (slot : Slot A) (default : A) (f : A → Result StoreError (A × Unit {0}))
    (w v : World) (a a' : A)
    → parsed slot default w ≡ ok a
    → f a ≡ ok (a', tt)
    → v.files ≡ w.files
    → Transacts slot default f w (write_file_atomic slot a' v)
last_save-Transacts slot default f w v a a' sees computes same =
    go (write_file_atomic slot a' v) (write_file_atomic-Writes slot a' v)
  where
    go :
        (o : Result StoreError (Unit {0}) × World)
        → Writes (slot.put (holds a')) v o
        → Transacts slot default f w o
    go (ok u, x) h = (a, a', sees, computes, h.0 ∙ ap (slot.put (holds a')) same)
    go (err e, x) h = h.0 ∙ same
