-- ===== src/Manager/Lifecycle/Changes.antt =====
-- Changes of one tunnel of client/internal/manager/manager.go, and how they are undone.
use safelink_ssh.Base.{
  ◌≡◌, ◌≢◌, refl, sym, subst, ◌∙◌, Bool, true, false, none, some, ok, err, inl, inr, Bool-cases,
  if◌then◌else◌,
}
use safelink_ssh.Text.{Text, text_eq}
use safelink_ssh.Text.Laws.{eq_of_text_eq, text_eq_refl}
use safelink_ssh.Text.Table.{
  lookup, erase, insert, lookup-insert, lookup-erase, lookup-insert_other, lookup-erase_other,
}
use safelink_ssh.Config.Tunnel.{TunnelCfg, validate_tunnel}
use safelink_ssh.Config.Tunnel.Validity.{
  IsComplete, forwards, proxies, gateway, validate_tunnel_iff,
}
use safelink_ssh.Store.{World, Files, tunnels_path, holds}
use safelink_ssh.Store.Disk.Atomic.{Writes, write_file_atomic-Writes}
use safelink_ssh.Manager.{ManagedTunnel, Tunnels, stopped_tunnel, configs, persist}
use safelink_ssh.Manager.Lifecycle.{manager_not_started, build, launch, start_found, start_named}

abbrev pub running_tunnel : TunnelCfg → ManagedTunnel
running_tunnel tc = record { cfg = tc; running = true }

-- The files with the configurations of the tunnels.
abbrev pub saved : Tunnels → World → Files
saved m w = tunnels_path.put (holds (configs m)) w.files

-- One tunnel is `t`, the others are as they were.
pub record IsPut (name : Text) (t : ManagedTunnel) (m m' : Tunnels) : Type 0 where
  pub this : lookup name m' ≡ some t
  pub others : (n : Text) → n ≢ name → lookup n m' ≡ lookup n m

pub record IsUnchanged (m m' : Tunnels) (w w' : World) : Type 0 where
  pub tunnels : (n : Text) → lookup n m' ≡ lookup n m
  pub files : w'.files ≡ w.files

pub same_tunnels : (m : Tunnels) (w : World) → IsUnchanged m m w w
same_tunnels m w = record { tunnels = λ n. refl; files = refl }

pub insert-IsPut :
    (name : Text) (t : ManagedTunnel) (m : Tunnels) → IsPut name t m (insert name t m)
insert-IsPut name t m = record {
  this = lookup-insert name t m;
  others = λ n ne. lookup-insert_other name n t m ne;
}

pub IsPut-trans :
    (name : Text) (s t : ManagedTunnel) (m m' m'' : Tunnels)
    → IsPut name s m m'
    → IsPut name t m' m''
    → IsPut name t m m''
IsPut-trans name s t m m' m'' a b = record {
  this = b.this;
  others = λ n ne. b.others n ne ∙ a.others n ne;
}

-- A tunnel that ValidateTunnel takes can be built.
build_complete : (t : TunnelCfg) → IsComplete t → build t ≡ ok tt
unfolding build text_eq
build_complete t (forwards (inl m) l f a) = rw m refl
build_complete t (forwards (inr m) l f a) = rw m refl
build_complete t (proxies m l a) = rw m refl
build_complete t (gateway m f u p) = rw m refl

build_valid : (t : TunnelCfg) → validate_tunnel t ≡ ok tt → build t ≡ ok tt
build_valid t e = build_complete t ((validate_tunnel_iff t).0 e).1

differs : (n name : Text) → text_eq n name ≡ false → n ≢ name
differs n name e same = cc (e, same, text_eq_refl n)

-- A map in which a name is written and erased again is as before, if it did not have the name.
pub erase-insert :
    (name : Text) (t : ManagedTunnel) (m : Tunnels)
    → lookup name m ≡ none
    → (n : Text) → lookup n (erase name (insert name t m)) ≡ lookup n m
erase-insert name t m absent n = elim (Bool-cases (text_eq n name)) [
  | inl e ↦
      let same = eq_of_text_eq n name e in
      subst (λ k. lookup k (erase name (insert name t m)) ≡ lookup k m) (sym same)
        (lookup-erase name (insert name t m) ∙ sym absent)
  | inr e ↦
      let ne = differs n name e in
      lookup-erase_other name n (insert name t m) ne ∙ lookup-insert_other name n t m ne
]

-- A name that is written twice and then has its old tunnel again.
pub insert-insert :
    (name : Text) (s t : ManagedTunnel) (m : Tunnels)
    → lookup name m ≡ some t
    → (n : Text) → lookup n (insert name t (insert name s m)) ≡ lookup n m
insert-insert name s t m present n = elim (Bool-cases (text_eq n name)) [
  | inl e ↦
      let same = eq_of_text_eq n name e in
      subst (λ k. lookup k (insert name t (insert name s m)) ≡ lookup k m) (sym same)
        (lookup-insert name t (insert name s m) ∙ sym present)
  | inr e ↦
      let ne = differs n name e in
      lookup-insert_other name n t (insert name s m) ne ∙ lookup-insert_other name n s m ne
]

-- What a start does to a tunnel that is stopped and valid.
pub start-running :
    (started : Bool) (tc : TunnelCfg) (m : Tunnels)
    → validate_tunnel tc ≡ ok tt
    → lookup tc.name m ≡ some (stopped_tunnel tc)
    → start_named started tc.name m ≡ (
        if started
        then (ok tt, insert tc.name (running_tunnel tc) m)
        else (err manager_not_started, m))
unfolding start_named start_found launch
start-running false tc m valid e = refl
start-running true tc m valid e = rw (e, build_valid tc valid) refl

pub persist-Writes :
    (m : Tunnels) (w : World) → Writes (tunnels_path.put (holds (configs m))) w (persist m w)
unfolding persist
persist-Writes m w = write_file_atomic-Writes tunnels_path (configs m) w
