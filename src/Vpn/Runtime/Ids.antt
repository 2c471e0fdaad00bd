-- ===== src/Vpn/Runtime/Ids.antt =====
-- The identifiers that RegisterClient of server/internal/vpnserver/runtime.go gives out.
use safelink_ssh.Base.{
  ℕ, ◌+◌, ◌^◌, ◌≤◌, ◌<◌, ◌≡◌, ◌≢◌, refl, sym, ◌∙◌, ap, none, some, List, [], ◌∷◌, arith, All,
  Bool-cases, inl, inr,
}
use safelink_ssh.Base.Decimal.{decimal_injective}
use safelink_ssh.Text.{Text, text_eq}
use safelink_ssh.Vpn.Runtime.{
  RuntimeConfig, ClientRuntime, Runtime, add64, new_runtime, without_client, put_client,
  change_client, client_id, register_client, unregister_client, set_client_tun, set_client_user,
  set_client_error, add_client_traffic,
}
use safelink_ssh.Vpn.Runtime.Traffic.{
  Call, registers, unregisters, sets_tun, sets_user, sets_error, carries, make, make_all, total,
  registrations_of, Clients,
}

client_id_injective : (m n : ℕ) → client_id m ≡ client_id n → m ≡ n
client_id_injective m n e = decimal_injective m n (cc)

-- Every client has one of the first `k` identifiers.
abbrev pub AreNumbered : ℕ → Clients → Type 0
AreNumbered k = All (λ e. (m : ℕ) × (e.0 ≡ client_id m) × (m ≤ k))

without-All :
    (P : Text × ClientRuntime → Type 0) (id : Text) (cs : Clients)
    → All P cs
    → All P (without_client id cs)
unfolding without_client
without-All P id [] h = tt
without-All P id ((k, c) ∷ cs) h = elim (Bool-cases (text_eq k id)) [
  | inl e ↦ rw e (without-All P id cs h.1)
  | inr e ↦ rw e (h.0, without-All P id cs h.1)
]

change-AreNumbered :
    (id : Text) (g : ClientRuntime → ClientRuntime) (k : ℕ) (cs : Clients)
    → AreNumbered k cs
    → AreNumbered k (change_client id g cs)
unfolding change_client
change-AreNumbered id g k [] h = tt
change-AreNumbered id g k ((key, c) ∷ cs) h = elim (Bool-cases (text_eq key id)) [
  | inl e ↦ rw e h
  | inr e ↦ rw e (h.0, change-AreNumbered id g k cs h.1)
]

more-AreNumbered : (k j : ℕ) (cs : Clients) → k ≤ j → AreNumbered k cs → AreNumbered j cs
more-AreNumbered k j [] l h = tt
more-AreNumbered k j (e ∷ cs) l ((m, named, le), h) =
    ((m, named, omega arith), more-AreNumbered k j cs l h)

-- The counter after `k` registrations, and the clients that it numbered.
abbrev pub Numbers : ℕ → Runtime → Type 0
Numbers k r = (r.next_client ≡ k) × AreNumbered k r.clients

register-Numbers :
    (remote : Text) (now k : ℕ) (r : Runtime)
    → k + 1 < 2 ^ 64
    → Numbers k r
    → Numbers (k + 1) (register_client remote now r).1
unfolding register_client put_client
register-Numbers remote now k r small (next, all) = (
  omega (arith, next),
  (
    (k + 1, ap (λ n. client_id (add64 n 1)) next ∙ ap client_id (omega arith), omega arith),
    without-All _ (client_id (add64 r.next_client 1)) r.clients
        (more-AreNumbered k (k + 1) r.clients (omega arith) all),
  ),
)

make-Numbers :
    (c : Call) (k : ℕ) (r : Runtime)
    → k + registrations_of c < 2 ^ 64
    → Numbers k r
    → Numbers (k + registrations_of c) (make c r)
unfolding make unregister_client set_client_tun set_client_user set_client_error add_client_traffic
make-Numbers (registers remote now) k r small h = register-Numbers remote now k r small h
make-Numbers (unregisters id) k r small (next, all) = (
  omega (arith, next),
  more-AreNumbered k (k + 0) _ (omega arith) (without-All _ id r.clients all),
)
make-Numbers (sets_tun id name) k r small (next, all) = (
  omega (arith, next),
  more-AreNumbered k (k + 0) _ (omega arith) (change-AreNumbered id _ k r.clients all),
)
make-Numbers (sets_user id name) k r small (next, all) = (
  omega (arith, next),
  more-AreNumbered k (k + 0) _ (omega arith) (change-AreNumbered id _ k r.clients all),
)
make-Numbers (sets_error id none) k r small (next, all) =
    (omega (arith, next), more-AreNumbered k (k + 0) _ (omega arith) all)
make-Numbers (sets_error id (some e)) k r small (next, all) = (
  omega (arith, next),
  more-AreNumbered k (k + 0) _ (omega arith) (change-AreNumbered id _ k r.clients all),
)
make-Numbers (carries id n m now) k r small (next, all) = (
  omega (arith, next),
  more-AreNumbered k (k + 0) _ (omega arith) (change-AreNumbered id _ k r.clients all),
)

make_all-Numbers :
    (cs : List Call) (k : ℕ) (r : Runtime)
    → k + total registrations_of cs < 2 ^ 64
    → Numbers k r
    → (j : ℕ) × (j < 2 ^ 64) × (j ≤ k + total registrations_of cs) × Numbers j (make_all cs r)
unfolding make_all
make_all-Numbers [] k r small h = (k, omega arith, omega arith, h)
make_all-Numbers (c ∷ cs) k r small h =
    let (j, fits, least, g) =
      make_all-Numbers cs (k + registrations_of c) (make c r) (omega arith)
        (make-Numbers c k r (omega arith) h) in
    (j, fits, omega arith, g)

numbered-fresh :
    (k j : ℕ) (cs : Clients) → k < j → AreNumbered k cs → All (λ e. e.0 ≢ client_id j) cs
numbered-fresh k j [] l h = tt
numbered-fresh k j (e ∷ cs) l ((m, named, le), h) =
    ((λ same. omega (arith, client_id_injective m j (sym named ∙ same))), numbered-fresh k j cs l h)

-- From a new registry on, RegisterClient gives out an identifier that no registered client has, whatever
-- calls came before, as long as fewer than 2^64 - 1 of them were registrations.
pub register_fresh :
    (cfg : RuntimeConfig) (start : ℕ) (cs : List Call) (remote : Text) (now : ℕ)
    → total registrations_of cs + 1 < 2 ^ 64
    → let r = make_all cs (new_runtime cfg start) in
      All (λ e. e.0 ≢ (register_client remote now r).0) r.clients
unfolding new_runtime register_client
register_fresh cfg start cs remote now small =
    let (j, fits, least, (next, all)) =
      make_all-Numbers cs 0 (new_runtime cfg start) (omega arith) (refl, tt) in
    rw next (numbered-fresh j (add64 j 1) _ (omega arith) all)
