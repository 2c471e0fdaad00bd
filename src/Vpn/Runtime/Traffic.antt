-- ===== src/Vpn/Runtime/Traffic.antt =====
-- Sequences of calls of the registry of server/internal/vpnserver/runtime.go: its totals and its ids.
use safelink_ssh.Base.{
  ℕ, ◌+◌, ◌%◌, ◌^◌, ◌≤◌, ◌≡◌, refl, ◌∙◌, ap, subst, Option, none, some, List, [], ◌∷◌, arith,
  length,
}
use safelink_ssh.Text.{Text}
use safelink_ssh.Vpn.Runtime.{
  RuntimeConfig, ClientRuntime, Runtime, add64, new_runtime, without_client, put_client,
  change_client, client_id, register_client, unregister_client, set_client_tun, set_client_user,
  set_client_error, count_traffic, add_client_traffic,
}

pub data Call : Type 0 where
  registers : Text → ℕ → Call
  unregisters : Text → Call
  sets_tun sets_user : Text → Text → Call
  sets_error : Text → Option Text → Call
  carries : Text → ℕ → ℕ → ℕ → Call

unfoldable pub make : Call → Runtime → Runtime
make (registers remote now) r = (register_client remote now r).1
make (unregisters id) r = unregister_client id r
make (sets_tun id name) r = set_client_tun id name r
make (sets_user id name) r = set_client_user id name r
make (sets_error id e) r = set_client_error id e r
make (carries id n m now) r = add_client_traffic id n m now r

unfoldable pub make_all : List Call → Runtime → Runtime
unfolding make
make_all [] r = r
make_all (c ∷ cs) r = make_all cs (make c r)

-- The bytes of the calls in each direction, and the number of registrations.
abbrev pub bytes_in_of : Call → ℕ
bytes_in_of (carries id n m now) = n
bytes_in_of _ = 0

abbrev pub bytes_out_of : Call → ℕ
bytes_out_of (carries id n m now) = m
bytes_out_of _ = 0

abbrev pub registrations_of : Call → ℕ
registrations_of (registers remote now) = 1
registrations_of _ = 0

abbrev pub total : (Call → ℕ) → List Call → ℕ
total f [] = 0
total f (c ∷ cs) = f c + total f cs

abbrev pub Clients : Type 0
Clients = List (Text × ClientRuntime)

-- A sum over the clients.
unfoldable pub sum : (ClientRuntime → ℕ) → Clients → ℕ
sum f [] = 0
sum f ((k, c) ∷ clients) = f c + sum f clients

sum-without :
    (f : ClientRuntime → ℕ) (id : Text) (cs : Clients) → sum f (without_client id cs) ≤ sum f cs
unfolding sum without_client
sum-without f id [] = omega arith
sum-without f id ((k, c) ∷ cs) = ground (arith, sum-without f id cs)

-- A change that adds at most `n` to every client adds at most `n` to the sum.
sum-change :
    (f : ClientRuntime → ℕ) (id : Text) (g : ClientRuntime → ClientRuntime) (n : ℕ) (cs : Clients)
    → ((c : ClientRuntime) → f (g c) ≤ f c + n)
    → sum f (change_client id g cs) ≤ sum f cs + n
unfolding sum change_client
sum-change f id g n [] h = omega arith
sum-change f id g n ((k, c) ∷ cs) h = ground (arith, h c, sum-change f id g n cs h)

-- Totals that have counted `n` and `m` bytes and `k` registrations.
abbrev pub Counts : ℕ → ℕ → ℕ → Runtime → Type 0
Counts n m k r =
    (r.total_bytes_in ≡ n % 2 ^ 64)
    × (r.total_bytes_out ≡ m % 2 ^ 64)
    × (r.total_clients ≡ k % 2 ^ 64)
    × (r.next_client ≡ k % 2 ^ 64)
    × (sum (λ c. c.bytes_in) r.clients ≤ n)
    × (sum (λ c. c.bytes_out) r.clients ≤ m)
    × (length r.clients ≤ k)

length-without : (id : Text) (cs : Clients) → length (without_client id cs) ≤ length cs
unfolding without_client
length-without id [] = omega arith
length-without id ((k, c) ∷ cs) = ground (arith, length-without id cs)

length-change :
    (id : Text) (g : ClientRuntime → ClientRuntime) (cs : Clients)
    → length (change_client id g cs) ≡ length cs
unfolding change_client
length-change id g [] = refl
length-change id g ((k, c) ∷ cs) = ground (arith, length-change id g cs)

add64-mod : (a b : ℕ) → add64 (a % 2 ^ 64) b ≡ (a + b) % 2 ^ 64
add64-mod a b = omega arith

shift-Counts :
    (n n' m m' k k' : ℕ) (r : Runtime)
    → n ≡ n'
    → m ≡ m'
    → k ≡ k'
    → Counts n m k r
    → Counts n' m' k' r
shift-Counts n n' m m' k k' r e e' e'' h =
    subst (λ x. Counts x m' k' r) e
      (subst (λ x. Counts n x k' r) e' (subst (λ x. Counts n m x r) e'' h))

change-Counts :
    (n m k i o : ℕ) (r : Runtime) (id : Text) (g : ClientRuntime → ClientRuntime)
    → ((c : ClientRuntime)
        → ((g c).bytes_in ≤ c.bytes_in + i) × ((g c).bytes_out ≤ c.bytes_out + o))
    → Counts n m k r
    → Counts (n + i) (m + o) (k + 0) (record r {
      total_bytes_in = add64 r.total_bytes_in i;
      total_bytes_out = add64 r.total_bytes_out o;
      clients = change_client id g r.clients;
    })
change-Counts n m k i o r id g small (a, b, c, d, e, f, l) = (
  ap (λ t. add64 t i) a ∙ add64-mod n i,
  ap (λ t. add64 t o) b ∙ add64-mod m o,
  omega (arith, c),
  omega (arith, d),
  omega (arith, sum-change (λ c. c.bytes_in) id g i r.clients (λ c. (small c).0), e),
  omega (arith, sum-change (λ c. c.bytes_out) id g o r.clients (λ c. (small c).1), f),
  omega (arith, length-change id g r.clients, l),
)

-- A change that touches no counter.
quiet-Counts :
    (n m k : ℕ) (r : Runtime) (id : Text) (g : ClientRuntime → ClientRuntime)
    → ((c : ClientRuntime) → ((g c).bytes_in ≡ c.bytes_in) × ((g c).bytes_out ≡ c.bytes_out))
    → Counts n m k r
    → Counts (n + 0) (m + 0) (k + 0) (record r { clients = change_client id g r.clients })
quiet-Counts n m k r id g same (a, b, c, d, e, f, l) = (
  omega (arith, a),
  omega (arith, b),
  omega (arith, c),
  omega (arith, d),
  omega (arith, sum-change (λ c. c.bytes_in) id g 0 r.clients (λ c. omega (arith, (same c).0)), e),
  omega (arith, sum-change (λ c. c.bytes_out) id g 0 r.clients (λ c. omega (arith, (same c).1)), f),
  omega (arith, length-change id g r.clients, l),
)

make-Counts :
    (c : Call) (n m k : ℕ) (r : Runtime)
    → Counts n m k r
    → Counts (n + bytes_in_of c) (m + bytes_out_of c) (k + registrations_of c) (make c r)
unfolding make register_client put_client unregister_client set_client_tun set_client_user
    set_client_error add_client_traffic sum
make-Counts (registers remote now) n m k r (a, b, c, d, e, f, l) =
    let id = client_id (add64 r.next_client 1) in
    (
      omega (arith, a),
      omega (arith, b),
      ap (λ t. add64 t 1) c ∙ add64-mod k 1,
      ap (λ t. add64 t 1) d ∙ add64-mod k 1,
      omega (arith, sum-without (λ c. c.bytes_in) id r.clients, e),
      omega (arith, sum-without (λ c. c.bytes_out) id r.clients, f),
      omega (arith, length-without id r.clients, l),
    )
make-Counts (unregisters id) n m k r (a, b, c, d, e, f, l) = (
  omega (arith, a),
  omega (arith, b),
  omega (arith, c),
  omega (arith, d),
  omega (arith, sum-without (λ c. c.bytes_in) id r.clients, e),
  omega (arith, sum-without (λ c. c.bytes_out) id r.clients, f),
  omega (arith, length-without id r.clients, l),
)
make-Counts (sets_tun id name) n m k r h =
    quiet-Counts n m k r id (λ c. record c { tun_name = name }) (λ c. (refl, refl)) h
make-Counts (sets_user id name) n m k r h =
    quiet-Counts n m k r id (λ c. record c { authenticated_as = name }) (λ c. (refl, refl)) h
make-Counts (sets_error id none) n m k r h =
    shift-Counts n (n + 0) m (m + 0) k (k + 0) r (omega arith) (omega arith) (omega arith) h
make-Counts (sets_error id (some e)) n m k r h =
    quiet-Counts n m k r id (λ c. record c { last_error = e }) (λ c. (refl, refl)) h
make-Counts (carries id i o now) n m k r h =
    change-Counts n m k i o r id (count_traffic i o now) (λ c. (omega arith, omega arith)) h

make_all-Counts :
    (cs : List Call) (n m k : ℕ) (r : Runtime)
    → Counts n m k r
    → Counts
        (n + total bytes_in_of cs)
        (m + total bytes_out_of cs)
        (k + total registrations_of cs)
        (make_all cs r)
unfolding make_all
make_all-Counts [] n m k r h =
    shift-Counts n (n + 0) m (m + 0) k (k + 0) r (omega arith) (omega arith) (omega arith) h
make_all-Counts (c ∷ cs) n m k r h =
    shift-Counts _ (n + total bytes_in_of (c ∷ cs)) _ (m + total bytes_out_of (c ∷ cs)) _
      (k + total registrations_of (c ∷ cs)) (make_all cs (make c r)) (omega arith) (omega arith)
      (omega arith)
      (make_all-Counts cs (n + bytes_in_of c) (m + bytes_out_of c) (k + registrations_of c)
        (make c r) (make-Counts c n m k r h))

-- From a new registry on, whatever calls come in whatever order: the totals are the bytes of all calls
-- of AddClientTraffic and the number of registrations, modulo 2^64, the clients that are registered have
-- not counted more bytes than these calls carried, and there are at most as many as were registered.
pub traffic_accounted :
    (cfg : RuntimeConfig) (now : ℕ) (cs : List Call)
    → Counts
        (total bytes_in_of cs)
        (total bytes_out_of cs)
        (total registrations_of cs)
        (make_all cs (new_runtime cfg now))
unfolding new_runtime sum
traffic_accounted cfg now cs =
    shift-Counts (0 + total bytes_in_of cs) (total bytes_in_of cs) (0 + total bytes_out_of cs)
      (total bytes_out_of cs) (0 + total registrations_of cs) (total registrations_of cs)
      (make_all cs (new_runtime cfg now)) (omega arith) (omega arith) (omega arith)
      (make_all-Counts cs 0 0 0 (new_runtime cfg now)
        (refl, refl, refl, refl, omega arith, omega arith, omega arith))
