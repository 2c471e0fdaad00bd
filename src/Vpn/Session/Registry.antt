-- ===== src/Vpn/Session/Registry.antt =====
-- handleClient of server/internal/vpnserver/server.go leaves the registry as it found it, and gives
-- nothing to a client that it does not know.
use safelink_ssh.Base.{
  ℕ, ◌≡◌, ◌≢◌, refl, ◌∙◌, ap, inl, inr, ◌⊎◌, Bool, true, false, Option, none, some, List, [], ◌∷◌,
  ◌++◌, Result, ok, err, All, All-append, Bool-cases, if◌then◌else◌,
}
use safelink_ssh.Text.{Text, text_eq}
use safelink_ssh.Text.Laws.{text_eq_iff, text_eq_refl}
use safelink_ssh.Vpn.Handshake.{read_auth, authenticate}
use safelink_ssh.Vpn.Runtime.{
  ClientRuntime, Runtime, without_client, put_client, new_client, change_client, register_client,
  unregister_client, set_client_tun, set_client_user, set_client_error, add_client_traffic,
}
use safelink_ssh.Vpn.Runtime.Traffic.{
  Call, unregisters, sets_tun, sets_user, sets_error, carries, make, make_all, Clients,
}
use safelink_ssh.Vpn.Session.{
  Gate, Attempt, Session, note_error, count_all, tun_calls, session_calls, welcome_client,
  answer_request, answer_stream, handle_client,
}

without-fresh : (id : Text) (cs : Clients) → All (λ e. e.0 ≢ id) cs → without_client id cs ≡ cs
unfolding without_client
without-fresh id [] h = refl
without-fresh id ((k, c) ∷ cs) h = elim (Bool-cases (text_eq k id)) [
  | inl e ↦ elim (h.0 ((text_eq_iff k id).0 e)) [ ]
  | inr e ↦ rw (e, without-fresh id cs h.1)
]

-- The client is the first entry, and the others are as they were.
abbrev HasClient : Text → Clients → Runtime → Type 0
HasClient id cs r = (c : ClientRuntime) × (r.clients ≡ (id, c) ∷ cs)

change-first :
    (id : Text) (g : ClientRuntime → ClientRuntime) (cs before : Clients) (c : ClientRuntime)
    → before ≡ (id, c) ∷ cs
    → change_client id g before ≡ (id, g c) ∷ cs
unfolding change_client
change-first id g cs before c e = rw (e, text_eq_refl id)

-- The calls of a session between the first and the last.
data IsOwn (id : Text) : Call → Type 0 where
  own_tun : (name : Text) → IsOwn id (sets_tun id name)
  own_user : (name : Text) → IsOwn id (sets_user id name)
  own_error : (e : Option Text) → IsOwn id (sets_error id e)
  own_traffic : (n m now : ℕ) → IsOwn id (carries id n m now)

own-HasClient :
    (id : Text) (cs : Clients) (c : Call) (r : Runtime)
    → IsOwn id c
    → HasClient id cs r
    → HasClient id cs (make c r)
unfolding make set_client_tun set_client_user set_client_error add_client_traffic
own-HasClient id cs _ r (own_tun name) (c, e) = (_, change-first id _ cs r.clients c e)
own-HasClient id cs _ r (own_user name) (c, e) = (_, change-first id _ cs r.clients c e)
own-HasClient id cs _ r (own_error none) (c, e) = (c, e)
own-HasClient id cs _ r (own_error (some x)) (c, e) = (_, change-first id _ cs r.clients c e)
own-HasClient id cs _ r (own_traffic n m now) (c, e) = (_, change-first id _ cs r.clients c e)

own-unregister :
    (id : Text) (cs : Clients) (calls : List Call) (r : Runtime)
    → All (λ e. e.0 ≢ id) cs
    → All (IsOwn id) calls
    → HasClient id cs r
    → (make_all (calls ++ unregisters id ∷ []) r).clients ≡ cs
unfolding make_all make unregister_client without_client
own-unregister id cs [] r fresh own (c, e) =
    ap (without_client id) e ∙ rw (text_eq_refl id) (without-fresh id cs fresh)
own-unregister id cs (x ∷ calls) r fresh own h =
    own-unregister id cs calls (make x r) fresh own.1 (own-HasClient id cs x r own.0 h)

count-IsOwn : (id : Text) (traffic : List (ℕ × ℕ × ℕ)) → All (IsOwn id) (count_all id traffic)
unfolding count_all
count-IsOwn id [] = tt
count-IsOwn id ((n, m, now) ∷ traffic) = (own_traffic n m now, count-IsOwn id traffic)

tun-IsOwn : (id : Text) (a : Attempt) (t : Result Text Text) → All (IsOwn id) (tun_calls id a t)
unfolding tun_calls note_error
tun-IsOwn id a (err e) = (own_error (some e), tt)
tun-IsOwn id a (ok name) = (
  own_tun name,
  All-append (IsOwn id) (note_error id a.configured) _ (noted a.configured) (counted a.opens_data),
)
  where
    noted : (e : Option Text) → All (IsOwn id) (note_error id e)
    noted none = tt
    noted (some e) = (own_error (some e), tt)

    counted : (b : Bool) → All (IsOwn id) (if b then count_all id a.traffic else [])
    counted true = count-IsOwn id a.traffic
    counted false = tt

session-clients :
    (gate : Gate) (a : Attempt) (r : Runtime)
    → let id = (register_client a.remote a.started_at r).0 in
      All (λ e. e.0 ≢ id) r.clients → (make_all (session_calls gate id a) r).clients ≡ r.clients
unfolding session_calls make_all make register_client put_client
session-clients gate a r fresh =
    let (id, r') = register_client a.remote a.started_at r in
    own-unregister id r.clients (sets_user id gate.username ∷ tun_calls id a a.tun) r' fresh
      (own_user gate.username, tun-IsOwn id a a.tun)
      (
        new_client id a.remote a.started_at,
        ap (λ cs. (id, new_client id a.remote a.started_at) ∷ cs)
            (without-fresh id r.clients fresh),
      )

-- The control stream held a request with the user and the password of the server.
abbrev pub IsLetIn : Gate → Attempt → Type 0
IsLetIn gate a =
    (s : List ℕ) × (auth_buf : Text) × (rest : List ℕ) × (a.control ≡ some s)
    × (read_auth [] s ≡ some (auth_buf, rest))
    × (authenticate gate.username gate.password auth_buf ≡ true)

-- What a session does to the registry `r` alone, and when it may do anything.
abbrev pub Leaves : Gate → Attempt → Runtime → Session → Type 0
Leaves gate a r s =
    ((make_all s.calls r).clients ≡ r.clients)
    × (((s.calls ≡ []) × (s.pumped ≡ false)) ⊎ IsLetIn gate a)

if-Leaves :
    (gate : Gate) (a : Attempt) (r : Runtime) (b : Bool) (s t : Session)
    → (b ≡ true → Leaves gate a r s)
    → Leaves gate a r t
    → Leaves gate a r (if b then s else t)
if-Leaves gate a r true s t f h = f refl
if-Leaves gate a r false s t f h = h

welcome-Leaves :
    (gate : Gate) (a : Attempt) (r : Runtime)
    → let id = (register_client a.remote a.started_at r).0 in
      All (λ e. e.0 ≢ id) r.clients → IsLetIn gate a → Leaves gate a r (welcome_client gate id a)
unfolding welcome_client make_all
welcome-Leaves gate a r fresh let_in =
    if-Leaves gate a r a.replies _ _ (λ e. (session-clients gate a r fresh, inr let_in))
      (refl, inl (refl, refl))

answer-Leaves :
    (gate : Gate) (a : Attempt) (r : Runtime) (s : List ℕ) (o : Option (Text × List ℕ))
    → let id = (register_client a.remote a.started_at r).0 in
      All (λ e. e.0 ≢ id) r.clients
      → a.control ≡ some s
      → read_auth [] s ≡ o
      → Leaves gate a r (answer_request gate id a o)
unfolding answer_request make_all
answer-Leaves gate a r s none fresh is reads = (refl, inl (refl, refl))
answer-Leaves gate a r s (some (auth_buf, rest)) fresh is reads =
    if-Leaves gate a r (authenticate gate.username gate.password auth_buf) _ _
      (λ e. welcome-Leaves gate a r fresh (s, auth_buf, rest, is, reads, e))
      (refl, inl (refl, refl))

-- A session leaves the clients of the registry as they were, if the identifier that it was given is no
-- other client's. It calls the registry and runs the packet loops only if the control stream held a
-- request with the user and the password of the server.
pub handle_client-Leaves :
    (gate : Gate) (a : Attempt) (r : Runtime)
    → let id = (register_client a.remote a.started_at r).0 in
      All (λ e. e.0 ≢ id) r.clients → Leaves gate a r (handle_client gate id a)
unfolding handle_client answer_stream make_all
handle_client-Leaves gate a r fresh = go a.control refl
  where
    go :
        (c : Option (List ℕ))
        → a.control ≡ c
        → Leaves gate a r (answer_stream gate (register_client a.remote a.started_at r).0 a c)
    go none e = (refl, inl (refl, refl))
    go (some s) e = answer-Leaves gate a r s (read_auth [] s) fresh e refl
