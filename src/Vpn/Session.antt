-- ===== src/Vpn/Session.antt =====
-- handleClient of server/internal/vpnserver/server.go, from the accepted connection to its end. What the
-- connection, the TUN device and the two packet loops do is an Attempt; the calls of the registry come
-- out as a list, with the identifier that RegisterClient gave, since other clients call it in between.
pub mod Registry
use safelink_ssh.Base.{
  ℕ, Bool, true, false, Option, none, some, List, [], ◌∷◌, ◌++◌, Result, ok, err, map,
  if◌then◌else◌,
}
use safelink_ssh.Text.{Text, codes}
use safelink_ssh.Vpn.Handshake.{crlf, read_auth, authenticate}
use safelink_ssh.Vpn.Runtime.Traffic.{
  Call, registers, unregisters, sets_tun, sets_user, sets_error, carries,
}

-- The fields of VPNServer that decide about a client.
pub record Gate : Type 0 where
  pub username : Text
  pub password : Text

-- `control` is the bytes of the control stream, if it is accepted; `replies` whether the reply can be
-- written; `tun` the message of createTUN's error or the name of the interface; `configured` the message
-- of configureTUN's error, if any; `opens_data` whether the data stream is accepted; `traffic` what the
-- loops count, as bytes in, bytes out and time.
pub record Attempt : Type 0 where
  pub control : Option (List ℕ)
  pub replies : Bool
  pub remote : Text
  pub started_at : ℕ
  pub tun : Result Text Text
  pub configured : Option Text
  pub opens_data : Bool
  pub traffic : List (ℕ × ℕ × ℕ)

-- `replied` is what was written to the control stream, `close_code` the code of CloseWithError, if it
-- was called, `pumped` whether the packet loops ran.
pub record Session : Type 0 where
  pub replied : Text
  pub close_code : Option ℕ
  pub pumped : Bool
  pub calls : List Call

abbrev refused : Text → ℕ → Session
refused replied code = record {
  replied = replied;
  close_code = some code;
  pumped = false;
  calls = [];
}

abbrev pub forbidden : Text
forbidden =
    codes "HTTP/1.1 403 Forbidden"
    ++ crlf
    ++ codes "Server: cloudflare"
    ++ crlf
    ++ codes "Content-Type: text/html; charset=UTF-8"
    ++ crlf
    ++ codes "Content-Length: 155"
    ++ crlf
    ++ crlf
    ++ codes
        "<html><head><title>403 Forbidden</title></head><body><center><h1>403 Forbidden</h1></center><hr><center>cloudflare</center></body></html>"
    ++ crlf

abbrev pub welcome : Text
welcome = codes "HTTP/1.1 200 OK" ++ crlf ++ codes "Content-Length: 0" ++ crlf ++ crlf

-- An error of configureTUN is recorded, and the session goes on.
unfoldable pub note_error : Text → Option Text → List Call
note_error id none = []
note_error id (some e) = sets_error id (some e) ∷ []

unfoldable pub count_all : Text → List (ℕ × ℕ × ℕ) → List Call
count_all id [] = []
count_all id ((n, m, now) ∷ traffic) = carries id n m now ∷ count_all id traffic

-- The calls from the TUN device on, without the deferred one.
unfoldable pub tun_calls : Text → Attempt → Result Text Text → List Call
unfolding note_error count_all
tun_calls id a (err e) = sets_error id (some e) ∷ []
tun_calls id a (ok name) =
    sets_tun id name
    ∷ (note_error id a.configured ++ (if a.opens_data then count_all id a.traffic else []))

-- Registration, the calls that follow, and the deferred UnregisterClient.
unfoldable pub session_calls : Gate → Text → Attempt → List Call
unfolding tun_calls
session_calls gate id a =
    registers a.remote a.started_at
    ∷ sets_user id gate.username
    ∷ (tun_calls id a a.tun ++ unregisters id ∷ [])

-- The code that closes a connection that was let in; a data stream that is not accepted closes nothing.
unfoldable pub final_code : Attempt → Result Text Text → Option ℕ
final_code a (err e) = some 3
final_code a (ok name) = if a.opens_data then some 0 else none

unfoldable pub runs_loops : Attempt → Result Text Text → Bool
runs_loops a (err e) = false
runs_loops a (ok name) = a.opens_data

-- From the reply on.
unfoldable pub welcome_client : Gate → Text → Attempt → Session
unfolding session_calls final_code runs_loops
welcome_client gate id a =
    if a.replies
    then record {
      replied = welcome;
      close_code = final_code a a.tun;
      pumped = runs_loops a a.tun;
      calls = session_calls gate id a;
    }
    else refused [] 2

unfoldable pub answer_request : Gate → Text → Attempt → Option (Text × List ℕ) → Session
unfolding welcome_client
answer_request gate id a none = refused [] 2
answer_request gate id a (some (auth_buf, rest)) =
    if authenticate gate.username gate.password auth_buf
    then welcome_client gate id a
    else refused forbidden 2

unfoldable pub answer_stream : Gate → Text → Attempt → Option (List ℕ) → Session
unfolding answer_request
answer_stream gate id a none = refused [] 1
answer_stream gate id a (some s) = answer_request gate id a (read_auth [] s)

-- `id` is what RegisterClient returns.
unfoldable pub handle_client : Gate → Text → Attempt → Session
unfolding answer_stream
handle_client gate id a = answer_stream gate id a a.control
