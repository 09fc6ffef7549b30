-- ===== src/System/Server.antt =====
-- The program with the sockets that are connected to it, each with its data, as a step relation: a
-- socket's events reach the handlers with the data that the handlers before have left, and the server
-- chooses the times, the order and what the clients send.
pub mod Joins
pub mod Keeps
pub mod Current
pub mod Table
pub mod Sound
pub mod Takeovers
pub mod Users
use run_bot_backend.Prelude.{
  ℕ, String, ◌≡◌, ◌≢◌, Option, none, some, Bool, false, ◌&&◌, List, [], ◌∷◌, ◌++◌, ◌==◌, any,
  reverse, lookup, insert, erase,
}
use run_bot_backend.Json.{Json}
use run_bot_backend.Data.{
  Effect, emit_room, emit_client, disconnect, join, leave, SocketData, Socket,
}
use run_bot_backend.Platform.{Platform}
use run_bot_backend.Platform.Exec.{World, Result, ok, err}
use run_bot_backend.Gateway.Connection.{handle_connection}
use run_bot_backend.Gateway.Bridge.{on_bridge_register}
use run_bot_backend.Gateway.Client.{on_client_subscribe}
use run_bot_backend.Gateway.Sweep.{sweep_expired_sockets}
use run_bot_backend.System.{
  Occurrence, connection, disconnection, bridge_register, bridge_telemetry, bridge_ack,
  bridge_status, bridge_offline, client_subscribe, client_unsubscribe, http_request, heartbeat,
  snapshots, cache_sweep, step,
}

pub record Server (P : Platform) : Type 0 where
  pub world : World P
  pub sockets : List (String × SocketData)

-- The data of a socket that has just come.
abbrev pub blank : SocketData
blank = record {
  user_id = none;
  is_bridge = false;
  agent_id = none;
  license_key = none;
  account_login = none;
  symbol = none;
  token_expires_at = none;
  expiry_notified = false;
}

abbrev pub socket : String → SocketData → Socket
socket id d = record { id = id; state = d }

abbrev pub is_join : String → String → Effect → Bool
is_join id room (join i r) = i == id && r == room
is_join id room _ = false

-- The socket was put into the room at some time.
abbrev pub joined : String → String → List Effect → Bool
joined id room trace = any (is_join id room) trace

-- A handler gives back the socket's data; where it throws, they are as they were.
abbrev pub with_data :
    String → Result Socket → List (String × SocketData) → List (String × SocketData)
with_data id (ok client) sockets = insert id client.state sockets
with_data id (err e) sockets = sockets

abbrev pub connected : List (String × SocketData) → List Socket
connected [] = []
connected ((id, d) ∷ rest) = socket id d ∷ connected rest

-- The sockets' data after a sweep.
abbrev pub marked : List Socket → List (String × SocketData) → List (String × SocketData)
marked [] sockets = sockets
marked (c ∷ rest) sockets = insert c.id c.state (marked rest sockets)

abbrev pub performed : List Effect → List Effect → List Effect
performed [] trace = trace
performed (e ∷ rest) trace = performed rest (e ∷ trace)

module _ {P : Platform} where
  abbrev pub settled : Server P → String → Result Socket × World P → Server P
  settled s id outcome = record { world = outcome.1; sockets = with_data id outcome.0 s.sockets }

  -- An occurrence that leaves the sockets' data alone; one of a socket finds the data that it has.
  abbrev pub IsPlain : Server P → Occurrence → Type 0
  IsPlain s (connection client token) = ⊥
  IsPlain s (disconnection client) = ⊥
  IsPlain s (bridge_register client claimed) = ⊥
  IsPlain s (bridge_telemetry client frame) = lookup client.id s.sockets ≡ some client.state
  IsPlain s (bridge_ack client uuid) = lookup client.id s.sockets ≡ some client.state
  IsPlain s (bridge_status client online seen) = lookup client.id s.sockets ≡ some client.state
  IsPlain s (bridge_offline client) = lookup client.id s.sockets ≡ some client.state
  IsPlain s (client_subscribe client a) = ⊥
  IsPlain s (client_unsubscribe client a) = lookup client.id s.sockets ≡ some client.state
  IsPlain s (http_request header route) = Unit
  IsPlain s heartbeat = Unit
  IsPlain s snapshots = Unit
  IsPlain s cache_sweep = Unit

  -- A sweep goes over all sockets. What it tells is sent in order; a socket that it disconnects stays
  -- until its disconnect handler has run.
  abbrev pub swept : ℕ → Server P → Server P
  swept now s = record {
    world = record s.world {
      trace = performed (sweep_expired_sockets now (connected s.sockets)).sent s.world.trace;
    };
    sockets = marked (sweep_expired_sockets now (connected s.sockets)).sockets s.sockets;
  }

  pub data Step (s : Server P) : Server P → Type 0 where
    -- A socket comes, with an id that the server has not used; its events may come before its
    -- connection handler has run.
    comes :
        (id : String)
        → id ≢ ""
        → lookup id s.sockets ≡ none
        → ((room : String) → joined id room s.world.trace ≡ false)
        → Step s (record s { sockets = insert id blank s.sockets })
    connects :
        (now : ℕ) (id : String) (token : Option String)
        → lookup id s.sockets ≡ some blank
        → Step s (settled s id (handle_connection now (socket id blank) token s.world))
    registers :
        (now : ℕ) (id : String) (d : SocketData) (claimed : Option String)
        → lookup id s.sockets ≡ some d
        → Step s (settled s id (on_bridge_register now (socket id d) claimed s.world))
    subscribes :
        (now : ℕ) (id : String) (d : SocketData) (a : String)
        → lookup id s.sockets ≡ some d
        → Step s (settled s id (on_client_subscribe now (socket id d) a s.world))
    plain :
        (now : ℕ) (o : Occurrence) → IsPlain s o → Step s (record s { world = step now o s.world })
    sweeps : (now : ℕ) → Step s (swept now s)
    goes :
        (now : ℕ) (id : String) (d : SocketData)
        → lookup id s.sockets ≡ some d
        → Step s (record {
          world = step now (disconnection (socket id d)) s.world;
          sockets = erase id s.sockets;
        })

  pub data Reach (s : Server P) : Server P → Type 0 where
    here : Reach s s
    next : {t u : Server P} → Reach s t → Step t u → Reach s u
