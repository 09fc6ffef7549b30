-- ===== src/System/Kick.antt =====
-- A takeover whose kick runs the disconnect handler of the old socket, up to that handler's await,
-- before the takeover goes on to its own await; then the disconnect handler goes on first.
use run_bot_backend.Prelude.{String, ◌∷◌, insert}
use run_bot_backend.Data.{disconnect, join, Socket}
use run_bot_backend.Platform.{Platform}
use run_bot_backend.Platform.Exec.{World}
use run_bot_backend.Gateway.{bridge_room}

module _ {P : Platform} where
  -- The state after the kick of the old socket.
  abbrev pub kick : String → World P → World P
  kick id w = record w { trace = disconnect id ∷ w.trace }

  -- The state in which the takeover awaits its write.
  abbrev pub placed : Socket → String → World P → World P
  placed client a w = record w {
    bridge_sockets = insert a client.id w.bridge_sockets;
    trace = join client.id (bridge_room a) ∷ w.trace;
  }
