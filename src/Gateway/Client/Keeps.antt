-- ===== src/Gateway/Client/Keeps.antt =====
-- Subscribing keeps what is stable.
use run_bot_backend.Prelude.{ℕ, String, Option, none, some}
use run_bot_backend.Platform.{Platform}
use run_bot_backend.Platform.Keeps.{Facts, KeptByJoin, IsStable, Keeps, keeps_rules}
use run_bot_backend.Data.{EaInstance, Socket, join}
use run_bot_backend.Gateway.Keeps.{get_cached_state-Keeps}
use run_bot_backend.Json.{Json}
use run_bot_backend.Platform.Exec.{effect}
use run_bot_backend.Gateway.{agent_room}
use run_bot_backend.Gateway.Client.{
  hydrate_parsed, hydrate_from, subscribe_owned, subscribe_found, on_client_subscribe,
  on_client_unsubscribe,
}

module _ {P : Platform} {J : Facts P} {T : ℕ} (stable : IsStable P T J) where
  hydrate_parsed-Keeps : (client : Socket) (o : Option Json) → Keeps P J (hydrate_parsed client o)
  unfolding hydrate_parsed
  hydrate_parsed-Keeps client none = search keeps_rules
  hydrate_parsed-Keeps client (some frame) = search keeps_rules

  hydrate_from-Keeps : (client : Socket) (o : Option String) → Keeps P J (hydrate_from client o)
  unfolding hydrate_from
  hydrate_from-Keeps client none = search keeps_rules
  hydrate_from-Keeps client (some cached) = search (keeps_rules, hydrate_parsed-Keeps)

  joined-Keeps :
      (id room : String) → KeptByJoin P J id room → Keeps P J (effect {P = P} (join id room))
  joined-Keeps id room k = record { at = k }

  subscribe_owned-Keeps :
      (client : Socket) (a : String)
      → KeptByJoin P J client.id (agent_room a)
      → Keeps P J (subscribe_owned T client a)
  unfolding subscribe_owned
  subscribe_owned-Keeps client a k =
      search (keeps_rules, joined-Keeps, get_cached_state-Keeps stable, hydrate_from-Keeps) depth 12

  subscribe_found-Keeps :
      (client : Socket) (a : String) (o : Option EaInstance)
      → KeptByJoin P J client.id (agent_room a)
      → Keeps P J (subscribe_found T client a o)
  unfolding subscribe_found
  subscribe_found-Keeps client a o k = search (keeps_rules, subscribe_owned-Keeps) depth 12

  pub on_client_subscribe-Keeps :
      (client : Socket) (a : String)
      → KeptByJoin P J client.id (agent_room a)
      → Keeps P J (on_client_subscribe T client a)
  unfolding on_client_subscribe
  on_client_subscribe-Keeps client a k = search (keeps_rules, subscribe_found-Keeps)

  pub on_client_unsubscribe-Keeps :
      (client : Socket) (a : String) → Keeps P J (on_client_unsubscribe client a)
  unfolding on_client_unsubscribe
  on_client_unsubscribe-Keeps client a = search keeps_rules
