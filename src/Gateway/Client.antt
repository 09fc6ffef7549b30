-- ===== src/Gateway/Client.antt =====
-- The events of a browser: `client:subscribe` and `client:unsubscribe`.
pub mod Keeps
pub mod Laws
use run_bot_backend.Prelude.{
  ℕ, String, Option, none, some, Bool, true, false, ◌==◌, truthy, if◌then◌else◌,
}
use run_bot_backend.Json.{Json}
use run_bot_backend.Cache.{get}
use run_bot_backend.Data.{EaInstance, hydrate, error, emit_client, join, leave, Socket}
use run_bot_backend.Platform.{Platform}
use run_bot_backend.Platform.Exec.{World, Exec, pure, query, skip, effect, ◌>>=◌, ◌>>◌}
use run_bot_backend.Gateway.{agent_room, by_agent, get_cached_state, reject}

-- `instance.userId === callerId`. A caller without a token has `undefined`, which no owner equals.
unfoldable pub same_user : Option String → Option String → Bool
same_user (some owner) (some caller) = owner == caller
same_user _ _ = false

unfoldable pub is_owner : Option EaInstance → Option String → Bool
unfolding same_user
is_owner none caller = false
is_owner (some i) caller = same_user i.user_id caller

module _ {P : Platform} where
  hydrate_parsed : Socket → Option Json → Exec P Unit
  hydrate_parsed client none = skip
  hydrate_parsed client (some frame) = effect (emit_client client.id (hydrate frame))

  hydrate_from : Socket → Option String → Exec P Unit
  unfolding hydrate_parsed
  hydrate_from client none = skip
  hydrate_from client (some cached) =
      if cached == "" then skip else hydrate_parsed client (P.parse cached)

  subscribe_owned : ℕ → Socket → String → Exec P Socket
  unfolding hydrate_from agent_room get_cached_state
  subscribe_owned now client agent_id = do
    effect (join client.id (agent_room agent_id))
    cached ← get_cached_state now agent_id
    hydrate_from client cached
    pure (record client { state = record client.state { agent_id = some agent_id } })

  subscribe_found : ℕ → Socket → String → Option EaInstance → Exec P Socket
  unfolding subscribe_owned is_owner
  subscribe_found now client agent_id found =
      if is_owner found client.state.user_id
      then subscribe_owned now client agent_id
      else reject client (error "forbidden")

  unfoldable pub on_client_subscribe : ℕ → Socket → String → Exec P Socket
  unfolding subscribe_found
  on_client_subscribe now client agent_id = do
    found ← query (P.find_one (by_agent agent_id))
    subscribe_found now client agent_id found

  unfoldable pub on_client_unsubscribe : Socket → String → Exec P Unit
  unfolding agent_room
  on_client_unsubscribe client agent_id = effect (leave client.id (agent_room agent_id))
