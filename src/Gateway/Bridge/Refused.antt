-- ===== src/Gateway/Bridge/Refused.antt =====
-- Registrations that are turned away.
use run_bot_backend.Prelude.{
  ℕ, String, ◌≡◌, ◌≢◌, ◌⊎◌, Option, some, false, ◌∷◌, eq_iff, arith, truthy,
}
use run_bot_backend.Data.{EaInstance, emit_client, disconnect, error, Socket}
use run_bot_backend.Platform.{Platform}
use run_bot_backend.Platform.Exec.{World, ok}
use run_bot_backend.Gateway.{by_agent, bound_agent}
use run_bot_backend.Gateway.Bridge.{on_bridge_register}

module _ {P : Platform} where
  -- A registration whose payload names another agent than the token is told so and disconnected, and
  -- changes nothing else, whatever the database holds.
  register_mismatch :
      (now : ℕ) (client : Socket) (agent_id claimed : String) (w : World P)
      → bound_agent client.state ≡ some agent_id
      → agent_id ≢ ""
      → claimed ≢ ""
      → claimed ≢ agent_id
      → on_bridge_register now client (some claimed) w ≡ (
        ok client,
        record w {
          trace =
              disconnect client.id
              ∷ emit_client client.id (error "forbidden: agentId does not match token")
              ∷ w.trace;
        },
      )
  unfolding on_bridge_register
  register_mismatch now client agent_id claimed w b ne nc other =
      ground (arith, eq_iff agent_id "", eq_iff claimed "", eq_iff claimed agent_id)

  -- A registration of an agent that the database shows under another user is told so and disconnected,
  -- and changes nothing else: the instance keeps its owner and its current socket.
  register_foreign :
      (now : ℕ) (client : Socket) (agent_id owner caller : String) (i : EaInstance)
      (claimed : Option String) (w : World P)
      → bound_agent client.state ≡ some agent_id
      → agent_id ≢ ""
      → (truthy claimed ≡ false) ⊎ (claimed ≡ some agent_id)
      → P.find_one (by_agent agent_id) w.db ≡ some (some i)
      → i.user_id ≡ some owner
      → owner ≢ ""
      → client.state.user_id ≡ some caller
      → caller ≢ ""
      → owner ≢ caller
      → on_bridge_register now client claimed w ≡ (
        ok client,
        record w {
          trace =
              disconnect client.id
              ∷ emit_client client.id (error "forbidden: agentId owned by another user")
              ∷ w.trace;
        },
      )
  unfolding on_bridge_register
  register_foreign now client agent_id owner caller i claimed w b ne c f o own u call other =
      ground (
        arith,
        eq_iff agent_id "",
        eq_iff agent_id agent_id,
        eq_iff owner "",
        eq_iff caller "",
        eq_iff owner caller,
      )
