-- ===== src/System/Server/Users.antt =====
-- What the handlers of a connection and of a subscription do to the user of their socket.
use run_bot_backend.Prelude.{ℕ, String, ◌≡◌, refl, inl, inr, Option, arith}
use run_bot_backend.Data.{Socket}
use run_bot_backend.Platform.{Platform}
use run_bot_backend.Platform.Exec.{World, ok}
use run_bot_backend.Gateway.Connection.{handle_connection}
use run_bot_backend.Gateway.Connection.Laws.{handle_connection_cases}
use run_bot_backend.Gateway.Client.{on_client_subscribe}
use run_bot_backend.Gateway.Client.Laws.{subscribe-authorized}
use run_bot_backend.System.Server.{blank, socket}
use run_bot_backend.System.Server.Table.{SameUser}

module _ {P : Platform} where
  pub connection-user :
      (now : ℕ) (id : String) (token : Option String) (w : World P) (c : Socket)
      → (handle_connection now (socket id blank) token w).0 ≡ ok c
      → SameUser blank c.state
  connection-user now id token w c h =
      elim (handle_connection_cases now (socket id blank) token w) [
        | inl (kept, sent) ↦ inl (ground arith)
        | inr (t, u, is, verified, set, sent) ↦
            inr (refl, u.user_id, ground arith, verified.nonempty)
      ]

  pub subscribe-user :
      (now : ℕ) (client : Socket) (a : String) (w : World P) (c : Socket)
      → (on_client_subscribe now client a w).0 ≡ ok c
      → c.state.user_id ≡ client.state.user_id
  subscribe-user now client a w c h = elim (subscribe-authorized now client a w) [
    | inl down ↦ ground arith
    | inr (inl refused) ↦ ground arith
    | inr (inr (i, u, found, owned, mine, set)) ↦ ground arith
  ]
