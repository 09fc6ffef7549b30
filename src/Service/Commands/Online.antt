-- ===== src/Service/Commands/Online.antt =====
-- Commands to an EA whose bridge has just sent a frame.
use run_bot_backend.Prelude.{ℕ, String, ◌≡◌, refl, ◌∙◌, ap, inl, inr, Option, some, ◌∷◌, eq_refl}
use run_bot_backend.Json.{Json}
use run_bot_backend.Data.{EaInstance, Socket}
use run_bot_backend.Platform.{Platform, Laws}
use run_bot_backend.Platform.Documents.{document, found-document}
use run_bot_backend.Platform.Exec.{World}
use run_bot_backend.Gateway.{by_agent}
use run_bot_backend.Gateway.Bridge.{see_telemetry, on_bridge_telemetry}
use run_bot_backend.Gateway.Bridge.Telemetry.{Fits, telemetry_document}
use run_bot_backend.Service.Commands.Laws.{Command, send, order, send_granted}

module _ {P : Platform} (laws : Laws P) where
  -- Once a bridge's frame is accepted for an agent and written, and while the database answers, any
  -- command of the user who owns the agent's instance goes out to the agent's bridge, whatever the
  -- instance showed before the frame.
  pub send-on_bridge_telemetry :
      (now : ℕ) (client : Socket) (a user : String) (frame : Json) (c : Command) (i : EaInstance)
      (found : Option EaInstance) (w : World P) (db : P.Db)
      → Fits client a frame
      → document P a w.db ≡ some i
      → i.user_id ≡ some user
      → P.update_one (by_agent a) (see_telemetry now frame) w.db ≡ some db
      → P.find_one (by_agent a) (on_bridge_telemetry now client frame w).1.db ≡ some found
      → let w' = (on_bridge_telemetry now client frame w).1 in
        (send c a user w').1.trace ≡ order c a user w' ∷ w'.trace
  send-on_bridge_telemetry now client a user frame c i found w db fits d mine written answers =
      let is : found ≡ some (see_telemetry now frame i) =
        found-document laws a _ found answers
        ∙ telemetry_document laws now client a a frame w db fits written
        ∙ rw (eq_refl a, d) refl in
      elim (send_granted c a user (on_bridge_telemetry now client frame w).1 found answers
        (rw (is, mine, eq_refl user) refl)) [
          | inl (db', audited, r) ↦ ap (λ x. x.1.trace) r
          | inr (lost, r) ↦ ap (λ x. x.1.trace) r
        ]
