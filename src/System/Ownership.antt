-- ===== src/System/Ownership.antt =====
-- What no history of the program can do: take an EA from its owner, or let another user command it.
use run_bot_backend.Prelude.{ℕ, String, ◌≡◌, ◌≢◌, sym, ap, ◌∙◌, inl, inr, some, List, [], ◌∷◌}
use run_bot_backend.Platform.{Platform, Laws}
use run_bot_backend.Platform.Exec.{World}
use run_bot_backend.Platform.Documents.{found-document}
use run_bot_backend.Platform.Owners.{owner, OwnedBy, Owned, OwnedBy-IsStable}
use run_bot_backend.Gateway.Bridge.Ownership.{on_bridge_register-owner}
use run_bot_backend.Service.Commands.Laws.{Command, send, send-authorized}
use run_bot_backend.System.Keeps.{Kept, step-Keeps}
use run_bot_backend.System.{
  Occurrence, disconnection, bridge_register, bridge_telemetry, client_subscribe, step, run,
}

module _ {P : Platform} (laws : Laws P) (a u : String) (real : u ≢ "") where
  Kept-owner : (now : ℕ) (o : Occurrence) → Kept P (Owned P a u) now o
  Kept-owner now (bridge_register client claimed) =
      on_bridge_register-owner laws a u real now client claimed
  Kept-owner now (disconnection client) = λ b v l h. h
  Kept-owner now (bridge_telemetry client frame) = λ b f v h. h
  Kept-owner now (client_subscribe client b) = λ v h. h
  Kept-owner now _ = tt

  pub step-owner :
      (now : ℕ) (o : Occurrence) (w : World P)
      → OwnedBy P a u w.db
      → OwnedBy P a u (step now o w).db
  step-owner now o w = step-Keeps now (OwnedBy-IsStable laws a u) o (Kept-owner now o) w

  -- An EA that belongs to a user, whose id is no empty text, belongs to that user after every history
  -- of connections, events of bridges and browsers, requests and jobs whose handlers run one after
  -- the other, whatever the sockets and the database's failures.
  pub run-owner :
      (history : List (ℕ × Occurrence)) (w : World P)
      → OwnedBy P a u w.db
      → OwnedBy P a u (run history w).db
  unfolding run
  run-owner [] w h = h
  run-owner ((now, o) ∷ rest) w h = run-owner rest (step now o w) (step-owner now o w h)

  -- Once an EA belongs to a user, no history of handlers that run one after the other lets another
  -- user command it: a command of any verb by any other user sends nothing.
  pub send-run :
      (history : List (ℕ × Occurrence)) (w : World P) (c : Command) (v : String)
      → OwnedBy P a u w.db
      → v ≢ u
      → (send c a v (run history w)).1.trace ≡ (run history w).trace
  send-run history w c v h other = elim (send-authorized c a v (run history w)) [
    | inl silent ↦ silent
    | inr (i, found, mine, on, sent) ↦
        let doc = found-document laws a (run history w).db (some i) found in
        let own = ap owner doc ∙ run-owner history w h in
        absurd (other (same_text (sym mine ∙ own)))
  ]
    where
      same_text : some v ≡ some u → v ≡ u
      same_text e = cc
