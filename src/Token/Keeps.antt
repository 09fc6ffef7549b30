-- ===== src/Token/Keeps.antt =====
-- A verification keeps whatever is true of the database.
use run_bot_backend.Prelude.{ℕ, String, Option}
use run_bot_backend.Platform.{Platform}
use run_bot_backend.Platform.Keeps.{Facts, Holds, Keeps}
use run_bot_backend.Platform.Exec.{World}
use run_bot_backend.Token.{verify_safety_score_token, can_activate}
use run_bot_backend.Token.Frame.{Same, verify-Same, can_activate-Same}

carried :
    {P : Platform} (J : Facts P) {w w' : World P}
    → Same w w'
    → Holds {P = P} J w
    → Holds {P = P} J w'
carried J s h = rw (s.db, s.bridges, s.sent, s.cache) h

module _ {P : Platform} {J : Facts P} where
  pub verify-Keeps : (now : ℕ) (token : String) → Keeps P J (verify_safety_score_token now token)
  verify-Keeps now token = record { at = λ w h. carried J (verify-Same now token w) h }

  pub can_activate-Keeps : (now : ℕ) (header : Option String) → Keeps P J (can_activate now header)
  can_activate-Keeps now header = record {
    at = λ w h. carried J (can_activate-Same now header w) h;
  }
