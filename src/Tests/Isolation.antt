-- ===== src/Tests/Isolation.antt =====
-- The isolation of the users' EAs at a concrete input.
use run_bot_backend.Prelude.{
  String, ◌≡◌, refl, sym, ◌∙◌, ap, Option, some, true, false, [], ◌∷◌, any, select,
}
use run_bot_backend.Platform.Exec.{World, Result, ok, err}
use run_bot_backend.Platform.Memory.{memory, memory-Laws, with_instances, sample}
use run_bot_backend.Gateway.{by_agent}
use run_bot_backend.Token.{
  SafetyScoreUser, can_activate, extract_bearer_token, verify_safety_score_token,
  read_public_key_pem,
}
use run_bot_backend.Text.{trim, is_space}
use run_bot_backend.Service.Bulk.{by_user}
use run_bot_backend.Service.Isolation.{entry_about, in_rooms_of}
use run_bot_backend.Http.Controller.{kill_everything, request}
use run_bot_backend.Http.Controller.Isolation.{request-isolated}

-- An EA of ann's and one of bob's, and ann kills everything.
abbrev shared : World memory
shared = with_instances (sample ∷ record sample { agent_id = "acc-UK"; user_id = some "bob" } ∷ [])

abbrev header : Option String
header = some "Bearer good"

abbrev name_of : Result SafetyScoreUser → String
name_of (ok user) = user.user_id
name_of (err e) = ""

ann_asks : name_of (can_activate 9 header shared).0 ≡ "ann"
unfolding can_activate extract_bearer_token verify_safety_score_token read_public_key_pem trim
    is_space
ann_asks = refl

not_hers :
    (user : SafetyScoreUser)
    → (can_activate 9 header shared).0 ≡ ok user
    → any (by_user user.user_id) (select (by_agent "acc-UK") (memory.instances shared.db)) ≡ false
not_hers user verified =
    let name : user.user_id ≡ "ann" = sym (ap name_of verified) ∙ ann_asks in rw name refl

request-isolated_example :
    (select
        (by_agent "acc-UK")
        (memory.instances (request 9 header (kill_everything true) shared).1.db)
      ≡ select (by_agent "acc-UK") (memory.instances shared.db))
    × (select
          (entry_about "acc-UK")
          (memory.audit_logs (request 9 header (kill_everything true) shared).1.db)
        ≡ [])
    × (select (in_rooms_of "acc-UK") (request 9 header (kill_everything true) shared).1.trace ≡ [])
request-isolated_example =
    request-isolated {P = memory} memory-Laws 9 header (kill_everything true) "acc-UK" shared
      not_hers
