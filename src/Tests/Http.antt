-- ===== src/Tests/Http.antt =====
-- The theorems on requests and answers at concrete inputs.
use run_bot_backend.Prelude.{
  String, ◌≡◌, ◌⊎◌, ◌↔◌, refl, Option, none, some, true, List, [], ◌∷◌, arith, differs, eq_refl,
  Bool, false, ◌&&◌, ◌==◌, ne_test,
}
use run_bot_backend.Text.{is_space}
use run_bot_backend.Json.{Json, str, end, field, bool, Fields, truthy_json}
use run_bot_backend.Platform.Exec.{err, unauthorized}
use run_bot_backend.Platform.Memory.{memory, start}
use run_bot_backend.Token.{SafetyScoreUser, extract_bearer_token, can_activate}
use run_bot_backend.Token.Laws.{IsVerified}
use run_bot_backend.Token.Frame.{Same}
use run_bot_backend.Http.Controller.{
  Route, kill_switch, handle, request, kill_everything, master_enable,
}
use run_bot_backend.Http.Controller.Laws.{request_cases}
use run_bot_backend.Http.Throttle.{get_tracker}
use run_bot_backend.Http.Throttle.Laws.{IsAddress, tracker_forwarded}
use run_bot_backend.Http.Throttle
use run_bot_backend.Http.Bodies.{
  Pipe, PipeLaws, post_body, post_kill_switch, post_master_enable, post_kill_all,
}
use run_bot_backend.Http.Bodies.Laws.{refused, post_confirmed, text_confirms}

abbrev header : Option String
header = some "Bearer good"

abbrev route : Route
route = kill_switch "acc-EU" true

request_cases_example :
    ((code message : String) × ((request 9 header route start).0 ≡ err (unauthorized code message))
      × Same start (request 9 header route start).1)
    ⊎ ((token : String) × (u : SafetyScoreUser) × (extract_bearer_token header ≡ some token)
        × IsVerified memory 9 token u
        × Same start (can_activate 9 header start).1
        × (request 9 header route start ≡ handle 9 route u.user_id (can_activate 9 header start).1))
request_cases_example = request_cases 9 header route start

abbrev from : Option String → Option String → String → Throttle.Request
from authorization agent_id address = record {
  authorization = authorization;
  agent_param = agent_id;
  forwarded_for = some address;
  connecting_ip = none;
  ip = some "10.0.0.1";
  remote_address = none;
  device_header = none;
  device_cookie = none;
}

abbrev hash : String → String
hash text = "0123456789abcdef0123"

one-IsAddress : IsAddress "1.1"
unfolding is_space
one-IsAddress = record {
  nonempty = differs "1.1" "" refl;
  single = (refl, (refl, (refl, tt)));
  solid = (refl, (refl, (refl, tt)));
}

another-IsAddress : IsAddress "2.2"
unfolding is_space
another-IsAddress = record {
  nonempty = differs "2.2" "" refl;
  single = (refl, (refl, (refl, tt)));
  solid = (refl, (refl, (refl, tt)));
}

tracker_forwarded_example :
    (get_tracker hash (from none none "1.1") ≡ get_tracker hash (from none none "2.2"))
    ↔ (◌≡◌ {A = String} "1.1" "2.2")
unfolding extract_bearer_token
tracker_forwarded_example =
    tracker_forwarded hash (from none none "1.1") (from none none "2.2") "1.1" "2.2" none refl refl
      one-IsAddress another-IsAddress refl refl refl refl

abbrev converted : Json → Json
converted v = bool (truthy_json (some v))

abbrev is_bool : Json → Bool
is_bool (bool b) = true
is_bool _ = false

abbrev only : List String → Fields → Bool
only ks end = true
only [] (field k v rest) = false
only (j ∷ ks) (field k v rest) = j == k && only ks rest

abbrev plain_pipe : Pipe
plain_pipe = record {
  convert_boolean = converted;
  convert_object = λ v. v;
  is_boolean = is_bool;
  is_object = λ v. true;
  allows = only;
  problem = "Bad Request";
}

plain_pipe-PipeLaws : PipeLaws plain_pipe
plain_pipe-PipeLaws = record {
  convert_boolean_text = λ s solid. ground (arith, ne_test s "" solid);
  convert_boolean_bool = λ b. refl;
  is_boolean_bool = λ b. refl;
  allows_own = λ k v. ground (arith, eq_refl k);
}

post_confirmed_example :
    ((post_body plain_pipe 9 header
          (post_kill_switch "acc-EU" (field "confirm" (bool true) end))
          start
        ≡ refused plain_pipe 9 header start)
      × (post_body plain_pipe 9 header (post_kill_all (field "confirm" (bool true) end)) start
          ≡ refused plain_pipe 9 header start))
    ⊎ ((post_body plain_pipe 9 header
            (post_kill_switch "acc-EU" (field "confirm" (bool true) end))
            start
          ≡ request 9 header (kill_switch "acc-EU" true) start)
        × (post_body plain_pipe 9 header (post_kill_all (field "confirm" (bool true) end)) start
            ≡ request 9 header (kill_everything true) start))
post_confirmed_example =
    post_confirmed plain_pipe 9 header "acc-EU" (field "confirm" (bool true) end) start

text_confirms_example :
    (post_body plain_pipe 9 header (post_kill_all (field "confirm" (str "false") end)) start
      ≡ request 9 header (kill_everything true) start)
    × (post_body plain_pipe 9 header
          (post_kill_switch "acc-EU" (field "confirm" (str "false") end))
          start
        ≡ request 9 header (kill_switch "acc-EU" true) start)
    × (post_body plain_pipe 9 header
          (post_master_enable "acc-EU" (field "enabled" (str "false") end))
          start
        ≡ request 9 header (master_enable "acc-EU" true) start)
text_confirms_example =
    text_confirms plain_pipe plain_pipe-PipeLaws 9 header "acc-EU" "false" start
      (differs "false" "" refl)
