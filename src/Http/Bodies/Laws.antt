-- ===== src/Http/Bodies/Laws.antt =====
-- What a body makes a request do.
use run_bot_backend.Prelude.{
  ℕ, String, ◌≡◌, ◌≢◌, refl, ◌⊎◌, inl, inr, Option, none, some, Bool, true, false, [], ◌∷◌,
  Bool-cases,
}
use run_bot_backend.Json.{str, Fields, end, field, find_field}
use run_bot_backend.Platform.{Platform}
use run_bot_backend.Platform.Exec.{World, Exec, bad_request, raise, ◌>>=◌}
use run_bot_backend.Token.{can_activate}
use run_bot_backend.Http.Controller.{
  Route, Reply, kill_switch, master_enable, kill_everything, request,
}
use run_bot_backend.Http.Bodies.{
  Pipe, PipeLaws, Post, post_kill_switch, post_master_enable, post_kill_all, equals_true,
  boolean_property, kill_switch_dto, master_enable_dto, read_route, post_body,
}

equals_true_cases : (o : Option Bool) → (equals_true o ≡ none) ⊎ (equals_true o ≡ some true)
unfolding equals_true
equals_true_cases none = inl refl
equals_true_cases (some false) = inl refl
equals_true_cases (some true) = inr refl

-- A kill switch's body is refused or confirms.
kill_switch_dto_cases :
    (p : Pipe) (body : Fields)
    → (kill_switch_dto p body ≡ none) ⊎ (kill_switch_dto p body ≡ some true)
unfolding kill_switch_dto
kill_switch_dto_cases p body = elim (Bool-cases (p.allows ("confirm" ∷ []) body)) [
  | inl may ↦ rw may (equals_true_cases (boolean_property p (find_field "confirm" body)))
  | inr extra ↦ inl (rw extra refl)
]

boolean_text :
    (p : Pipe) → PipeLaws p → (s : String) → s ≢ "" → boolean_property p (some (str s)) ≡ some true
unfolding boolean_property
boolean_text p laws s solid = rw (laws.convert_boolean_text s solid, laws.is_boolean_bool true) refl

module _ (p : Pipe) {P : Platform} where
  -- The guard, and then the pipe's exception.
  abbrev pub refused : ℕ → Option String → Exec P Reply
  refused now header = do user ← can_activate now header; raise (bad_request p.problem)

  post_body-request :
      (now : ℕ) (header : Option String) (r : Post) (route : Route) (w : World P)
      → read_route p r ≡ some route
      → post_body p now header r w ≡ request now header route w
  unfolding post_body request
  post_body-request now header r route w e = rw e refl

  post_body-refused :
      (now : ℕ) (header : Option String) (r : Post) (w : World P)
      → read_route p r ≡ none
      → post_body p now header r w ≡ refused now header w
  unfolding post_body
  post_body-refused now header r w e = rw e refl

  -- A kill switch and a kill of everything, with any body, are refused behind the guard or carried out
  -- as confirmed: neither is ever handled unconfirmed, so that the controller's own checks of the
  -- confirmation are never met.
  pub post_confirmed :
      (now : ℕ) (header : Option String) (agent_id : String) (body : Fields) (w : World P)
      → ((post_body p now header (post_kill_switch agent_id body) w ≡ refused now header w)
          × (post_body p now header (post_kill_all body) w ≡ refused now header w))
        ⊎ ((post_body p now header (post_kill_switch agent_id body) w
              ≡ request now header (kill_switch agent_id true) w)
            × (post_body p now header (post_kill_all body) w
                ≡ request now header (kill_everything true) w))
  unfolding read_route
  post_confirmed now header agent_id body w = elim (kill_switch_dto_cases p body) [
    | inl bad ↦ inl (
      post_body-refused now header (post_kill_switch agent_id body) w (rw bad refl),
      post_body-refused now header (post_kill_all body) w (rw bad refl),
    )
    | inr good ↦ inr (
      post_body-request now header (post_kill_switch agent_id body) _ w (rw good refl),
      post_body-request now header (post_kill_all body) _ w (rw good refl),
    )
  ]

  module _ (laws : PipeLaws p) where
    -- With a pipe that converts as documented, a text in the place of a boolean that is not empty means
    -- true, whatever it says, be it "false", "0" or "no": a body
    -- that confirms by such a text kills, and one that disables by it enables.
    pub text_confirms :
        (now : ℕ) (header : Option String) (agent_id s : String) (w : World P)
        → s ≢ ""
        → (post_body p now header (post_kill_all (field "confirm" (str s) end)) w
            ≡ request now header (kill_everything true) w)
          × (post_body p now header (post_kill_switch agent_id (field "confirm" (str s) end)) w
              ≡ request now header (kill_switch agent_id true) w)
          × (post_body p now header (post_master_enable agent_id (field "enabled" (str s) end)) w
              ≡ request now header (master_enable agent_id true) w)
    unfolding read_route kill_switch_dto master_enable_dto equals_true
    text_confirms now header agent_id s w solid =
        let yes_text = boolean_text p laws s solid in
        (
          post_body-request now header (post_kill_all (field "confirm" (str s) end)) _ w
              (rw (laws.allows_own "confirm" (str s), yes_text) refl),
          post_body-request now header (post_kill_switch agent_id (field "confirm" (str s) end)) _ w
              (rw (laws.allows_own "confirm" (str s), yes_text) refl),
          post_body-request now header (post_master_enable agent_id (field "enabled" (str s) end)) _
              w (rw (laws.allows_own "enabled" (str s), yes_text) refl),
        )
