-- ===== src/Http/Bodies.antt =====
-- src/console/dto: the bodies of requests, as the validation of src/main.ts lets them through, and the
-- routes of src/console/console.controller.ts that take one.
pub mod Laws
use run_bot_backend.Prelude.{
  ℕ, String, ◌≡◌, ◌≢◌, Option, none, some, Bool, true, false, List, [], ◌∷◌, if◌then◌else◌,
}
use run_bot_backend.Json.{Json, bool, str, obj, Fields, end, field, find_field}
use run_bot_backend.Platform.{Platform}
use run_bot_backend.Platform.Exec.{World, Exec, bad_request, raise, ◌>>=◌}
use run_bot_backend.Token.{can_activate}
use run_bot_backend.Http.Controller.{
  Route, Reply, kill_switch, master_enable, settings, kill_everything, handle,
}

-- What `ValidationPipe` does by class-transformer and class-validator, with the options of `bootstrap`.
pub record Pipe : Type 0 where
  -- a value of a property that is declared boolean, or an object, after the implicit conversion
  pub convert_boolean : Json → Json
  pub convert_object : Json → Json
  -- `IsBoolean` and `IsObject`
  pub is_boolean : Json → Bool
  pub is_object : Json → Bool
  -- no property but these: `whitelist` and `forbidNonWhitelisted`
  pub allows : List String → Fields → Bool
  -- the message of the exception that it throws
  pub problem : String

-- The documented behaviour: a value is converted to a declared type as JavaScript does, where every
-- text but the empty one is true.
pub record PipeLaws (p : Pipe) : Type 0 where
  pub convert_boolean_text : (s : String) → s ≢ "" → p.convert_boolean (str s) ≡ bool true
  pub convert_boolean_bool : (b : Bool) → p.convert_boolean (bool b) ≡ bool b
  pub is_boolean_bool : (b : Bool) → p.is_boolean (bool b) ≡ true
  pub allows_own : (k : String) (v : Json) → p.allows (k ∷ []) (field k v end) ≡ true

-- The body of a request that has one, by route.
pub data Post : Type 0 where
  post_kill_switch post_master_enable post_settings : String → Fields → Post
  post_kill_all : Fields → Post

bool_of : Json → Option Bool
bool_of (bool b) = some b
bool_of _ = none

fields_of : Json → Option Fields
fields_of (obj fields) = some fields
fields_of _ = none

-- `@Equals(true)`
equals_true : Option Bool → Option Bool
equals_true (some true) = some true
equals_true _ = none

map_route {ℓ} : {A : Type ℓ} → (A → Route) → Option A → Option Route
map_route f none = none
map_route f (some a) = some (f a)

module _ (p : Pipe) where
  checked_boolean : Json → Option Bool
  unfolding bool_of
  checked_boolean v = if p.is_boolean v then bool_of v else none

  boolean_property : Option Json → Option Bool
  unfolding checked_boolean
  boolean_property none = none
  boolean_property (some v) = checked_boolean (p.convert_boolean v)

  checked_object : Json → Option Fields
  unfolding fields_of
  checked_object v = if p.is_object v then fields_of v else none

  object_property : Option Json → Option Fields
  unfolding checked_object
  object_property none = none
  object_property (some v) = checked_object (p.convert_object v)

  -- `KillSwitchDto`
  kill_switch_dto : Fields → Option Bool
  unfolding boolean_property equals_true find_field
  kill_switch_dto body =
      if p.allows ("confirm" ∷ []) body
      then equals_true (boolean_property (find_field "confirm" body))
      else none

  -- `MasterEnableDto`
  master_enable_dto : Fields → Option Bool
  unfolding boolean_property find_field
  master_enable_dto body =
      if p.allows ("enabled" ∷ []) body then boolean_property (find_field "enabled" body) else none

  -- `PushSettingsDto`
  push_settings_dto : Fields → Option Fields
  unfolding object_property find_field
  push_settings_dto body =
      if p.allows ("settings" ∷ []) body then object_property (find_field "settings" body) else none

  read_route : Post → Option Route
  unfolding kill_switch_dto master_enable_dto push_settings_dto map_route
  read_route (post_kill_switch agent_id body) =
      map_route (kill_switch agent_id) (kill_switch_dto body)
  read_route (post_master_enable agent_id body) =
      map_route (master_enable agent_id) (master_enable_dto body)
  read_route (post_settings agent_id body) = map_route (settings agent_id) (push_settings_dto body)
  read_route (post_kill_all body) = map_route kill_everything (kill_switch_dto body)

  module _ {P : Platform} where
    handle_read : ℕ → Option Route → String → Exec P Reply
    handle_read now none user_id = raise (bad_request p.problem)
    handle_read now (some route) user_id = handle now route user_id

    -- The guard, the pipe and the controller's method, in this order.
    unfoldable pub post_body : ℕ → Option String → Post → Exec P Reply
    unfolding read_route handle_read
    post_body now header r = do
      user ← can_activate now header
      handle_read now (read_route r) user.user_id
