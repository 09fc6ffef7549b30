-- ===== src/Http/ErrorFilter/Laws.antt =====
-- What an answer gives away.
use run_bot_backend.Prelude.{◌≤◌, ◌⊎◌, String, ◌≡◌, ◌≢◌, none, some, true, ne_test, arith}
use run_bot_backend.Text.{trim}
use run_bot_backend.Json.{Json, str, member}
use run_bot_backend.Http.ErrorFilter.{HttpException, json_or, error_response}

module _ (to_text : Json → String) (path : String) where
  -- In production the answer to a server error says nothing of the exception: the message and the
  -- error are fixed and there are no details. Only the code is taken from the exception's body.
  pub server_error_hidden :
      (e : HttpException)
      → 500 ≤ e.status
      → error_response to_text true path e ≡ record {
        status_code = e.status;
        code = json_or (member "code" e.body) (str "INTERNAL_ERROR");
        message = str "Unexpected error";
        error = str "InternalError";
        details = none;
        path = path;
      }
  unfolding error_response
  server_error_hidden e h = ground arith

  -- In production, but for the statuses 400, 401 and 422, the message depends on the status alone:
  -- two exceptions of one status are answered with one message. For every status there are no
  -- details.
  pub production_generic :
      (e e' : HttpException)
      → e.status ≡ e'.status
      → e.status ≢ 400
      → e.status ≢ 401
      → e.status ≢ 422
      → ((error_response to_text true path e).message
          ≡ (error_response to_text true path e').message)
        × ((error_response to_text true path e).details ≡ none)
        × ((error_response to_text true path e').details ≡ none)
  unfolding error_response
  production_generic e e' same bad auth entity = (ground arith, ground arith, ground arith)

  -- In production an answer with status 400, 401 or 422 passes on the message of the exception's
  -- body, if that is a text with more than white space.
  pub message_passed :
      (e : HttpException) (text : String)
      → (e.status ≡ 400) ⊎ (e.status ≡ 401) ⊎ (e.status ≡ 422)
      → member "message" e.body ≡ some (str text)
      → trim text ≢ ""
      → (error_response to_text true path e).message ≡ str text
  unfolding error_response
  message_passed e text h m solid = ground (arith, ne_test (trim text) "" solid)
