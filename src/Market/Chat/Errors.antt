-- ===== src/Market/Chat/Errors.antt =====
-- `normalizeError` and `exposeSafeContext` of src/chat/chat-ws-exception.filter.ts, on the exceptions
-- of the handlers and those of the validation pipe.
use kayan_place.Prelude.{
  ℕ, String, Bool, true, false, not, ◌||◌, Option, none, some, same_text, if◌then◌else◌,
}
use kayan_place.Database.{Error, Message, bad_request, not_found, forbidden, unauthorized}
use kayan_place.Market.Access.{to_positive_int}

pub data ChatErrorCode : Type 0 where
  validation_error code_unauthorized code_forbidden code_not_found internal_error : ChatErrorCode

-- What the gateway throws: the exception of a handler, or a `WsException` around a text, or around
-- an object with an optional code and message.
pub data Thrown : Type 0 where
  exception : Error → Thrown
  ws_text : String → Thrown
  ws_object : Option ChatErrorCode → Option String → Thrown

pub record NormalizedError : Type 0 where
  pub code : ChatErrorCode
  pub status_code : ℕ
  pub message : Option Message
  pub text : String

abbrev normalized : ChatErrorCode → ℕ → Option Message → String → NormalizedError
normalized code status message text = record {
  code = code;
  status_code = status;
  message = message;
  text = text;
}

abbrev internal : String → NormalizedError
internal text = normalized internal_error 500 none text

abbrev of_exception : Error → NormalizedError
of_exception (bad_request m) = normalized validation_error 400 (some m) ""
of_exception (unauthorized m) = normalized code_unauthorized 401 (some m) ""
of_exception (forbidden m) = normalized code_forbidden 403 (some m) ""
of_exception (not_found m) = normalized code_not_found 404 (some m) ""
of_exception _ = internal "Internal server error"

abbrev object_status : ChatErrorCode → ℕ
object_status validation_error = 400
object_status _ = 500

abbrev code_or : Option ChatErrorCode → ChatErrorCode
code_or none = internal_error
code_or (some c) = c

abbrev text_or : Option String → String
text_or none = "Internal server error"
text_or (some t) = t

unfoldable pub normalize_error : Thrown → NormalizedError
normalize_error (exception e) = of_exception e
normalize_error (ws_text text) = internal text
normalize_error (ws_object code message) =
    normalized (code_or code) (object_status (code_or code)) none (text_or message)

pub record ErrorContext : Type 0 where
  pub conversation_id : Option ℕ
  pub user_id : Option ℕ
  pub user_a_id : Option ℕ
  pub user_b_id : Option ℕ

abbrev pub is_forbidden : ChatErrorCode → Bool
is_forbidden code_forbidden = true
is_forbidden _ = false

abbrev positive : Option ℕ → Option ℕ
positive none = none
positive (some k) = to_positive_int k

abbrev pub only_conversation : Option ErrorContext → Option ErrorContext
only_conversation none = none
only_conversation (some c) = some (record {
  conversation_id = positive c.conversation_id;
  user_id = none;
  user_a_id = none;
  user_b_id = none;
})

-- Only a refused `message.send` tells its conversation.
unfoldable pub expose_safe_context :
    (event : String) → ChatErrorCode → Option ErrorContext → Option ErrorContext
expose_safe_context event code context =
    if not (same_text event "message.send") || not (is_forbidden code)
    then none
    else only_conversation context
