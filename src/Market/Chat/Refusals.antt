-- ===== src/Market/Chat/Refusals.antt =====
-- Which refusal a client of src/chat/chat.gateway.ts is told by
-- src/chat/chat-ws-exception.filter.ts when it sends a message.
use kayan_place.Prelude.{
  ℕ, ◌≡◌, String, Bool, not, ◌||◌, Option, none, some, ◌==◌, arith, if◌then◌else◌, Option-cases,
  inl, inr,
}
use kayan_place.Prelude.Rows.{find_row, any_row}
use kayan_place.Database.{Outcome, ok, err}
use kayan_place.Market.Tables.{MarketDb, ChatConversation}
use kayan_place.Market.Chat.{send_message, is_blank}
use kayan_place.Market.Chat.Views.{is_conversation, is_participant, assert_conversation_participant}
use kayan_place.Market.Chat.Gateway.{ChatState, Client, gateway_send, get_user, client_of, publish}
use kayan_place.Market.Chat.Errors.{
  ChatErrorCode, code_unauthorized, code_forbidden, code_not_found, internal_error, normalize_error,
  exception,
}

-- The code of the envelope that a handler's exception becomes.
unfoldable pub told {ℓ κ} : {S : Type ℓ} {A : Type κ} → Outcome S A → Option ChatErrorCode
unfolding normalize_error
told (ok a s) = none
told (err e s) = some (normalize_error (exception e)).code

-- The first test that fails, in the order of the checks.
unfoldable pub first_refusal :
    (c : ChatConversation) → (user : ℕ) → (text : String) → (known : Bool) → Option ChatErrorCode
unfolding is_blank
first_refusal c user text known =
    if c.user_a_id == 0 || c.user_b_id == 0
    then some code_not_found
    else if not (is_participant user c)
    then some code_forbidden
    else if is_blank text
    then some internal_error
    else if not known
    then some code_not_found
    else none

unfoldable pub refusal_of : Option ChatConversation → ℕ → String → Bool → Option ChatErrorCode
unfolding first_refusal
refusal_of none user text known = some code_not_found
refusal_of (some c) user text known = first_refusal c user text known

unfoldable pub refusal : Option Client → ℕ → String → MarketDb → Option ChatErrorCode
unfolding refusal_of
refusal none k text s = some code_unauthorized
refusal (some c) k text s =
    refusal_of (find_row (is_conversation k) s.conversations) c.sub text
      (any_row (λ a. a.id == c.sub) s.accounts)

-- Sending a message over a socket fails just when one of these holds, and tells the first: the
-- socket has no user (unauthorized), the conversation is not there or its users are not positive
-- (not found), the user is not one of them (forbidden), the text is blank (an internal error), or
-- the user's row is gone (not found).
pub gateway_send-told :
    (socket k : ℕ) (text : String) (s : ChatState)
    → told (gateway_send socket k text s) ≡ refusal (client_of socket s) k text s.db
unfolding gateway_send get_user send_message assert_conversation_participant publish told refusal
gateway_send-told socket k text s = elim (Option-cases (client_of socket s)) [
  | inl n ↦ ground arith
  | inr (c, f) ↦ elim (Option-cases (find_row (is_conversation k) s.db.conversations)) [
    | inl n ↦ ground arith
    | inr (d, g) ↦ ground arith
  ]
]
