-- ===== src/Market/Chat.antt =====
-- `ChatService` of src/chat/chat.service.ts.
pub mod Views
pub mod Registry
pub mod Gateway
pub mod Errors
pub mod Steps
pub mod Sends
pub mod Opens
pub mod Refines
pub mod Tidy
pub mod Invariant
pub mod Opening
pub mod Rooms
pub mod Seats
pub mod Delivery
pub mod Refusals
mod Tests
use Prim.Native.Char.{code}
use Prim.Native.String
use kayan_place.Prelude.{
  ℕ, suc, String, Bool, true, false, not, ◌&&◌, ◌||◌, List, [], ◌∷◌, ◌++◌, Option, none, some, ◌==◌,
  ltb, is_some, take, if◌then◌else◌, get_or,
}
use kayan_place.Prelude.Rows.{find_row, select_rows, update_rows, any_row}
use kayan_place.Prelude.Sort.{order_by}
use kayan_place.Database.{
  Exec, Error, SqlState, database, fixed, bad_request, not_found, forbidden, type_error, pure,
  raise, raise_if, gets, modify, ◌>>=◌, ◌>>◌,
}
use kayan_place.Market.Tables.{MarketDb, ChatConversation, ChatMessage, Listing, ListingStatus}
use kayan_place.Market.Access.{to_positive_int, assert_user_exists}
use kayan_place.Market.Users.Profiles.{is_available}
use kayan_place.Market.Chat.Views.{
  is_conversation, is_message, get_conversation_by_id, assert_conversation_participant,
  ConversationView,
}

-- userId < participantId ? [userId, participantId] : [participantId, userId]
abbrev pub first_of : ℕ → ℕ → ℕ
first_of a b = if ltb a b then a else b

abbrev pub second_of : ℕ → ℕ → ℕ
second_of a b = if ltb a b then b else a

abbrev pub is_between : (a b : ℕ) → ChatConversation → Bool
is_between a b c = c.user_a_id == a && c.user_b_id == b

abbrev pub new_conversation : (a b : ℕ) → Option ℕ → (id created_at : ℕ) → ChatConversation
new_conversation a b product_id id created_at = record {
  id = id;
  user_a_id = a;
  user_b_id = b;
  product_id = product_id;
  last_message_id = none;
  created_at = created_at;
}

abbrev pub insert_conversation : (a b : ℕ) → Option ℕ → Exec MarketDb ℕ
insert_conversation a b product_id = do
  id ← gets (λ s. s.next_conversation)
  modify (λ s. record s {
    sequences = record s.sequences { next_conversation = suc s.next_conversation };
  })
  known ← gets (λ s. any_row (λ x. x.id == a) s.accounts && any_row (λ x. x.id == b) s.accounts)
  raise_if (not known) (not_found (fixed "Participant or product not found"))
  modify (λ s. record s {
    conversations = s.conversations ++ new_conversation a b product_id id s.clock ∷ [];
  })
  pure id

-- `if (validatedProductId && !conversation.product_id)`
abbrev pub attaches : Option ℕ → ChatConversation → Bool
attaches product_id c = is_some product_id && not (is_some c.product_id)

abbrev pub attach_product : Option ℕ → ChatConversation → MarketDb → MarketDb
attach_product product_id c s = record s {
  conversations =
      if attaches product_id c
      then update_rows (is_conversation c.id) (λ d. record d { product_id = product_id })
          s.conversations
      else s.conversations;
}

abbrev pub reuse_or_insert : (a b : ℕ) → Option ℕ → Option ChatConversation → Exec MarketDb ℕ
reuse_or_insert a b product_id none = insert_conversation a b product_id
reuse_or_insert a b product_id (some c) = do modify (attach_product product_id c); pure c.id

-- `column_is column k` is `===` of a BIGINT column as the driver gives it, and a number.
module _ (column_is : ℕ → ℕ → Bool) where
  abbrev pub check_product :
      (user_id participant_id product_id : ℕ) → Option Listing → Exec MarketDb (Option ℕ)
  check_product user_id participant_id product_id none =
      raise (not_found (fixed "Product not found"))
  check_product user_id participant_id product_id (some p) = do
    raise_if
        (not (is_available p.status)
          && not (column_is p.owner_id user_id || column_is p.owner_id participant_id))
        (forbidden (fixed "Product is not available for conversation"))
    pure (some product_id)

  abbrev validate_given : (user_id participant_id : ℕ) → Option ℕ → Exec MarketDb (Option ℕ)
  validate_given user_id participant_id none = pure none
  validate_given user_id participant_id (some product_id) = do
    found ← gets (λ s. find_row (λ p. p.id == product_id && not (is_some p.deleted_at)) s.listings)
    check_product user_id participant_id product_id found

  abbrev nonzero : Option ℕ → Option ℕ
  nonzero none = none
  nonzero (some k) = to_positive_int k

  -- `if (productId) { … }`
  abbrev pub validate_product : (user_id participant_id : ℕ) → Option ℕ → Exec MarketDb (Option ℕ)
  validate_product user_id participant_id product_id =
      validate_given user_id participant_id (nonzero product_id)

  unfoldable pub get_or_create_conversation :
      (user_id participant_id : ℕ) → Option ℕ → Exec MarketDb ConversationView
  unfolding assert_user_exists get_conversation_by_id
  get_or_create_conversation user_id participant_id product_id = do
    raise_if (user_id == participant_id)
        (bad_request (fixed "Cannot start conversation with yourself"))
    assert_user_exists participant_id "Participant not found"
    validated ← validate_product user_id participant_id product_id
    existing ← gets (λ s.
        find_row (is_between (first_of user_id participant_id) (second_of user_id participant_id))
          s.conversations)
    id ←
        reuse_or_insert (first_of user_id participant_id) (second_of user_id participant_id)
          validated existing
    get_conversation_by_id user_id id

abbrev pub sent_before : Option ℕ → ChatMessage → Bool
sent_before none m = true
sent_before (some t) m = ltb m.sent_at t

abbrev pub page_of_messages : MarketDb → ℕ → (limit : ℕ) → Option ℕ → List ChatMessage
page_of_messages s conversation_id limit before = take limit (
    order_by (λ a b. ltb b.sent_at a.sent_at)
      (select_rows (λ m. m.conversation_id == conversation_id && sent_before before m) s.messages))

unfoldable pub list_messages :
    (user_id conversation_id : ℕ) → (limit before : Option ℕ) → Exec MarketDb (List ChatMessage)
unfolding assert_conversation_participant
list_messages user_id conversation_id limit before = do
  assert_conversation_participant conversation_id user_id
  gets (λ s. page_of_messages s conversation_id (get_or limit 20) before)

-- NOT LENGTH(BTRIM(message_text)) > 0
unfoldable pub is_blank : String → Bool
is_blank String.[] = true
is_blank (String.◌∷◌ c cs) = code c == 32 && is_blank cs

abbrev pub new_message : (user_id conversation_id : ℕ) → String → (id sent_at : ℕ) → ChatMessage
new_message user_id conversation_id text id sent_at = record {
  id = id;
  conversation_id = conversation_id;
  sender_id = user_id;
  message_text = text;
  sent_at = sent_at;
  read_at = none;
}

-- INSERT INTO messages: the check, then the references, and the identity is drawn in any case.
abbrev pub insert_message : (user_id conversation_id : ℕ) → String → Exec MarketDb ChatMessage
unfolding is_blank
insert_message user_id conversation_id text = do
  message ← gets (λ s. new_message user_id conversation_id text s.next_message s.clock)
  modify (λ s. record s { sequences = record s.sequences { next_message = suc s.next_message } })
  raise_if (is_blank text) (database SqlState.check_violation)
  known ← gets (λ s. any_row (λ a. a.id == user_id) s.accounts)
  raise_if (not known) (not_found (fixed "Conversation not found"))
  modify (λ s. record s { messages = s.messages ++ message ∷ [] })
  pure message

abbrev pub set_last : ℕ → ℕ → MarketDb → MarketDb
set_last conversation_id message_id s = record s {
  conversations =
      update_rows (is_conversation conversation_id)
        (λ c. record c { last_message_id = some message_id }) s.conversations;
}

unfoldable pub send_message : (user_id conversation_id : ℕ) → String → Exec MarketDb ChatMessage
unfolding assert_conversation_participant is_blank
send_message user_id conversation_id text = do
  assert_conversation_participant conversation_id user_id
  message ← insert_message user_id conversation_id text
  modify (set_last conversation_id message.id)
  pure message

abbrev invalid_ownership : Error
invalid_ownership = not_found (fixed "Message has invalid ownership data")

-- SET read_at = COALESCE(read_at, NOW())
abbrev pub set_read : ℕ → MarketDb → MarketDb
set_read message_id s = record s {
  messages =
      update_rows (is_message message_id)
        (λ m. record m { read_at = some (get_or m.read_at s.clock) }) s.messages;
}

abbrev pub returned_message : Option ChatMessage → Exec MarketDb ChatMessage
returned_message none = raise type_error
returned_message (some m) = pure m

abbrev pub read_as : (user_id message_id : ℕ) → Option ℕ → Option ℕ → Exec MarketDb ChatMessage
unfolding assert_conversation_participant
read_as user_id message_id (some conversation_id) (some sender_id) = do
  assert_conversation_participant conversation_id user_id
  raise_if (sender_id == user_id) (forbidden (fixed "Only recipients can mark messages as read"))
  modify (set_read message_id)
  row ← gets (λ s. find_row (is_message message_id) s.messages)
  returned_message row
read_as user_id message_id _ _ = raise invalid_ownership

abbrev pub read_message : (user_id message_id : ℕ) → Option ChatMessage → Exec MarketDb ChatMessage
unfolding assert_conversation_participant
read_message user_id message_id none = raise (not_found (fixed "Message not found"))
read_message user_id message_id (some m) =
    read_as user_id message_id (to_positive_int m.conversation_id) (to_positive_int m.sender_id)

unfoldable pub mark_read : (user_id message_id : ℕ) → Exec MarketDb ChatMessage
unfolding assert_conversation_participant
mark_read user_id message_id = do
  found ← gets (λ s. find_row (is_message message_id) s.messages)
  read_message user_id message_id found
