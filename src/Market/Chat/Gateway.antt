-- ===== src/Market/Chat/Gateway.antt =====
-- `ChatGateway` of src/chat/chat.gateway.ts and `createConversation` of src/chat/chat.controller.ts:
-- the service over the database, and the registry of sockets.
use kayan_place.Prelude.{ℕ, suc, String, Bool, List, [], ◌∷◌, ◌++◌, Option, none, some, ◌==◌}
use kayan_place.Prelude.Rows.{find_row}
use kayan_place.Database.{
  Exec, Outcome, ok, err, fixed, unauthorized, pure, raise, gets, modify, ◌>>=◌, ◌>>◌,
}
use kayan_place.Market.Tables.{MarketDb, ChatMessage}
use kayan_place.Market.Access.{to_positive_int}
use kayan_place.Market.Chat.{get_or_create_conversation, send_message, mark_read}
use kayan_place.Market.Chat.Views.{
  get_conversation_by_id, get_conversation_participants, assert_conversation_participant,
  ConversationView,
}
use kayan_place.Market.Chat.Registry.{
  Registry, EventName, conversation_joined, message_received, message_read, register_user_socket,
  unregister_user_socket, join_room, emit_to, emit_conversation_joined_to_participants,
}

-- `client.data.user` of a connected socket.
pub record Client : Type 0 where
  pub socket : ℕ
  pub sub : ℕ

pub record ChatState : Type 0 where
  pub db : MarketDb
  pub registry : Registry
  pub clients : List Client
  -- the number of the next connection
  pub next_socket : ℕ

abbrev pub lift_db {ℓ} : {A : Type ℓ} → ChatState → Outcome MarketDb A → Outcome ChatState A
lift_db s (ok a t) = ok a (record s { db = t })
lift_db s (err e t) = err e (record s { db = t })

-- A method of the service, on the whole state.
abbrev pub on_db {ℓ} : {A : Type ℓ} → Exec MarketDb A → Exec ChatState A
on_db m s = lift_db s (m s.db)

abbrev pub on_registry : (Registry → Registry) → Exec ChatState (Unit {0})
on_registry f = modify (λ s. record s { registry = f s.registry })

unfoldable pub accept : Option ℕ → ChatState → ChatState
unfolding register_user_socket
accept none s = record s { next_socket = suc s.next_socket }
accept (some sub) s = record s {
  registry = register_user_socket sub s.next_socket s.registry;
  clients = s.clients ++ record { socket = s.next_socket; sub = sub } ∷ [];
  next_socket = suc s.next_socket;
}

abbrev pub subject : Option ℕ → Option ℕ
subject none = none
subject (some sub) = to_positive_int sub

-- `verify token` is the subject of a token that JWT accepts. A client that is not accepted is
-- disconnected.
unfoldable pub handle_connection :
    (verify : String → Option ℕ) → Option String → Exec ChatState (Unit {0})
unfolding accept
handle_connection verify none = modify (accept none)
handle_connection verify (some token) = modify (accept (subject (verify token)))

abbrev pub client_of : ℕ → ChatState → Option Client
client_of socket s = find_row (λ c. c.socket == socket) s.clients

unfoldable pub drop_client : Option Client → ChatState → ChatState
unfolding unregister_user_socket
drop_client none s = s
drop_client (some c) s = record s { registry = unregister_user_socket c.sub c.socket s.registry }

unfoldable pub handle_disconnect : ℕ → Exec ChatState (Unit {0})
unfolding drop_client
handle_disconnect socket = modify (λ s. drop_client (client_of socket s) s)

abbrev pub require_client : Option Client → Exec ChatState ℕ
require_client none = raise (unauthorized (fixed "Unauthorized"))
require_client (some c) = pure c.sub

unfoldable pub get_user : ℕ → Exec ChatState ℕ
get_user socket = do found ← gets (client_of socket); require_client found

unfoldable pub publish : EventName → (room socket : ℕ) → Exec ChatState (Unit {0})
unfolding join_room emit_to
publish event room socket = do on_registry (join_room room socket); on_registry (emit_to event room)

unfoldable pub join_conversation : (socket conversation_id : ℕ) → Exec ChatState (Unit {0})
unfolding get_user assert_conversation_participant get_conversation_by_id publish
join_conversation socket conversation_id = do
  user ← get_user socket
  on_db (assert_conversation_participant conversation_id user)
  conversation ← on_db (get_conversation_by_id user conversation_id)
  publish conversation_joined conversation_id socket

unfoldable pub gateway_send : (socket conversation_id : ℕ) → String → Exec ChatState ChatMessage
unfolding get_user send_message publish
gateway_send socket conversation_id text = do
  user ← get_user socket
  message ← on_db (send_message user conversation_id text)
  publish message_received conversation_id socket
  pure message

unfoldable pub gateway_read : (socket message_id : ℕ) → Exec ChatState ChatMessage
unfolding get_user mark_read publish
gateway_read socket message_id = do
  user ← get_user socket
  message ← on_db (mark_read user message_id)
  publish message_read message.conversation_id socket
  pure message

unfoldable pub announce : Option ℕ → Exec ChatState (Unit {0})
unfolding get_conversation_participants emit_conversation_joined_to_participants
announce none = pure tt
announce (some conversation_id) = do
  participants ← on_db (get_conversation_participants conversation_id)
  on_registry (
      emit_conversation_joined_to_participants conversation_id
        (participants.user_a_id ∷ participants.user_b_id ∷ []))

-- `if (Number.isInteger(conversationId) && conversationId > 0)`
unfoldable pub create_conversation :
    (column_is : ℕ → ℕ → Bool)
    → (user_id participant_id : ℕ) → Option ℕ
    → Exec ChatState ConversationView
unfolding get_or_create_conversation announce
create_conversation column_is user_id participant_id product_id = do
  conversation ← on_db (get_or_create_conversation column_is user_id participant_id product_id)
  announce (to_positive_int conversation.id)
  pure conversation
