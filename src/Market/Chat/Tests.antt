-- ===== src/Market/Chat/Tests.antt =====
-- Runs of the chat on small tables.
use kayan_place.Prelude.{ℕ, ◌≡◌, refl, Bool, true, false, List, [], ◌∷◌, none, some, All, ◌≤◌}
use kayan_place.Prelude.Rows.{find_row}
use kayan_place.Prelude.Sort.{order_by}
use kayan_place.Database.{ok, err, state}
use kayan_place.Market.Tables.{MarketDb, ChatConversation}
use kayan_place.Market.Access.{assert_user_exists}
use kayan_place.Market.Samples.{market}
use kayan_place.Market.Chat.{
  get_or_create_conversation, send_message, mark_read, list_messages, is_blank,
}
use kayan_place.Market.Chat.Views.{
  conversation_view, is_conversation, is_participant, assert_conversation_participant,
  get_conversation_by_id, ConversationView,
}
use kayan_place.Market.Chat.Steps.{ChatCall, Step}
use kayan_place.Market.Chat.Refines.{perform, answers, perform-Step}
use kayan_place.Market.Chat.Invariant.{
  TidyDb, ListedIn, perform_all, perform_all-Tidy, list_messages-ListedIn,
}
use kayan_place.Market.Chat.Opening.{get_or_create-again}
use kayan_place.Market.Chat.Gateway.{ChatState, gateway_send, client_of}
use kayan_place.Market.Chat.Delivery.{ChatEvent, Guarded, happen_all, happen_all-Guarded}
use kayan_place.Market.Chat.Refusals.{told, refusal, gateway_send-told}

abbrev never : ℕ → ℕ → Bool
never column k = false

-- What the runs compute with.
service : Unit {0}
unfolding perform answers perform_all get_or_create_conversation send_message mark_read
    list_messages assert_user_exists assert_conversation_participant get_conversation_by_id is_blank
    order_by conversation_view
service = tt

abbrev calls : List ChatCall
calls =
    ChatCall.opens 1 2 none
    ∷ ChatCall.sends_text 1 1 "hello"
    ∷ ChatCall.waits 3
    ∷ ChatCall.sends_text 2 1 "hi"
    ∷ ChatCall.marks_read 1 2
    ∷ []

tidy : TidyDb market
tidy = record {
  ordered = tt;
  apart = tt;
  ids = tt;
  old_conversations = tt;
  old_messages = tt;
  written = tt;
  worded = tt;
  last = tt;
}

abbrev talked : MarketDb
talked = perform_all never calls market

perform_all-Tidy_example : TidyDb (perform_all never calls market)
perform_all-Tidy_example = perform_all-Tidy never calls market tidy

talked-tidy : TidyDb talked
talked-tidy = perform_all-Tidy never calls market tidy

abbrev opening : ChatCall
opening = ChatCall.opens 1 2 none

perform-Step_example : Step opening true market (perform never opening market)
unfolding service
perform-Step_example = perform-Step never opening market

abbrev opened : MarketDb
opened = state (get_or_create_conversation never 1 2 none market)

get_or_create-again_example :
    (again : ConversationView) × (get_or_create_conversation never 2 1 none opened
      ≡ ok again opened)
    × (again.id ≡ 1)
unfolding service
get_or_create-again_example =
    get_or_create-again never 1 2 none market {view = _} {s' = opened} tidy refl refl

list_messages-ListedIn_example :
    (c : ChatConversation) × (find_row (is_conversation 1) talked.conversations ≡ some c)
    × (is_participant 2 c ≡ true)
    × All
        (ListedIn c)
        (elim (list_messages 2 1 (some 1) none talked) [ ok ms s ↦ ms | err e s ↦ [] ])
    × (1 ≤ 1)
unfolding service
list_messages-ListedIn_example =
    list_messages-ListedIn 2 1 (some 1) none talked {ms = _} {s' = _} talked-tidy refl

abbrev quiet : ChatState
quiet = record {
  db = market;
  registry = record { has_server = true; sockets_by_user = []; members = []; emitted = [] };
  clients = [];
  next_socket = 1;
}

abbrev events : List ChatEvent
events =
    ChatEvent.connects (some "t")
    ∷ ChatEvent.starts 1 2 none
    ∷ ChatEvent.says 1 1 "hello"
    ∷ ChatEvent.disconnects 1
    ∷ []

happen_all-Guarded_example : Guarded (happen_all never (λ t. some 1) events quiet)
happen_all-Guarded_example =
    happen_all-Guarded never (λ t. some 1) events quiet
      (record { fresh = tt; seated = record { seats = tt; own = tt } })

gateway_send-told_example :
    told (gateway_send 1 1 "hello" quiet) ≡ refusal (client_of 1 quiet) 1 "hello" quiet.db
gateway_send-told_example = gateway_send-told 1 1 "hello" quiet
