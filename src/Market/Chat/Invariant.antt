-- ===== src/Market/Chat/Invariant.antt =====
-- The invariant of Market.Chat.Tidy over any calls of src/chat/chat.service.ts, and what follows for
-- who may read and open a conversation.
use kayan_place.Prelude.{
  ℕ, ◌≡◌, ◌≤◌, Bool, true, ◌&&◌, List, [], ◌∷◌, Option, some, ◌==◌, arith, subst, sym, get_or, ltb,
  length, length-take-le, All, All-take,
}
use kayan_place.Prelude.Rows.{find_row, find_row-true, select_rows, All-select_rows, All-map}
use kayan_place.Prelude.Sort.{order_by, All-order_by}
use kayan_place.Database.{ok}
use kayan_place.Market.Tables.{MarketDb, ChatConversation, ChatMessage}
use kayan_place.Market.Chat.{list_messages, sent_before, page_of_messages}
use kayan_place.Market.Chat.Views.{is_conversation, is_participant, assert_conversation_participant}
use kayan_place.Market.Chat.Steps.{
  ChatCall, Step, fails, rests, finds, creates, attached, sends, reads,
}
use kayan_place.Market.Chat.Refines.{perform, perform-Step}
use kayan_place.Market.Chat.Sends.{assert_conversation_participant-ok}
use kayan_place.Market.Chat.Tidy.{
  Tidy, Tidy-later, Tidy-creates, Tidy-attached, Tidy-sends, Tidy-reads, WrittenIn,
}

abbrev pub TidyDb : MarketDb → Type 0
TidyDb s = Tidy s.conversations s.messages s.next_conversation s.next_message

-- Tables that are the same, with no lower identities to come.
kept-Tidy :
    (s t : MarketDb)
    → t.conversations ≡ s.conversations
    → t.messages ≡ s.messages
    → s.next_conversation ≤ t.next_conversation
    → s.next_message ≤ t.next_message
    → TidyDb s
    → TidyDb t
kept-Tidy s t e f p q v =
    rw (e, f)
      (Tidy-later s.conversations s.messages s.next_conversation s.next_message t.next_conversation
        t.next_message p q v)

pub Step-Tidy :
    {call : ChatCall} {done : Bool} (s t : MarketDb) → Step call done s t → TidyDb s → TidyDb t
Step-Tidy s t (fails threw e f p q) v = kept-Tidy s t e f p q v
Step-Tidy s t (rests n c e f p q) v = kept-Tidy s t e f (omega arith) (omega arith) v
Step-Tidy s t (finds u w a b given o c call order offer found had e f p q) v =
    kept-Tidy s t e f (omega arith) (omega arith) v
Step-Tidy s t (creates u w a b given p call (lt, users) offer gone e f g h) v =
    rw (e, f, g, h)
      (Tidy-creates s.conversations s.messages s.next_conversation s.next_message a b p s.clock lt
        gone v)
Step-Tidy s t (attached u w a b given p c call order offer found lacks e f g h) v =
    rw (e, f, g, h)
      (Tidy-attached s.conversations s.messages s.next_conversation s.next_message c.id (some p) v)
Step-Tidy s t (sends user k text c call sent found member worded e f g h) v =
    rw (e, f, g, h)
      (Tidy-sends s.conversations s.messages s.next_conversation s.next_message user k s.clock text
        c found member worded v)
Step-Tidy s t (reads user k m c call sent found there member other e f g h) v =
    rw (e, f, g, h)
      (Tidy-reads s.conversations s.messages s.next_conversation s.next_message k s.clock v)

unfoldable pub perform_all : (column_is : ℕ → ℕ → Bool) → List ChatCall → MarketDb → MarketDb
unfolding perform
perform_all column_is [] s = s
perform_all column_is (call ∷ calls) s = perform_all column_is calls (perform column_is call s)

-- Over any calls: the users of a conversation stand in order and are two, no two conversations are of
-- the same users or have the same id, every message is not blank and of a participant of its
-- conversation, and the last message of a conversation is one of its messages.
pub perform_all-Tidy :
    (column_is : ℕ → ℕ → Bool) (calls : List ChatCall) (s : MarketDb)
    → TidyDb s
    → TidyDb (perform_all column_is calls s)
unfolding perform_all
perform_all-Tidy column_is [] s v = v
perform_all-Tidy column_is (call ∷ calls) s v =
    perform_all-Tidy column_is calls (perform column_is call s)
      (Step-Tidy s (perform column_is call s) (perform-Step column_is call s) v)

list_messages-ok :
    (user k : ℕ) (limit before : Option ℕ) (s : MarketDb) {ms : List ChatMessage} {s' : MarketDb}
    → list_messages user k limit before s ≡ ok ms s'
    → (assert_conversation_participant k user s ≡ ok tt s)
      × (ms ≡ page_of_messages s k (get_or limit 20) before)
unfolding list_messages assert_conversation_participant
list_messages-ok user k limit before s {ms} {s'} h = (ground arith, ground arith)

-- What a message of a listing of the conversation `c` is.
abbrev pub ListedIn : ChatConversation → ChatMessage → Type 0
ListedIn c m = (m.conversation_id ≡ c.id) × (is_participant m.sender_id c ≡ true)

written-listed :
    (k : ℕ) (c : ChatConversation) (before : Option ℕ) (s : MarketDb) (m : ChatMessage)
    → find_row (is_conversation k) s.conversations ≡ some c
    → WrittenIn s.conversations m × ((m.conversation_id == k && sent_before before m) ≡ true)
    → ListedIn c m
written-listed k c before s m found ((d, e, member), t) =
    let here : m.conversation_id ≡ k = ground arith in
    let same : d ≡ c = ground arith in
    let id = find_row-true (is_conversation k) s.conversations found in
    (ground arith, subst (λ x. is_participant m.sender_id x ≡ true) same member)

-- Messages are listed to the participants of their conversation only: a listing that succeeds was
-- asked by one, all its messages are of the conversation and written by a participant of it, and
-- there are no more of them than the limit, or 20.
pub list_messages-ListedIn :
    (user k : ℕ) (limit before : Option ℕ) (s : MarketDb) {ms : List ChatMessage} {s' : MarketDb}
    → TidyDb s
    → list_messages user k limit before s ≡ ok ms s'
    → (c : ChatConversation) × (find_row (is_conversation k) s.conversations ≡ some c)
      × (is_participant user c ≡ true)
      × All (ListedIn c) ms
      × (length ms ≤ get_or limit 20)
list_messages-ListedIn user k limit before s {ms} {s'} v h =
    let (passed, page) = list_messages-ok user k limit before s {ms = ms} {s' = s'} h in
    let (c, found, member) = assert_conversation_participant-ok k user s passed in
    let test = λ (m : ChatMessage). m.conversation_id == k && sent_before before m in
    let older = λ (x y : ChatMessage). ltb y.sent_at x.sent_at in
    let chosen = select_rows test s.messages in
    let n = get_or limit 20 in
    let rows =
      All-map
        (λ m (p : WrittenIn s.conversations m × (test m ≡ true)).
          written-listed k c before s m found p)
        chosen (All-select_rows (WrittenIn s.conversations) test s.messages v.written) in
    (
      c,
      found,
      member,
      subst (All (ListedIn c)) (sym page) (
          All-take (ListedIn c) n (order_by older chosen)
            (All-order_by older (ListedIn c) chosen rows)),
      subst (λ rows. length rows ≤ n) (sym page) (length-take-le n (order_by older chosen)),
    )
