-- ===== src/Market/Chat/Delivery.antt =====
-- Events of src/chat/chat.gateway.ts and `createConversation` of src/chat/chat.controller.ts: only
-- participants of a conversation get into its room.
use kayan_place.Prelude.{
  ℕ, ◌≡◌, ◌<◌, refl, subst, get_or, String, Bool, List, [], ◌∷◌, ◌++◌, Option, none, some, arith,
  Option-cases, inl, inr, All, All-append,
}
use kayan_place.Prelude.Rows.{find_row, find_row-append, find_row-update_rows, All-map}
use kayan_place.Database.{Exec, ok, err, state, Outcome, and_then, pure, ◌>>=◌, ◌>>◌}
use kayan_place.Market.Tables.{MarketDb, ChatConversation, ChatMessage}
use kayan_place.Market.Access.{to_positive_int}
use kayan_place.Market.Chat.{send_message, mark_read, get_or_create_conversation}
use kayan_place.Market.Chat.Views.{
  is_conversation, is_message, assert_conversation_participant, get_conversation_by_id,
  get_conversation_participants, Participants,
}
use kayan_place.Market.Chat.Sends.{
  send_message-Step, mark_read-Step, assert_conversation_participant-ok,
  assert_conversation_participant-state,
}
use kayan_place.Market.Chat.Opens.{get_or_create-Step, get_conversation_by_id-state}
use kayan_place.Market.Chat.Registry.{
  Registry, EventName, message_received, message_read, conversation_joined, join_room,
}
use kayan_place.Market.Chat.Gateway.{
  Client, ChatState, handle_connection, handle_disconnect, join_conversation, gateway_send,
  gateway_read, create_conversation, announce, get_user, client_of, publish, on_db, lift_db,
  require_client, accept, subject, drop_client,
}
use kayan_place.Market.Chat.Rooms.{
  HasClient, TakesPart, Seat, OwnSockets, Seated, Lasts, Step-Lasts, Seated-Lasts, is_client,
}
use kayan_place.Market.Chat.Seats.{
  join_room-Seated, emit_to-Seated, register-Seated, unregister-Seated, emit_joined-Seated,
}

-- The connected sockets are before the next one, and every member of a room is seated.
pub record Guarded (s : ChatState) : Type 0 where
  pub fresh : All (λ (c : Client). c.socket < s.next_socket) s.clients
  pub seated : Seated s.db.conversations s.clients s.registry

send_message-member :
    (user k : ℕ) (text : String) (s : MarketDb) {m : ChatMessage} {t : MarketDb}
    → send_message user k text s ≡ ok m t
    → TakesPart s.conversations user k
unfolding send_message assert_conversation_participant
send_message-member user k text s {m} {t} h =
    assert_conversation_participant-ok k user s (ground arith)

mark_read-member :
    (user k : ℕ) (s : MarketDb) {m : ChatMessage} {t : MarketDb}
    → mark_read user k s ≡ ok m t
    → TakesPart s.conversations user m.conversation_id
unfolding mark_read assert_conversation_participant
mark_read-member user k s {m} {t} h = elim (Option-cases (find_row (is_message k) s.messages)) [
  | inl n ↦ absurd (ground arith)
  | inr (o, f) ↦
      let passed : assert_conversation_participant o.conversation_id user s ≡ ok tt s =
        ground arith in
      let kept =
        find_row-update_rows (is_message k) (is_message k)
          (λ x. record x { read_at = some (get_or x.read_at s.clock) }) (λ x. refl) s.messages f in
      let same : m.conversation_id ≡ o.conversation_id = ground (arith, kept) in
      rw same (assert_conversation_participant-ok o.conversation_id user s passed)
]

-- A room is joined and told, after a step of the tables.
publish-Guarded :
    (event : EventName) (user room socket : ℕ) (s : ChatState)
    → HasClient s.clients user socket
    → TakesPart s.db.conversations user room
    → Guarded s
    → Guarded (state (publish event room socket s))
unfolding publish
publish-Guarded event user room socket s has part v = record {
  fresh = v.fresh;
  seated =
      emit_to-Seated s.db.conversations s.clients (join_room room socket s.registry) event room (
        join_room-Seated s.db.conversations s.clients s.registry user room socket has part
          v.seated);
}

stepped :
    (s : ChatState) (db : MarketDb)
    → Lasts s.db.conversations db.conversations
    → Guarded s
    → Guarded (record s { db = db })
stepped s db lasts v = record {
  fresh = v.fresh;
  seated = Seated-Lasts s.db.conversations db.conversations s.clients s.registry lasts v.seated;
}

module _ {A B : Type 0} where
  -- A method of the service, and what follows if it returns.
  db_then :
      (m : Exec MarketDb A) (f : A → Exec ChatState B) (s : ChatState)
      → Guarded s
      → Lasts s.db.conversations (state (m s.db)).conversations
      → ((a : A) (t : MarketDb)
          → m s.db ≡ ok a t
          → Guarded (record s { db = t })
          → Guarded (state (f a (record s { db = t }))))
      → Guarded (state ((on_db m >>= f) s))
  db_then m f s v lasts next = go (m s.db) refl
    where
      go : (o : Outcome MarketDb A) → m s.db ≡ o → Guarded (state (and_then (lift_db s o) f))
      go (ok a t) e = next a t e (
          stepped s t
            (subst (λ (x : Outcome MarketDb A). Lasts s.db.conversations (state x).conversations) e
              lasts)
            v)
      go (err x t) e =
          stepped s t
            (subst (λ (y : Outcome MarketDb A). Lasts s.db.conversations (state y).conversations) e
              lasts)
            v

module _ {B : Type 0} where
  -- The user of the socket, and what follows.
  user_then :
      (socket : ℕ) (f : ℕ → Exec ChatState B) (s : ChatState)
      → Guarded s
      → ((u : ℕ) → HasClient s.clients u socket → Guarded (state (f u s)))
      → Guarded (state ((get_user socket >>= f) s))
  unfolding get_user
  user_then socket f s v next = go (client_of socket s) refl
    where
      go :
          (o : Option Client)
          → client_of socket s ≡ o
          → Guarded (state (and_then (require_client o s) f))
      go none e = v
      go (some c) e = next c.sub (c, e, refl)

send-Lasts :
    (u k : ℕ) (text : String) (s : MarketDb)
    → Lasts s.conversations (state (send_message u k text s)).conversations
send-Lasts u k text s =
    Step-Lasts s (state (send_message u k text s)) (send_message-Step u k text s)

gateway_send-Guarded :
    (socket k : ℕ) (text : String) (s : ChatState)
    → Guarded s
    → Guarded (state (gateway_send socket k text s))
unfolding gateway_send publish
gateway_send-Guarded socket k text s v = user_then socket _ s v (λ u has.
    db_then (send_message u k text) _ s v (send-Lasts u k text s.db) (λ m t e w.
      let part = send_message-member u k text s.db {m = m} {t = t} e in
      let later =
        subst (λ (y : Outcome MarketDb ChatMessage). TakesPart (state y).conversations u k) e
          (send-Lasts u k text s.db u k part) in
      publish-Guarded message_received u k socket (record s { db = t }) has later w))

read-Lasts :
    (u k : ℕ) (s : MarketDb) → Lasts s.conversations (state (mark_read u k s)).conversations
read-Lasts u k s = Step-Lasts s (state (mark_read u k s)) (mark_read-Step u k s)

gateway_read-Guarded :
    (socket k : ℕ) (s : ChatState) → Guarded s → Guarded (state (gateway_read socket k s))
unfolding gateway_read publish
gateway_read-Guarded socket k s v = user_then socket _ s v (λ u has.
    db_then (mark_read u k) _ s v (read-Lasts u k s.db) (λ m t e w.
      let part = mark_read-member u k s.db {m = m} {t = t} e in
      let later =
        subst
          (λ (y : Outcome MarketDb ChatMessage).
            TakesPart (state y).conversations u m.conversation_id)
          e (read-Lasts u k s.db u m.conversation_id part) in
      publish-Guarded message_read u m.conversation_id socket (record s { db = t }) has later w))

same-Lasts : (s t : MarketDb) → t ≡ s → Lasts s.conversations t.conversations
same-Lasts s t e user k part = rw e part

join_conversation-Guarded :
    (socket k : ℕ) (s : ChatState) → Guarded s → Guarded (state (join_conversation socket k s))
unfolding join_conversation publish
join_conversation-Guarded socket k s v = user_then socket _ s v (λ u has.
    db_then (assert_conversation_participant k u) _ s v
      (same-Lasts s.db _ (assert_conversation_participant-state k u s.db))
      (λ done t e w.
        let here : t ≡ s.db = ground (arith, assert_conversation_participant-state k u s.db) in
        let part = assert_conversation_participant-ok k u s.db (ground arith) in
        db_then (get_conversation_by_id u k) _ (record s { db = t }) w
          (same-Lasts t _ (get_conversation_by_id-state u k t))
          (λ view t' e' w'.
            let there : t' ≡ s.db = ground (arith, get_conversation_by_id-state u k t) in
            publish-Guarded conversation_joined u k socket (record s { db = t' }) has
              (same-Lasts s.db t' there u k part) w')))

participants-ok :
    (k : ℕ) (s : MarketDb) {p : Participants} {t : MarketDb}
    → get_conversation_participants k s ≡ ok p t
    → (t ≡ s) × TakesPart s.conversations p.user_a_id k × TakesPart s.conversations p.user_b_id k
unfolding get_conversation_participants
participants-ok k s {p} {t} h = elim (Option-cases (find_row (is_conversation k) s.conversations)) [
  | inl n ↦ absurd (ground arith)
  | inr (c, f) ↦ (ground arith, (c, f, ground arith), (c, f, ground arith))
]

get_conversation_participants-state :
    (k : ℕ) (s : MarketDb) → state (get_conversation_participants k s) ≡ s
unfolding get_conversation_participants
get_conversation_participants-state k s = ground arith

announce-Guarded : (k : Option ℕ) (s : ChatState) → Guarded s → Guarded (state (announce k s))
unfolding announce
announce-Guarded none s v = v
announce-Guarded (some k) s v =
    db_then (get_conversation_participants k) _ s v
      (same-Lasts s.db _ (get_conversation_participants-state k s.db))
      (λ p t e w.
        let (same, a, b) = participants-ok k s.db {p = p} {t = t} e in
        record {
          fresh = w.fresh;
          seated =
              emit_joined-Seated t.conversations s.clients k (p.user_a_id ∷ p.user_b_id ∷ [])
                s.registry
                (
                  same-Lasts s.db t same p.user_a_id k a,
                  (same-Lasts s.db t same p.user_b_id k b, tt),
                )
                w.seated;
        })

then_pure :
    {A : Type 0} (m : Exec ChatState (Unit {0})) (a : A) (s : ChatState)
    → Guarded (state (m s))
    → Guarded (state ((m >> pure a) s))
then_pure m a s v = go (m s) v
  where
    go :
        (o : Outcome ChatState (Unit {0}))
        → Guarded (state o)
        → Guarded (state (and_then o (λ _. pure a)))
    go (ok x t) w = w
    go (err x t) w = w

client-new :
    (n : ℕ) (c : Client) (cs : List Client)
    → c.socket ≡ n
    → All (λ (x : Client). x.socket < n) cs
    → find_row (is_client n) (cs ++ c ∷ []) ≡ some c
client-new n c [] e h = ground arith
client-new n c (x ∷ cs) e (p, h) = ground (arith, client-new n c cs e h)

-- A new client changes nothing for those before it.
grown :
    (cs : List ChatConversation) (clients : List Client) (c : Client) (r : Registry)
    → Seated cs clients r
    → Seated cs (clients ++ c ∷ []) r
grown cs clients c r v = record {
  seats =
      All-map
        (λ m (h : Seat cs clients m).
          (h.0, (h.1.0, find_row-append (is_client m.socket) clients (c ∷ []) h.1.1, h.1.2), h.2))
        r.members v.seats;
  own =
      All-map
        (λ e (h : OwnSockets clients e).
          All-map
            (λ x (g : HasClient clients e.0 x).
              (g.0, find_row-append (is_client x) clients (c ∷ []) g.1, g.2))
            e.1 h)
        r.sockets_by_user v.own;
}

accept-Guarded : (sub : Option ℕ) (s : ChatState) → Guarded s → Guarded (accept sub s)
unfolding accept
accept-Guarded none s v = record {
  fresh = All-map (λ c (h : c.socket < s.next_socket). omega arith) s.clients v.fresh;
  seated = v.seated;
}
accept-Guarded (some sub) s v =
    let c : Client = record { socket = s.next_socket; sub = sub } in
    record {
      fresh =
          All-append _ s.clients (c ∷ [])
            (All-map (λ x (h : x.socket < s.next_socket). omega arith) s.clients v.fresh)
            (omega arith, tt);
      seated =
          register-Seated s.db.conversations (s.clients ++ c ∷ []) s.registry sub s.next_socket
            (c, client-new s.next_socket c s.clients refl v.fresh, refl)
            (grown s.db.conversations s.clients c s.registry v.seated);
    }

drop-Guarded : (c : Option Client) (s : ChatState) → Guarded s → Guarded (drop_client c s)
unfolding drop_client
drop-Guarded none s v = v
drop-Guarded (some c) s v = record {
  fresh = v.fresh;
  seated = unregister-Seated s.db.conversations s.clients s.registry c.sub c.socket v.seated;
}

module _ (column_is : ℕ → ℕ → Bool) where
  create_conversation-Guarded :
      (user participant : ℕ) (product_id : Option ℕ) (s : ChatState)
      → Guarded s
      → Guarded (state (create_conversation column_is user participant product_id s))
  unfolding create_conversation
  create_conversation-Guarded user participant product_id s v =
      let open_it = get_or_create_conversation column_is user participant product_id in
      db_then open_it _ s v
        (Step-Lasts s.db (state (open_it s.db))
          (get_or_create-Step column_is user participant product_id s.db))
        (λ view t e w.
          then_pure (announce (to_positive_int view.id)) view (record s { db = t })
            (announce-Guarded (to_positive_int view.id) (record s { db = t }) w))

-- What the clients of the chat do, over sockets and, to open a conversation, over HTTP.
pub data ChatEvent : Type 0 where
  connects : Option String → ChatEvent
  disconnects : (socket : ℕ) → ChatEvent
  joins : (socket conversation_id : ℕ) → ChatEvent
  says : (socket conversation_id : ℕ) → String → ChatEvent
  sees : (socket message_id : ℕ) → ChatEvent
  starts : (user participant : ℕ) → Option ℕ → ChatEvent

module _ (column_is : ℕ → ℕ → Bool) (verify : String → Option ℕ) where
  unfoldable pub happen : ChatEvent → ChatState → ChatState
  unfolding handle_connection handle_disconnect join_conversation gateway_send gateway_read
      create_conversation
  happen (connects token) s = state (handle_connection verify token s)
  happen (disconnects socket) s = state (handle_disconnect socket s)
  happen (joins socket k) s = state (join_conversation socket k s)
  happen (says socket k text) s = state (gateway_send socket k text s)
  happen (sees socket k) s = state (gateway_read socket k s)
  happen (starts user participant product_id) s =
      state (create_conversation column_is user participant product_id s)

  unfoldable pub happen_all : List ChatEvent → ChatState → ChatState
  unfolding happen
  happen_all [] s = s
  happen_all (e ∷ es) s = happen_all es (happen e s)

  happen-Guarded : (e : ChatEvent) (s : ChatState) → Guarded s → Guarded (happen e s)
  unfolding happen handle_connection handle_disconnect
  happen-Guarded (connects none) s v = accept-Guarded none s v
  happen-Guarded (connects (some token)) s v = accept-Guarded (subject (verify token)) s v
  happen-Guarded (disconnects socket) s v = drop-Guarded (client_of socket s) s v
  happen-Guarded (joins socket k) s v = join_conversation-Guarded socket k s v
  happen-Guarded (says socket k text) s v = gateway_send-Guarded socket k text s v
  happen-Guarded (sees socket k) s v = gateway_read-Guarded socket k s v
  happen-Guarded (starts user participant product_id) s v =
      create_conversation-Guarded column_is user participant product_id s v

  -- Over any events, from a state where it is so: every socket in the room of a conversation was
  -- accepted for a user who takes part in that conversation, so what is told to a room reaches
  -- participants only; and the registry lists a socket only under the user that it was accepted for.
  pub happen_all-Guarded :
      (events : List ChatEvent) (s : ChatState) → Guarded s → Guarded (happen_all events s)
  unfolding happen_all
  happen_all-Guarded [] s v = v
  happen_all-Guarded (e ∷ es) s v = happen_all-Guarded es (happen e s) (happen-Guarded e s v)
