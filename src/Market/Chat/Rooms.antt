-- ===== src/Market/Chat/Rooms.antt =====
-- Who is in the rooms of src/chat/chat.gateway.ts: what each operation of
-- src/chat/chat-socket-registry.service.ts keeps.
use kayan_place.Prelude.{
  ℕ, ◌≡◌, refl, ap, Bool, true, List, [], ◌∷◌, some, ◌==◌, arith, Bool-cases, inl, inr, All,
}
use kayan_place.Prelude.Rows.{find_row, update_rows, find_row-append, find_row-update_rows, All-map}
use kayan_place.Market.Tables.{MarketDb, ChatConversation}
use kayan_place.Market.Chat.Views.{is_conversation, is_participant}
use kayan_place.Market.Chat.Steps.{
  ChatCall, Step, fails, rests, finds, creates, attached, sends, reads, with_product, with_last,
}
use kayan_place.Market.Chat.{new_conversation}
use kayan_place.Market.Chat.Registry.{Registry, Membership}
use kayan_place.Market.Chat.Gateway.{Client}

abbrev pub is_client : ℕ → Client → Bool
is_client x c = c.socket == x

-- The socket was accepted for this user.
abbrev pub HasClient : List Client → (user socket : ℕ) → Type 0
HasClient clients user x = (c : Client) × (find_row (is_client x) clients ≡ some c) × (c.sub ≡ user)

-- The user takes part in the conversation.
abbrev pub TakesPart : List ChatConversation → (user k : ℕ) → Type 0
TakesPart cs user k =
    (c : ChatConversation) × (find_row (is_conversation k) cs ≡ some c)
    × (is_participant user c ≡ true)

-- A member of a room was accepted for a user who takes part in the conversation.
abbrev pub Seat : List ChatConversation → List Client → Membership → Type 0
Seat cs clients m = (user : ℕ) × HasClient clients user m.socket × TakesPart cs user m.room

-- The sockets of a user were accepted for this user.
abbrev pub OwnSockets : List Client → ℕ × List ℕ → Type 0
OwnSockets clients e = All (HasClient clients e.0) e.1

pub record Seated (cs : List ChatConversation) (clients : List Client) (r : Registry) : Type 0 where
  pub seats : All (Seat cs clients) r.members
  pub own : All (OwnSockets clients) r.sockets_by_user

-- Conversations stay, with their users.
abbrev pub Lasts : List ChatConversation → List ChatConversation → Type 0
Lasts cs ds = (user k : ℕ) → TakesPart cs user k → TakesPart ds user k

update-Lasts :
    (p : ChatConversation → Bool) (f : ChatConversation → ChatConversation)
    → ((c : ChatConversation) → (f c).id ≡ c.id)
    → ((c : ChatConversation) → (f c).user_a_id ≡ c.user_a_id)
    → ((c : ChatConversation) → (f c).user_b_id ≡ c.user_b_id)
    → (cs : List ChatConversation) → Lasts cs (update_rows p f cs)
update-Lasts p f same a b cs user k (c, e, h) =
    let kept = find_row-update_rows (is_conversation k) p f (λ d. ap (λ i. i == k) (same d)) cs e in
    elim (Bool-cases (p c)) [
      | inl t ↦ (f c, ground (arith, kept, t), rw (a c, b c) h)
      | inr t ↦ (c, ground (arith, kept, t), h)
    ]

pub Step-Lasts :
    {call : ChatCall} {done : Bool} (s t : MarketDb)
    → Step call done s t
    → Lasts s.conversations t.conversations
Step-Lasts s t (fails threw e f p q) user k took = rw e took
Step-Lasts s t (rests n c e f p q) user k took = rw e took
Step-Lasts s t (finds u v a b given o c call order offer found had e f p q) user k took = rw e took
Step-Lasts s t (creates u v a b given p call order offer gone e f g h) user k (c, found, member) =
    rw e (
      c,
      find_row-append (is_conversation k) s.conversations
          (new_conversation a b p s.next_conversation s.clock ∷ []) found,
      member,
    )
Step-Lasts s t (attached u v a b given p c call order offer found lacks e f g h) user k took =
    rw e (
      update-Lasts (is_conversation c.id) (with_product (some p)) (λ c. refl) (λ c. refl)
        (λ c. refl) s.conversations user k took)
Step-Lasts s t (sends u j text c call sent found member worded e f g h) user k took = rw e (
    update-Lasts (is_conversation j) (with_last s.next_message) (λ c. refl) (λ c. refl) (λ c. refl)
      s.conversations user k took)
Step-Lasts s t (reads u j m c call sent found there member other e f g h) user k took = rw e took

pub Seated-Lasts :
    (cs ds : List ChatConversation) (clients : List Client) (r : Registry)
    → Lasts cs ds
    → Seated cs clients r
    → Seated ds clients r
Seated-Lasts cs ds clients r lasts v = record {
  seats = All-map (λ m (h : Seat cs clients m). (h.0, h.1, lasts h.0 m.room h.2)) r.members v.seats;
  own = v.own;
}
