-- ===== src/Market/Chat/Steps.antt =====
-- What one call of src/chat/chat.service.ts may do to the conversations and the messages, as a step
-- relation.
use kayan_place.Prelude.{
  ℕ, suc, ◌≡◌, ◌<◌, ◌≤◌, ◌⊎◌, String, Bool, true, false, [], ◌∷◌, ◌++◌, Option, none, some, is_some,
  not, ◌&&◌, ◌==◌,
}
use kayan_place.Prelude.Rows.{find_row, update_rows}
use kayan_place.Database.{Outcome, ok, err}
use kayan_place.Market.Tables.{MarketDb, ChatConversation, ChatMessage, Listing}
use kayan_place.Market.Chat.{is_between, new_conversation, new_message, is_blank, set_read}
use kayan_place.Market.Chat.Views.{is_conversation, is_message, is_participant}

abbrev pub with_product : Option ℕ → ChatConversation → ChatConversation
with_product product_id c = record c { product_id = product_id }

abbrev pub with_last : ℕ → ChatConversation → ChatConversation
with_last message_id c = record c { last_message_id = some message_id }

pub data ChatCall : Type 0 where
  opens : (user participant : ℕ) → Option ℕ → ChatCall
  sends_text : (user conversation_id : ℕ) → String → ChatCall
  marks_read : (user message_id : ℕ) → ChatCall
  waits : ℕ → ChatCall

-- The two users in their order.
abbrev pub InOrder : (user participant a b : ℕ) → Type 0
InOrder user participant a b =
    (a < b) × (((a ≡ user) × (b ≡ participant)) ⊎ ((a ≡ participant) × (b ≡ user)))

-- The product of a request: none, where it has none or 0, or that of a listing that is not deleted.
abbrev pub Offered : MarketDb → (given product_id : Option ℕ) → Type 0
Offered s given none = (given ≡ none) ⊎ (given ≡ some 0)
Offered s given (some p) =
    (given ≡ some p)
    × (l : Listing) × (find_row (λ x. x.id == p && not (is_some x.deleted_at)) s.listings ≡ some l)

-- The call returned.
abbrev pub returned {ℓ κ} : {S : Type ℓ} {A : Type κ} → Outcome S A → Bool
returned (ok a s) = true
returned (err e s) = false

-- `done` is if the call returned.
pub data Step (call : ChatCall) (done : Bool) (s t : MarketDb) : Type 0 where
  -- nothing, though identities may be lost
  fails :
      done ≡ false
      → t.conversations ≡ s.conversations
      → t.messages ≡ s.messages
      → s.next_conversation ≤ t.next_conversation
      → s.next_message ≤ t.next_message
      → Step call done s t
  rests :
      (seconds : ℕ)
      → call ≡ waits seconds
      → t.conversations ≡ s.conversations
      → t.messages ≡ s.messages
      → t.next_conversation ≡ s.next_conversation
      → t.next_message ≡ s.next_message
      → Step call done s t
  -- the conversation of the two, as it is, where no product is given or it has one
  finds :
      (user participant a b : ℕ) (given product_id : Option ℕ) (c : ChatConversation)
      → call ≡ opens user participant given
      → InOrder user participant a b
      → Offered s given product_id
      → find_row (is_between a b) s.conversations ≡ some c
      → (product_id ≡ none) ⊎ (is_some c.product_id ≡ true)
      → t.conversations ≡ s.conversations
      → t.messages ≡ s.messages
      → t.next_conversation ≡ s.next_conversation
      → t.next_message ≡ s.next_message
      → Step call done s t
  -- the first conversation of the two
  creates :
      (user participant a b : ℕ) (given product_id : Option ℕ)
      → call ≡ opens user participant given
      → InOrder user participant a b
      → Offered s given product_id
      → find_row (is_between a b) s.conversations ≡ none
      → t.conversations
        ≡ s.conversations ++ new_conversation a b product_id s.next_conversation s.clock ∷ []
      → t.messages ≡ s.messages
      → t.next_conversation ≡ suc s.next_conversation
      → t.next_message ≡ s.next_message
      → Step call done s t
  -- the product that is given, to the conversation of the two that has none
  attached :
      (user participant a b : ℕ) (given : Option ℕ) (p : ℕ) (c : ChatConversation)
      → call ≡ opens user participant given
      → InOrder user participant a b
      → Offered s given (some p)
      → find_row (is_between a b) s.conversations ≡ some c
      → c.product_id ≡ none
      → t.conversations ≡ update_rows (is_conversation c.id) (with_product (some p)) s.conversations
      → t.messages ≡ s.messages
      → t.next_conversation ≡ s.next_conversation
      → t.next_message ≡ s.next_message
      → Step call done s t
  -- a participant sends
  sends :
      (user k : ℕ) (text : String) (c : ChatConversation)
      → call ≡ sends_text user k text
      → done ≡ true
      → find_row (is_conversation k) s.conversations ≡ some c
      → is_participant user c ≡ true
      → is_blank text ≡ false
      → t.conversations ≡ update_rows (is_conversation k) (with_last s.next_message) s.conversations
      → t.messages ≡ s.messages ++ new_message user k text s.next_message s.clock ∷ []
      → t.next_conversation ≡ s.next_conversation
      → t.next_message ≡ suc s.next_message
      → Step call done s t
  -- a participant other than the sender reads
  reads :
      (user k : ℕ) (m : ChatMessage) (c : ChatConversation)
      → call ≡ marks_read user k
      → done ≡ true
      → find_row (is_message k) s.messages ≡ some m
      → find_row (is_conversation m.conversation_id) s.conversations ≡ some c
      → is_participant user c ≡ true
      → (m.sender_id == user) ≡ false
      → t.conversations ≡ s.conversations
      → t.messages ≡ (set_read k s).messages
      → t.next_conversation ≡ s.next_conversation
      → t.next_message ≡ s.next_message
      → Step call done s t
