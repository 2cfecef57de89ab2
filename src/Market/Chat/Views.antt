-- ===== src/Market/Chat/Views.antt =====
-- The rows that `listConversations` and `getConversationById` of src/chat/chat.service.ts select,
-- and `assertConversationParticipant`.
use kayan_place.Prelude.{
  ℕ, ◌≡◌, refl, Bool, true, false, not, ◌&&◌, ◌||◌, List, [], ◌∷◌, map, Option, none, some, ◌==◌,
  ltb, is_some, length, if◌then◌else◌,
}
use kayan_place.Prelude.Rows.{find_row, select_rows, any_row}
use kayan_place.Prelude.Sort.{order_by}
use kayan_place.Helpers.Pagination.{OffsetPaginationQuery, resolve_offset_pagination, paginate}
use kayan_place.Database.{
  Exec, Error, fixed, not_found, forbidden, pure, raise, raise_if, gets, ◌>>=◌, ◌>>◌,
}
use kayan_place.Market.Tables.{MarketDb, ChatConversation, ChatMessage, Listing, ListingImage}
use kayan_place.Market.Access.{to_positive_int}

abbrev pub is_conversation : ℕ → ChatConversation → Bool
is_conversation k c = c.id == k

abbrev pub is_message : ℕ → ChatMessage → Bool
is_message k m = m.id == k

abbrev pub is_participant : ℕ → ChatConversation → Bool
is_participant user_id c = c.user_a_id == user_id || c.user_b_id == user_id

abbrev invalid_participants : Error
invalid_participants = not_found (fixed "Conversation participants are invalid")

abbrev pub not_participant : Error
not_participant = forbidden (fixed "Not a participant of this conversation")

pub record Participants : Type 0 where
  pub user_a_id : ℕ
  pub user_b_id : ℕ

abbrev pub both_ids : Option ℕ → Option ℕ → Exec MarketDb Participants
both_ids (some a) (some b) = pure (record { user_a_id = a; user_b_id = b })
both_ids _ _ = raise invalid_participants

abbrev pub participants_of : Option ChatConversation → Exec MarketDb Participants
participants_of none = raise (not_found (fixed "Conversation not found"))
participants_of (some c) = both_ids (to_positive_int c.user_a_id) (to_positive_int c.user_b_id)

unfoldable pub get_conversation_participants : ℕ → Exec MarketDb Participants
get_conversation_participants conversation_id = do
  found ← gets (λ s. find_row (is_conversation conversation_id) s.conversations)
  participants_of found

unfoldable pub assert_conversation_participant :
    (conversation_id user_id : ℕ) → Exec MarketDb (Unit {0})
assert_conversation_participant conversation_id user_id = do
  found ← gets (λ s. find_row (is_conversation conversation_id) s.conversations)
  participants ← participants_of found
  raise_if (not (participants.user_a_id == user_id) && not (participants.user_b_id == user_id))
      not_participant

-- CASE WHEN c.user_a_id = $1 THEN c.user_b_id ELSE c.user_a_id END
abbrev pub peer_of : ℕ → ChatConversation → ℕ
peer_of user_id c = if c.user_a_id == user_id then c.user_b_id else c.user_a_id

abbrev pub has_peer : MarketDb → ℕ → ChatConversation → Bool
has_peer s user_id c = any_row (λ a. a.id == peer_of user_id c) s.accounts

abbrev pub last_message : MarketDb → Option ℕ → Option ChatMessage
last_message s none = none
last_message s (some k) = find_row (is_message k) s.messages

abbrev pub listing_of : MarketDb → Option ℕ → Option Listing
listing_of s none = none
listing_of s (some k) = find_row (λ p. p.id == k && not (is_some p.deleted_at)) s.listings

unfoldable pub unread_count : MarketDb → ℕ → ChatConversation → ℕ
unread_count s user_id c = length (
    select_rows
      (λ m. m.conversation_id == c.id && (not (m.sender_id == user_id) && not (is_some m.read_at)))
      s.messages)

abbrev first_image : List ListingImage → Option ListingImage
first_image [] = none
first_image (i ∷ is) = some i

-- ORDER BY pi.sort_order ASC LIMIT 1
abbrev image_of : MarketDb → Option Listing → Option ListingImage
image_of s none = none
image_of s (some p) = first_image (
    order_by (λ a b. ltb a.sort_order b.sort_order)
      (select_rows (λ i. i.product_id == p.id) s.images))

pub record ConversationView : Type 0 where
  pub id : ℕ
  pub product_id : Option ℕ
  pub created_at : ℕ
  pub last : Option ChatMessage
  pub peer_user_id : ℕ
  pub unread_count : ℕ
  pub product : Option Listing
  pub product_image : Option ListingImage

unfoldable pub conversation_view : MarketDb → ℕ → ChatConversation → ConversationView
unfolding unread_count
conversation_view s user_id c = record {
  id = c.id;
  product_id = c.product_id;
  created_at = c.created_at;
  last = last_message s c.last_message_id;
  peer_user_id = peer_of user_id c;
  unread_count = unread_count s user_id c;
  product = listing_of s c.product_id;
  product_image = image_of s (listing_of s c.product_id);
}

pub conversation_view-id :
    (s : MarketDb) (user_id : ℕ) (c : ChatConversation) → (conversation_view s user_id c).id ≡ c.id
unfolding conversation_view
conversation_view-id s user_id c = refl

abbrev pub show_conversation : ℕ → Option ChatConversation → Exec MarketDb ConversationView
show_conversation user_id none = raise (not_found (fixed "Conversation not found"))
show_conversation user_id (some c) = do
  joined ← gets (λ s. has_peer s user_id c)
  raise_if (not joined) (not_found (fixed "Conversation not found"))
  gets (λ s. conversation_view s user_id c)

unfoldable pub get_conversation_by_id :
    (user_id conversation_id : ℕ) → Exec MarketDb ConversationView
unfolding assert_conversation_participant
get_conversation_by_id user_id conversation_id = do
  assert_conversation_participant conversation_id user_id
  found ← gets (λ s. find_row (is_conversation conversation_id) s.conversations)
  show_conversation user_id found

pub data Scope : Type 0 where
  all buy sell : Scope

abbrev is_owned : ℕ → Option Listing → Bool → Bool
is_owned user_id none wanted = false
is_owned user_id (some p) true = p.owner_id == user_id
is_owned user_id (some p) false = not (p.owner_id == user_id)

-- A comparison with the owner of a product that is not joined is not true.
abbrev pub in_scope : MarketDb → ℕ → Scope → ChatConversation → Bool
in_scope s user_id all c = true
in_scope s user_id buy c =
    is_some c.product_id && is_owned user_id (listing_of s c.product_id) false
in_scope s user_id sell c =
    is_some c.product_id && is_owned user_id (listing_of s c.product_id) true

abbrev sent_or : Option ChatMessage → ℕ → ℕ
sent_or none created_at = created_at
sent_or (some m) created_at = m.sent_at

-- COALESCE(m.sent_at, c.created_at)
abbrev pub activity : MarketDb → ChatConversation → ℕ
activity s c = sent_or (last_message s c.last_message_id) c.created_at

abbrev pub conversations_of : MarketDb → ℕ → Scope → List ChatConversation
conversations_of s user_id scope =
    order_by (λ a b. ltb (activity s b) (activity s a))
      (select_rows
        (λ c. has_peer s user_id c && (is_participant user_id c && in_scope s user_id scope c))
        s.conversations)

unfoldable pub list_conversations :
    ℕ → Scope → OffsetPaginationQuery → Exec MarketDb (List ConversationView)
unfolding unread_count
list_conversations user_id scope pagination = gets (λ s.
    map (conversation_view s user_id)
      (paginate (resolve_offset_pagination pagination 20 100) (conversations_of s user_id scope)))
