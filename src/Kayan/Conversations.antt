-- ===== src/Kayan/Conversations.antt =====
-- The followup conversations in src/kayan/kayan.service.ts: `createFollowupConversation`,
-- `listFollowupMessages`, `sendFollowupMessage`, and what they assert.
use Prim.Native.Char.{code}
use kayan_place.Prelude.{
  ℕ, suc, String, Bool, true, not, ◌&&◌, List, [], ◌∷◌, ◌++◌, Option, none, some, ◌==◌, ltb,
  is_some, if◌then◌else◌,
}
use kayan_place.Prelude.Rows.{find_row, select_rows, update_rows, any_row}
use kayan_place.Prelude.Sort.{order_by}
use kayan_place.Database.{
  Exec, fixed, bad_request, not_found, forbidden, database, check_violation, pure, raise, raise_if,
  gets, modify, ◌>>=◌, ◌>>◌,
}
use kayan_place.Kayan.Dto.{AuthUser, ItemType, CreateFollowupConversationDto, same_item_type}
use kayan_place.Kayan.Tables.{Db, User, Conversation, FollowupMessage}
use kayan_place.Kayan.Ownership.{assert_user_owns_item}

abbrev is_live_admin : User → Bool
is_live_admin u = u.is_admin && not (is_some u.deleted_at)

abbrev first_id : List User → Option ℕ
first_id [] = none
first_id (u ∷ us) = some u.id

unfoldable pub find_any_admin_id : Exec Db (Option ℕ)
find_any_admin_id =
    gets (λ s. first_id (order_by (λ a b. ltb a.id b.id) (select_rows is_live_admin s.users)))

unfoldable pub is_active_admin : ℕ → Exec Db Bool
is_active_admin user_id = gets (λ s. any_row (λ u. u.id == user_id && is_live_admin u) s.users)

-- dto.adminId ?? await this.findAnyAdminId()
choose_admin : Option ℕ → Exec Db (Option ℕ)
unfolding find_any_admin_id
choose_admin none = find_any_admin_id
choose_admin (some k) = pure (some k)

-- `if (!adminId) throw …`: neither null nor 0
require_admin : Option ℕ → Exec Db ℕ
require_admin none = raise (bad_request (fixed "No admin account available"))
require_admin (some k) =
    if k == 0 then raise (bad_request (fixed "No admin account available")) else pure k

abbrev pub is_conversation_of : ItemType → ℕ → ℕ → Conversation → Bool
is_conversation_of item_type item_id user_id c =
    same_item_type c.item_type item_type && (c.item_id == item_id && c.user_id == user_id)

abbrev new_conversation : ℕ → ItemType → ℕ → ℕ → ℕ → Conversation
new_conversation key item_type item_id user_id admin_id = record {
  id = key;
  item_type = item_type;
  item_id = item_id;
  user_id = user_id;
  admin_id = admin_id;
}

-- INSERT … ON CONFLICT (item_type, item_id, user_id) DO UPDATE SET admin_id … RETURNING *, where the
-- row in conflict is the argument.
upsert_conversation : (key : ℕ) → ItemType → ℕ → ℕ → ℕ → Option Conversation → Exec Db Conversation
upsert_conversation key item_type item_id user_id admin_id none s =
    let row = new_conversation key item_type item_id user_id admin_id in
    pure row (record s { conversations = s.conversations ++ row ∷ [] })
upsert_conversation key item_type item_id user_id admin_id (some c) s =
    pure (record c { admin_id = admin_id })
      (record s {
        conversations =
            update_rows (is_conversation_of item_type item_id user_id)
              (λ r. record r { admin_id = admin_id }) s.conversations;
      })

unfoldable pub create_followup_conversation :
    AuthUser → CreateFollowupConversationDto → Exec Db Conversation
unfolding choose_admin require_admin is_active_admin upsert_conversation
create_followup_conversation user dto = do
  assert_user_owns_item user dto.item_type dto.item_id
  chosen ← choose_admin dto.admin_id
  admin_id ← require_admin chosen
  active ← is_active_admin admin_id
  raise_if (not active) (bad_request (fixed "Admin not found"))
  key ← gets (λ s. s.next_conversation)
  modify (λ s. record s { sequences = record s.sequences { next_conversation = suc key } })
  held ←
      gets (λ s. find_row (is_conversation_of dto.item_type dto.item_id user.sub) s.conversations)
  upsert_conversation key dto.item_type dto.item_id user.sub admin_id held

check_access : AuthUser → Option Conversation → Exec Db (Unit {0})
check_access user none = raise (not_found (fixed "Conversation not found"))
check_access user (some c) =
    raise_if (not (c.user_id == user.sub) && not (c.admin_id == user.sub))
      (forbidden (fixed "Not allowed"))

unfoldable pub assert_followup_conversation_access : AuthUser → ℕ → Exec Db (Unit {0})
unfolding check_access
assert_followup_conversation_access user conversation_id = do
  found ← gets (λ s. find_row (λ c. c.id == conversation_id) s.conversations)
  check_access user found

abbrev in_scope : ℕ → ItemType → ℕ → Conversation → Bool
in_scope conversation_id item_type item_id c =
    c.id == conversation_id && (same_item_type c.item_type item_type && c.item_id == item_id)

-- Both `itemType` and `itemId` are given, or the scope is not asserted.
unfoldable pub assert_followup_conversation_item_scope :
    ℕ → Option (ItemType × ℕ) → Exec Db (Unit {0})
assert_followup_conversation_item_scope conversation_id none = pure tt
assert_followup_conversation_item_scope conversation_id (some (item_type, item_id)) = do
  found ← gets (λ s. any_row (in_scope conversation_id item_type item_id) s.conversations)
  raise_if (not found) (not_found (fixed "Conversation not found"))

abbrev sent_before : FollowupMessage → FollowupMessage → Bool
sent_before a b = ltb a.sent_at b.sent_at

unfoldable pub list_followup_messages :
    AuthUser → ℕ → Option (ItemType × ℕ) → Exec Db (List FollowupMessage)
list_followup_messages user conversation_id scope = do
  assert_followup_conversation_access user conversation_id
  assert_followup_conversation_item_scope conversation_id scope
  gets (λ s.
      order_by sent_before (select_rows (λ m. m.conversation_id == conversation_id) s.messages))

-- LENGTH(BTRIM(message_text)) = 0: the text holds spaces only.
abbrev pub is_blank : String → Bool
is_blank String.[] = true
is_blank (String.◌∷◌ c s) = code c == 32 && is_blank s

abbrev new_message : Db → (key sender_id conversation_id : ℕ) → String → FollowupMessage
new_message s key sender_id conversation_id message_text = record {
  id = key;
  conversation_id = conversation_id;
  sender_id = sender_id;
  message_text = message_text;
  sent_at = s.clock;
}

unfoldable pub send_followup_message :
    AuthUser → ℕ → (message_text : String) → Option (ItemType × ℕ) → Exec Db FollowupMessage
send_followup_message user conversation_id message_text scope = do
  assert_followup_conversation_access user conversation_id
  assert_followup_conversation_item_scope conversation_id scope
  key ← gets (λ s. s.next_message)
  modify (λ s. record s { sequences = record s.sequences { next_message = suc key } })
  raise_if (is_blank message_text) (database check_violation)
  row ← gets (λ s. new_message s key user.sub conversation_id message_text)
  modify (λ s. record s { messages = s.messages ++ row ∷ [] })
  pure row
