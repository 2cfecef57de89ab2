-- ===== src/Market/Chat/Refines.antt =====
-- The calls of src/chat/chat.service.ts take steps of the relation.
use kayan_place.Prelude.{ℕ, ◌+◌, refl, Bool, true}
use kayan_place.Database.{state}
use kayan_place.Market.Tables.{MarketDb}
use kayan_place.Market.Chat.{get_or_create_conversation, send_message, mark_read}
use kayan_place.Market.Chat.Steps.{
  returned, ChatCall, opens, sends_text, marks_read, waits, Step, rests,
}
use kayan_place.Market.Chat.Sends.{send_message-Step, mark_read-Step}
use kayan_place.Market.Chat.Opens.{get_or_create-Step}

abbrev wait : ℕ → MarketDb → MarketDb
wait seconds s = record s { auth = record s.auth { clock = s.clock + seconds } }

unfoldable pub perform : (column_is : ℕ → ℕ → Bool) → ChatCall → MarketDb → MarketDb
unfolding get_or_create_conversation send_message mark_read
perform column_is (opens user participant product_id) s =
    state (get_or_create_conversation column_is user participant product_id s)
perform column_is (sends_text user k text) s = state (send_message user k text s)
perform column_is (marks_read user k) s = state (mark_read user k s)
perform column_is (waits seconds) s = wait seconds s

unfoldable pub answers : (column_is : ℕ → ℕ → Bool) → ChatCall → MarketDb → Bool
unfolding get_or_create_conversation send_message mark_read
answers column_is (opens user participant product_id) s =
    returned (get_or_create_conversation column_is user participant product_id s)
answers column_is (sends_text user k text) s = returned (send_message user k text s)
answers column_is (marks_read user k) s = returned (mark_read user k s)
answers column_is (waits seconds) s = true

-- Each call takes one step of the relation. Opening finds the conversation of the two users,
-- creates their first one, or attaches the product of the request, if it is that of a listing that is
-- not deleted, to theirs where it has none; it overwrites no product. Sending by a participant
-- appends a message that is not blank and is then the last one; reading marks a message of the
-- other. A call that throws changes nothing else than identities, but that opening may throw after
-- one of its steps.
pub perform-Step :
    (column_is : ℕ → ℕ → Bool) (call : ChatCall) (s : MarketDb)
    → Step call (answers column_is call s) s (perform column_is call s)
unfolding perform answers
perform-Step column_is (opens user participant product_id) s =
    get_or_create-Step column_is user participant product_id s
perform-Step column_is (sends_text user k text) s = send_message-Step user k text s
perform-Step column_is (marks_read user k) s = mark_read-Step user k s
perform-Step column_is (waits seconds) s = rests seconds refl refl refl refl refl
