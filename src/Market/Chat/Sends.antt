-- ===== src/Market/Chat/Sends.antt =====
-- `sendMessage` and `markRead` of src/chat/chat.service.ts take steps of the relation.
use kayan_place.Prelude.{
  ℕ, ◌≡◌, refl, String, true, not, ◌||◌, some, ◌==◌, get_or, arith, Bool-cases, Option-cases, inl,
  inr,
}
use kayan_place.Prelude.Rows.{find_row, any_row, find_row-update_rows}
use kayan_place.Database.{ok, state, Outcome-reads}
use kayan_place.Market.Tables.{MarketDb, ChatConversation}
use kayan_place.Market.Chat.{send_message, mark_read, is_blank}
use kayan_place.Market.Chat.Views.{
  is_conversation, is_message, is_participant, assert_conversation_participant,
}
use kayan_place.Market.Chat.Steps.{returned, sends_text, marks_read, Step, fails, sends, reads}

pub assert_conversation_participant-state :
    (k user : ℕ) (s : MarketDb) → state (assert_conversation_participant k user s) ≡ s
unfolding assert_conversation_participant
assert_conversation_participant-state k user s = ground arith

-- Who passes is a participant of a conversation that is there.
pub assert_conversation_participant-ok :
    (k user : ℕ) (s : MarketDb)
    → assert_conversation_participant k user s ≡ ok tt s
    → (c : ChatConversation) × (find_row (is_conversation k) s.conversations ≡ some c)
      × (is_participant user c ≡ true)
unfolding assert_conversation_participant
assert_conversation_participant-ok k user s h =
    elim (Option-cases (find_row (is_conversation k) s.conversations)) [
      | inl n ↦ absurd (ground arith)
      | inr (c, f) ↦ (c, f, ground arith)
    ]

pub send_message-Step :
    (user k : ℕ) (text : String) (s : MarketDb)
    → Step
        (sends_text user k text)
        (returned (send_message user k text s))
        s
        (state (send_message user k text s))
unfolding send_message
send_message-Step user k text s =
    elim (Outcome-reads (assert_conversation_participant k user s) s
      (assert_conversation_participant-state k user s)) [
        | inr (e, h) ↦
            fails (ground arith) (ground arith) (ground arith) (ground arith) (ground arith)
        | inl (done, h) ↦
            let (c, f, member) = assert_conversation_participant-ok k user s (ground arith) in
            elim (Bool-cases (is_blank text || not (any_row (λ a. a.id == user) s.accounts))) [
              | inl bad ↦
                  fails (ground arith) (ground arith) (ground arith) (ground arith) (ground arith)
              | inr good ↦
                  sends user k text c refl (ground arith) f member (ground arith) (ground arith)
                    (ground arith) (ground arith) (ground arith)
            ]
      ]

pub mark_read-Step :
    (user k : ℕ) (s : MarketDb)
    → Step (marks_read user k) (returned (mark_read user k s)) s (state (mark_read user k s))
unfolding mark_read
mark_read-Step user k s = elim (Option-cases (find_row (is_message k) s.messages)) [
  | inl n ↦ fails (ground arith) (ground arith) (ground arith) (ground arith) (ground arith)
  | inr (m, f) ↦ elim (Bool-cases (m.conversation_id == 0 || m.sender_id == 0)) [
    | inl zero_id ↦ fails (ground arith) (ground arith) (ground arith) (ground arith) (ground arith)
    | inr positive ↦
        elim (Outcome-reads (assert_conversation_participant m.conversation_id user s) s
          (assert_conversation_participant-state m.conversation_id user s)) [
            | inr (e, h) ↦
                fails (ground arith) (ground arith) (ground arith) (ground arith) (ground arith)
            | inl (done, h) ↦
                let (c, g, member) =
                  assert_conversation_participant-ok m.conversation_id user s (ground arith) in
                elim (Bool-cases (m.sender_id == user)) [
                  | inl own ↦
                      fails (ground arith) (ground arith) (ground arith) (ground arith)
                        (ground arith)
                  | inr other ↦
                      let kept =
                        find_row-update_rows (is_message k) (is_message k)
                          (λ x. record x { read_at = some (get_or x.read_at s.clock) }) (λ x. refl)
                          s.messages f in
                      reads user k m c refl (ground (arith, kept)) f g member other (ground arith)
                        (ground arith) (ground arith) (ground arith)
                ]
          ]
  ]
]
