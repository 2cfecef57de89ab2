-- ===== src/Market/Chat/Opening.antt =====
-- Opening a conversation twice: `getOrCreateConversation` of src/chat/chat.service.ts.
use kayan_place.Prelude.{
  ℕ, ◌≡◌, refl, sym, ap, subst, ◌∙◌, Bool, true, false, ◌||◌, List, [], ◌∷◌, ◌++◌, Option, none,
  some, ◌==◌, arith, Bool-cases, Option-cases, inl, inr,
}
use kayan_place.Prelude.Rows.{find_row, any_row, find_row-true, find_row-update_rows}
use kayan_place.Database.{ok, state, Outcome-reads, Outcome-cases}
use kayan_place.Auth.Tables.{Account}
use kayan_place.Kayan.History.{find_row-id}
use kayan_place.Market.Tables.{MarketDb, ChatConversation, is_user}
use kayan_place.Market.Access.{assert_user_exists}
use kayan_place.Market.Chat.{
  get_or_create_conversation, reuse_or_insert, first_of, second_of, is_between, attaches,
  new_conversation, validate_product,
}
use kayan_place.Market.Chat.Views.{
  is_conversation, is_participant, has_peer, peer_of, ConversationView, conversation_view,
  conversation_view-id, show_conversation, get_conversation_by_id, assert_conversation_participant,
}
use kayan_place.Market.Chat.Steps.{with_product}
use kayan_place.Market.Chat.Opens.{
  get_or_create-Step, validate_product-state, get_conversation_by_id-state,
}
use kayan_place.Market.Chat.Tidy.{conversation_id}
use kayan_place.Market.Chat.Invariant.{TidyDb, Step-Tidy}

find_row-new :
    (p : ChatConversation → Bool) (cs : List ChatConversation) (c : ChatConversation)
    → find_row p cs ≡ none
    → p c ≡ true
    → find_row p (cs ++ c ∷ []) ≡ some c
find_row-new p [] c h t = ground arith
find_row-new p (d ∷ cs) c h t = ground (arith, find_row-new p cs c)

-- The conversation that was found or inserted is the one of the two users.
reuse_or_insert-between :
    (a b : ℕ) (o : Option ℕ) (s : MarketDb) (found : Option ChatConversation) {id : ℕ}
    {t : MarketDb}
    → find_row (is_between a b) s.conversations ≡ found
    → reuse_or_insert a b o found s ≡ ok id t
    → (c : ChatConversation) × (find_row (is_between a b) t.conversations ≡ some c)
      × (c.id ≡ id)
      × (t.accounts ≡ s.accounts)
reuse_or_insert-between a b o s none {id} {t} f h =
    let c = new_conversation a b o s.next_conversation s.clock in
    (
      c,
      ground (arith, find_row-new (is_between a b) s.conversations c f),
      ground arith,
      ground arith,
    )
reuse_or_insert-between a b o s (some c) {id} {t} f h =
    let kept =
      find_row-update_rows (is_between a b) (is_conversation c.id) (with_product o) (λ d. refl)
        s.conversations f in
    elim (Bool-cases (attaches o c)) [
      | inl e ↦ (with_product o c, ground (arith, kept), ground arith, ground arith)
      | inr e ↦ (c, ground arith, ground arith, ground arith)
    ]

pub record Shown (user k : ℕ) (s : MarketDb) (view : ConversationView) : Type 0 where
  pub row : ChatConversation
  pub found : find_row (is_conversation k) s.conversations ≡ some row
  pub positive : (row.user_a_id == 0 || row.user_b_id == 0) ≡ false
  pub member : is_participant user row ≡ true
  pub view_id : view.id ≡ row.id

show_conversation-id :
    (user : ℕ) (c : ChatConversation) (s : MarketDb) {view : ConversationView} {s' : MarketDb}
    → show_conversation user (some c) s ≡ ok view s'
    → view.id ≡ c.id
show_conversation-id user c s {view} {s'} h = elim (Bool-cases (has_peer s user c)) [
  | inl e ↦
      let same : conversation_view s user c ≡ view = ground arith in
      ap (λ v. v.id) (sym same) ∙ conversation_view-id s user c
  | inr e ↦ absurd (ground arith)
]

get_conversation_by_id-Shown :
    (user k : ℕ) (s : MarketDb) {view : ConversationView} {s' : MarketDb}
    → get_conversation_by_id user k s ≡ ok view s'
    → Shown user k s view
unfolding get_conversation_by_id assert_conversation_participant
get_conversation_by_id-Shown user k s {view} {s'} h =
    elim (Option-cases (find_row (is_conversation k) s.conversations)) [
      | inl n ↦ absurd (ground arith)
      | inr (c, f) ↦ record {
        row = c;
        found = f;
        positive = ground arith;
        member = ground arith;
        view_id = show_conversation-id user c s {view = view} {s' = s'} (ground arith);
      }
    ]

get_conversation_by_id-ok :
    (user k : ℕ) (s : MarketDb) (c : ChatConversation)
    → find_row (is_conversation k) s.conversations ≡ some c
    → (c.user_a_id == 0 || c.user_b_id == 0) ≡ false
    → is_participant user c ≡ true
    → has_peer s user c ≡ true
    → get_conversation_by_id user k s ≡ ok (conversation_view s user c) s
unfolding get_conversation_by_id assert_conversation_participant
get_conversation_by_id-ok user k s c f positive member peer = ground arith

any_row-implied :
    (p q : Account → Bool) (xs : List Account)
    → ((a : Account) → p a ≡ true → q a ≡ true)
    → any_row p xs ≡ true
    → any_row q xs ≡ true
any_row-implied p q [] f h = absurd (cc)
any_row-implied p q (x ∷ xs) f h = elim (Bool-cases (p x)) [
  | inl t ↦ ground (arith, f x t)
  | inr t ↦ let rest = any_row-implied p q xs f (ground arith) in ground (arith, rest)
]

-- The participant is the one of the two who did not ask.
both-members :
    (user participant : ℕ) (c : ChatConversation) (accounts : List Account)
    → is_between (first_of user participant) (second_of user participant) c ≡ true
    → (user == participant) ≡ false
    → any_row (is_user user) accounts ≡ true
    → (is_participant participant c ≡ true)
      × (any_row (λ a. a.id == peer_of participant c) accounts ≡ true)
both-members user participant c accounts e ne h = (
  ground arith,
  any_row-implied (is_user user) (λ a. a.id == peer_of participant c) accounts (λ a t. ground arith)
      h,
)

module _ (column_is : ℕ → ℕ → Bool) where
  -- What a call that succeeded did.
  record Opened (user participant : ℕ) (s s' : MarketDb) (view : ConversationView) : Type 0 where
    ne : (user == participant) ≡ false
    row : ChatConversation
    found : find_row (is_conversation row.id) s'.conversations ≡ some row
    between :
        find_row
          (is_between (first_of user participant) (second_of user participant))
          s'.conversations
        ≡ some row
    positive : (row.user_a_id == 0 || row.user_b_id == 0) ≡ false
    same_id : view.id ≡ row.id
    accounts : s'.accounts ≡ s.accounts

  -- The other participant opens it again, without a product.
  reopened :
      (user participant : ℕ) (s s' : MarketDb) (view : ConversationView)
      → Opened user participant s s' view
      → any_row (is_user user) s.accounts ≡ true
      → (again : ConversationView) × (get_or_create_conversation column_is participant user none s'
          ≡ ok again s')
        × (again.id ≡ view.id)
  unfolding get_or_create_conversation assert_user_exists
  reopened user participant s s' view o there =
      let pair =
        find_row-true (is_between (first_of user participant) (second_of user participant))
          s'.conversations o.between in
      let known : any_row (is_user user) s'.accounts ≡ true = rw o.accounts there in
      let (member, peer) = both-members user participant o.row s'.accounts pair o.ne known in
      let shown =
        get_conversation_by_id-ok participant o.row.id s' o.row o.found o.positive member peer in
      let same_pair : (first_of participant user ≡ first_of user participant)
          × (second_of participant user ≡ second_of user participant) =
        (ground arith, ground arith) in
      (
        conversation_view s' participant o.row,
        ground (arith, shown, o.between, same_pair, o.ne, known),
        conversation_view-id s' participant o.row ∙ sym o.same_id,
      )

  opened :
      (user participant : ℕ) (product_id : Option ℕ) (s : MarketDb) {view : ConversationView}
      {s' : MarketDb}
      → TidyDb s'
      → get_or_create_conversation column_is user participant product_id s ≡ ok view s'
      → Opened user participant s s' view
  unfolding get_or_create_conversation assert_user_exists
  opened user participant product_id s {view} {s'} v h =
      let a = first_of user participant in
      let b = second_of user participant in
      let existing = find_row (is_between a b) s.conversations in
      elim (Outcome-reads (validate_product column_is user participant product_id s) s
        (validate_product-state column_is user participant product_id s)) [
          | inr (e, f) ↦ absurd (ground arith)
          | inl (o, f) ↦ elim (Outcome-cases (reuse_or_insert a b o existing s)) [
            | inr (x, t, e) ↦ absurd (ground arith)
            | inl (id, t, e) ↦
                let run : get_conversation_by_id user id t ≡ ok view s' = ground arith in
                let still = get_conversation_by_id-state user id t in
                let (c, between, same, accounts) =
                  reuse_or_insert-between a b o s existing {id = id} {t = t} refl e in
                let shown = get_conversation_by_id-Shown user id t {view = view} {s' = s'} run in
                let final : s' ≡ t = ground arith in
                let tidy : TidyDb t = subst TidyDb final v in
                rw final (
                  let kept =
                    find_row-id conversation_id id (is_between a b) t.conversations tidy.ids between
                      same in
                  let row : shown.row ≡ c = ground (arith, kept, shown.found) in
                  record {
                    ne = ground arith;
                    row = c;
                    found = rw same kept;
                    between = between;
                    positive =
                        subst (λ d. (d.user_a_id == 0 || d.user_b_id == 0) ≡ false) row
                          shown.positive;
                    same_id = shown.view_id ∙ ap (λ d. d.id) row;
                    accounts = accounts;
                  })
          ]
        ]

  -- After a user opened the conversation with another, the other opens the same one, and nothing is
  -- written: the call without a product succeeds with the same id, if the first user is not deleted
  -- and the tables fit together.
  pub get_or_create-again :
      (user participant : ℕ) (product_id : Option ℕ) (s : MarketDb) {view : ConversationView}
      {s' : MarketDb}
      → TidyDb s
      → any_row (is_user user) s.accounts ≡ true
      → get_or_create_conversation column_is user participant product_id s ≡ ok view s'
      → (again : ConversationView) × (get_or_create_conversation column_is participant user none s'
          ≡ ok again s')
        × (again.id ≡ view.id)
  get_or_create-again user participant product_id s {view} {s'} v there h =
      let step = get_or_create-Step column_is user participant product_id s in
      let e : state (get_or_create_conversation column_is user participant product_id s) ≡ s' =
        ap state h in
      let tidy : TidyDb s' = subst TidyDb e (Step-Tidy s _ step v) in
      reopened user participant s s' view
        (opened user participant product_id s {view = view} {s' = s'} tidy h) there
