-- ===== src/Market/Chat/Opens.antt =====
-- `getOrCreateConversation` of src/chat/chat.service.ts takes a step of the relation.
use kayan_place.Prelude.{
  ℕ, ◌≡◌, refl, sym, subst, Bool, true, false, not, ◌&&◌, ◌||◌, Option, none, some, ◌==◌, ltb,
  is_some, arith, Bool-cases, Option-cases, inl, inr,
}
use kayan_place.Prelude.Rows.{find_row, any_row}
use kayan_place.Database.{ok, state, Outcome-reads, Outcome-cases}
use kayan_place.Market.Tables.{MarketDb, ChatConversation, is_user}
use kayan_place.Market.Access.{assert_user_exists}
use kayan_place.Market.Chat.{
  get_or_create_conversation, first_of, second_of, is_between, validate_product, reuse_or_insert,
}
use kayan_place.Market.Chat.Views.{get_conversation_by_id, assert_conversation_participant}
use kayan_place.Market.Chat.Steps.{
  returned, opens, InOrder, Offered, Step, fails, finds, creates, attached,
}

pub get_conversation_by_id-state :
    (user k : ℕ) (s : MarketDb) → state (get_conversation_by_id user k s) ≡ s
unfolding get_conversation_by_id assert_conversation_participant
get_conversation_by_id-state user k s = ground arith

pub validate_product-state :
    (column_is : ℕ → ℕ → Bool) (user participant : ℕ) (product_id : Option ℕ) (s : MarketDb)
    → state (validate_product column_is user participant product_id s) ≡ s
validate_product-state column_is user participant product_id s = ground arith

-- The pair of users that a conversation is looked up by.
users-InOrder :
    (user participant : ℕ)
    → (user == participant) ≡ false
    → InOrder user participant (first_of user participant) (second_of user participant)
users-InOrder user participant ne = elim (Bool-cases (ltb user participant)) [
  | inl e ↦ rw e (ground arith, inl (refl, refl))
  | inr e ↦ rw e (ground arith, inr (refl, refl))
]

-- What is inserted or attached when the call opens a conversation; if it throws, so does the call.
pub reuse_or_insert-Step :
    (user participant : ℕ) (given product_id : Option ℕ) (done : Bool) (s : MarketDb)
    → (user == participant) ≡ false
    → Offered s given product_id
    → (found : Option ChatConversation)
    → find_row (is_between (first_of user participant) (second_of user participant)) s.conversations
      ≡ found
    → (returned (
            reuse_or_insert
              (first_of user participant)
              (second_of user participant)
              product_id
              found
              s)
          ≡ false
        → done ≡ false)
    → Step (opens user participant given) done s (
        state (
          reuse_or_insert
            (first_of user participant)
            (second_of user participant)
            product_id
            found
            s))
reuse_or_insert-Step user participant given product_id done s ne offer none f stops =
    let a = first_of user participant in
    let b = second_of user participant in
    elim (Bool-cases (any_row (λ x. x.id == a) s.accounts && any_row (λ x. x.id == b) s.accounts)) [
      | inl known ↦
          creates user participant a b given product_id refl (users-InOrder user participant ne)
            offer f (ground arith) (ground arith) (ground arith) (ground arith)
      | inr unknown ↦
          fails (stops (ground arith)) (ground arith) (ground arith) (ground arith) (ground arith)
    ]
reuse_or_insert-Step user participant given none done s ne offer (some c) f stops =
    finds user participant (first_of user participant) (second_of user participant) given none c
      refl (users-InOrder user participant ne) offer f (inl refl) refl refl refl refl
reuse_or_insert-Step user participant given (some p) done s ne offer (some c) f stops =
    let a = first_of user participant in
    let b = second_of user participant in
    elim (Option-cases c.product_id) [
      | inl e ↦
          attached user participant a b given p c refl (users-InOrder user participant ne) offer f e
            (ground arith) (ground arith) (ground arith) (ground arith)
      | inr (q, e) ↦
          finds user participant a b given (some p) c refl (users-InOrder user participant ne) offer
            f (inr (ground arith)) (ground arith) (ground arith) (ground arith) (ground arith)
    ]

module _ (column_is : ℕ → ℕ → Bool) where
  -- The state is that after the conversation was found or inserted; what follows only reads.
  get_or_create-state :
      (user participant : ℕ) (product_id : Option ℕ) (s : MarketDb)
      → (user == participant) ≡ false
      → any_row (is_user participant) s.accounts ≡ true
      → (o : Option ℕ) → validate_product column_is user participant product_id s ≡ ok o s
      → state (get_or_create_conversation column_is user participant product_id s)
        ≡ state (
            reuse_or_insert
              (first_of user participant)
              (second_of user participant)
              o
              (find_row
                (is_between (first_of user participant) (second_of user participant))
                s.conversations)
              s)
  unfolding get_or_create_conversation assert_user_exists
  get_or_create-state user participant product_id s ne there o h =
      let a = first_of user participant in
      let b = second_of user participant in
      elim (Outcome-cases (reuse_or_insert a b o (find_row (is_between a b) s.conversations) s)) [
        | inl (id, t, e) ↦ ground (arith, get_conversation_by_id-state user id t)
        | inr (x, t, e) ↦ ground arith
      ]

  -- If nothing was found or inserted, the call throws.
  get_or_create-throws :
      (user participant : ℕ) (product_id : Option ℕ) (s : MarketDb)
      → (user == participant) ≡ false
      → any_row (is_user participant) s.accounts ≡ true
      → (o : Option ℕ) → validate_product column_is user participant product_id s ≡ ok o s
      → returned (
          reuse_or_insert
            (first_of user participant)
            (second_of user participant)
            o
            (find_row
              (is_between (first_of user participant) (second_of user participant))
              s.conversations)
            s)
        ≡ false
      → returned (get_or_create_conversation column_is user participant product_id s) ≡ false
  unfolding get_or_create_conversation assert_user_exists
  get_or_create-throws user participant product_id s ne there o h threw = ground arith

  -- A product that passes is that of the request, and its listing is there.
  validate_product-Offered :
      (user participant : ℕ) (product_id o : Option ℕ) (s : MarketDb)
      → validate_product column_is user participant product_id s ≡ ok o s
      → Offered s product_id o
  validate_product-Offered user participant none none s h = inl refl
  validate_product-Offered user participant none (some p) s h = absurd (ground arith)
  validate_product-Offered user participant (some k) o s h = elim (Bool-cases (k == 0)) [
    | inl z ↦
        let none_kept : none ≡ o = ground arith in
        subst (Offered s (some k)) none_kept (inr (ground arith))
    | inr z ↦
        elim (Option-cases (find_row (λ x. x.id == k && not (is_some x.deleted_at)) s.listings)) [
          | inl n ↦ absurd (ground arith)
          | inr (l, f) ↦
              let kept : some k ≡ o = ground arith in subst (Offered s (some k)) kept (refl, l, f)
        ]
  ]

  created-Step :
      (user participant : ℕ) (product_id : Option ℕ) (s : MarketDb)
      → (user == participant) ≡ false
      → any_row (is_user participant) s.accounts ≡ true
      → (o : Option ℕ) → validate_product column_is user participant product_id s ≡ ok o s
      → Step
          (opens user participant product_id)
          (returned (get_or_create_conversation column_is user participant product_id s))
          s
          (state (get_or_create_conversation column_is user participant product_id s))
  created-Step user participant product_id s ne there o h =
      let call = get_or_create_conversation column_is user participant product_id s in
      subst (Step (opens user participant product_id) (returned call) s)
        (sym (get_or_create-state user participant product_id s ne there o h))
        (reuse_or_insert-Step user participant product_id o (returned call) s ne
          (validate_product-Offered user participant product_id o s h) _ refl
          (get_or_create-throws user participant product_id s ne there o h))

  pub get_or_create-Step :
      (user participant : ℕ) (product_id : Option ℕ) (s : MarketDb)
      → Step
          (opens user participant product_id)
          (returned (get_or_create_conversation column_is user participant product_id s))
          s
          (state (get_or_create_conversation column_is user participant product_id s))
  unfolding get_or_create_conversation assert_user_exists
  get_or_create-Step user participant product_id s =
      elim (Bool-cases (user == participant || not (any_row (is_user participant) s.accounts))) [
        | inl bad ↦ fails (ground arith) (ground arith) (ground arith) (ground arith) (ground arith)
        | inr good ↦
            elim (Outcome-reads (validate_product column_is user participant product_id s) s
              (validate_product-state column_is user participant product_id s)) [
                | inr (e, h) ↦
                    fails (ground arith) (ground arith) (ground arith) (ground arith) (ground arith)
                | inl (o, h) ↦
                    created-Step user participant product_id s (ground arith) (ground arith) o h
              ]
      ]
