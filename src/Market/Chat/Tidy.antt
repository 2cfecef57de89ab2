-- ===== src/Market/Chat/Tidy.antt =====
-- Conversations and messages that fit together: an invariant of src/chat/chat.service.ts.
use kayan_place.Prelude.{
  ℕ, suc, ◌≡◌, ◌<◌, ◌≤◌, refl, ap, get_or, String, Bool, true, false, List, [], ◌∷◌, ◌++◌, map,
  Option, none, some, ◌==◌, arith, Bool-cases, inl, inr, All, All-append,
}
use kayan_place.Prelude.Rows.{
  find_row, update_rows, find_row-append, find_row-update_rows, All-update_rows, All-map,
}
use mathlib.Core.List.{map-append}
use kayan_place.Kayan.History.{Distinct, Distinct-append, map-update_rows}
use kayan_place.Market.Tables.{ChatConversation, ChatMessage}
use kayan_place.Market.Chat.{is_between, is_blank, new_conversation, new_message}
use kayan_place.Market.Chat.Steps.{with_last, with_product}
use kayan_place.Market.Chat.Views.{is_conversation, is_message, is_participant}

-- No two conversations are of the same two users.
abbrev pub Apart : List ChatConversation → Type 0
Apart [] = Unit
Apart (c ∷ cs) = All (λ d. is_between c.user_a_id c.user_b_id d ≡ false) cs × Apart cs

-- The conversation of a message is there, and its sender takes part in it.
abbrev pub WrittenIn : List ChatConversation → ChatMessage → Type 0
WrittenIn cs m =
    (c : ChatConversation) × (find_row (is_conversation m.conversation_id) cs ≡ some c)
    × (is_participant m.sender_id c ≡ true)

-- The last message of a conversation is there, and of this conversation.
abbrev pub HasLast : List ChatMessage → ChatConversation → Type 0
HasLast ms c =
    (k : ℕ)
    → c.last_message_id ≡ some k
    → (m : ChatMessage) × (find_row (is_message k) ms ≡ some m) × (m.conversation_id ≡ c.id)

abbrev pub conversation_id : ChatConversation → ℕ
conversation_id c = c.id

pub record Tidy (cs : List ChatConversation) (ms : List ChatMessage) (next_c next_m : ℕ)
    : Type 0 where
  pub ordered : All (λ c. c.user_a_id < c.user_b_id) cs
  pub apart : Apart cs
  pub ids : Distinct (map conversation_id cs)
  pub old_conversations : All (λ c. c.id < next_c) cs
  pub old_messages : All (λ m. m.id < next_m) ms
  pub written : All (WrittenIn cs) ms
  pub worded : All (λ m. is_blank m.message_text ≡ false) ms
  pub last : All (HasLast ms) cs

-- Later identities.
pub Tidy-later :
    (cs : List ChatConversation) (ms : List ChatMessage) (nc nm nc' nm' : ℕ)
    → nc ≤ nc'
    → nm ≤ nm'
    → Tidy cs ms nc nm
    → Tidy cs ms nc' nm'
Tidy-later cs ms nc nm nc' nm' p q v = record {
  ordered = v.ordered;
  apart = v.apart;
  ids = v.ids;
  old_conversations = All-map (λ c (h : c.id < nc). omega arith) cs v.old_conversations;
  old_messages = All-map (λ m (h : m.id < nm). omega arith) ms v.old_messages;
  written = v.written;
  worded = v.worded;
  last = v.last;
}

absent :
    (a b : ℕ) (cs : List ChatConversation)
    → find_row (is_between a b) cs ≡ none
    → All (λ c. is_between c.user_a_id c.user_b_id (new_conversation a b none 0 0) ≡ false) cs
absent a b [] h = tt
absent a b (c ∷ cs) h = elim (Bool-cases (is_between a b c)) [
  | inl e ↦ absurd (ground arith)
  | inr e ↦ (ground arith, absent a b cs (ground arith))
]

Apart-append :
    (cs : List ChatConversation) (d : ChatConversation)
    → All (λ c. is_between c.user_a_id c.user_b_id d ≡ false) cs
    → Apart cs
    → Apart (cs ++ d ∷ [])
Apart-append [] d h v = (tt, tt)
Apart-append (c ∷ cs) d (p, h) (q, v) = (
  All-append (λ e. is_between c.user_a_id c.user_b_id e ≡ false) cs (d ∷ []) q (p, tt),
  Apart-append cs d h v,
)

All-ids :
    (P : ℕ → Type 0) (cs : List ChatConversation)
    → All (λ c. P c.id) cs
    → All P (map conversation_id cs)
All-ids P [] h = tt
All-ids P (c ∷ cs) (p, h) = (p, All-ids P cs h)

pub Tidy-creates :
    (cs : List ChatConversation) (ms : List ChatMessage) (nc nm a b : ℕ) (p : Option ℕ) (now : ℕ)
    → a < b
    → find_row (is_between a b) cs ≡ none
    → Tidy cs ms nc nm
    → Tidy (cs ++ new_conversation a b p nc now ∷ []) ms (suc nc) nm
Tidy-creates cs ms nc nm a b p now lt gone v =
    let d = new_conversation a b p nc now in
    record {
      ordered = All-append _ cs (d ∷ []) v.ordered (lt, tt);
      apart = Apart-append cs d (absent a b cs gone) v.apart;
      ids = rw map-append (
          Distinct-append nc (map conversation_id cs) (All-ids (λ k. k < nc) cs v.old_conversations)
            v.ids);
      old_conversations =
          All-append _ cs (d ∷ [])
            (All-map (λ c (h : c.id < nc). omega arith) cs v.old_conversations) (omega arith, tt);
      old_messages = v.old_messages;
      written =
          All-map
            (λ m (h : WrittenIn cs m).
              (h.0, find_row-append (is_conversation m.conversation_id) cs (d ∷ []) h.1, h.2))
            ms v.written;
      worded = v.worded;
      last = All-append (HasLast ms) cs (d ∷ []) v.last (λ k e. absurd (cc), tt);
    }

-- A write to conversations that keeps their ids and users.
module _ (p : ChatConversation → Bool) (f : ChatConversation → ChatConversation)
    (same_id : (c : ChatConversation) → (f c).id ≡ c.id)
    (same_a : (c : ChatConversation) → (f c).user_a_id ≡ c.user_a_id)
    (same_b : (c : ChatConversation) → (f c).user_b_id ≡ c.user_b_id) where
  pub Apart-update : (cs : List ChatConversation) → Apart cs → Apart (update_rows p f cs)
  Apart-update [] v = tt
  Apart-update (c ∷ cs) (q, v) = elim (Bool-cases (p c)) [
    | inl e ↦ rw (e, same_a c, same_b c) (others, Apart-update cs v)
    | inr e ↦ rw e (others, Apart-update cs v)
  ]
    where
      others : All (λ d. is_between c.user_a_id c.user_b_id d ≡ false) (update_rows p f cs)
      others =
          All-update_rows (λ d. is_between c.user_a_id c.user_b_id d ≡ false)
            (λ d. is_between c.user_a_id c.user_b_id d ≡ false) p f
            (λ d h t. rw (same_a d, same_b d) h) (λ d h t. h) cs q

  pub WrittenIn-update :
      (cs : List ChatConversation) (m : ChatMessage)
      → WrittenIn cs m
      → WrittenIn (update_rows p f cs) m
  WrittenIn-update cs m (c, e, h) =
      let kept =
        find_row-update_rows (is_conversation m.conversation_id) p f
          (λ d. ap (λ k. k == m.conversation_id) (same_id d)) cs e in
      elim (Bool-cases (p c)) [
        | inl t ↦ (f c, ground (arith, kept, t), rw (same_a c, same_b c) h)
        | inr t ↦ (c, ground (arith, kept, t), h)
      ]

  -- All but the last messages of the conversations.
  pub Tidy-update :
      (cs : List ChatConversation) (ms ms' : List ChatMessage) (nc nm : ℕ)
      → All (HasLast ms') (update_rows p f cs)
      → All (λ m. m.id < nm) ms'
      → All (WrittenIn cs) ms'
      → All (λ m. is_blank m.message_text ≡ false) ms'
      → All (λ c. c.user_a_id < c.user_b_id) cs
      → Apart cs
      → Distinct (map conversation_id cs)
      → All (λ c. c.id < nc) cs
      → Tidy (update_rows p f cs) ms' nc nm
  Tidy-update cs ms ms' nc nm last old written worded ordered apart ids old_c = record {
    ordered =
        All-update_rows (λ c. c.user_a_id < c.user_b_id) (λ c. c.user_a_id < c.user_b_id) p f
          (λ c h t. rw (same_a c, same_b c) h) (λ c h t. h) cs ordered;
    apart = Apart-update cs apart;
    ids = rw (map-update_rows conversation_id conversation_id p f cs same_id) ids;
    old_conversations =
        All-update_rows (λ c. c.id < nc) (λ c. c.id < nc) p f (λ c h t. rw (same_id c) h)
          (λ c h t. h) cs old_c;
    old_messages = old;
    written = All-map (λ m h. WrittenIn-update cs m h) ms' written;
    worded = worded;
    last = last;
  }

find_row_of_new :
    (n : ℕ) (m : ChatMessage) (ms : List ChatMessage)
    → m.id ≡ n
    → All (λ x. x.id < n) ms
    → find_row (is_message n) (ms ++ m ∷ []) ≡ some m
find_row_of_new n m [] e h = ground arith
find_row_of_new n m (x ∷ ms) e (p, h) = ground (arith, find_row_of_new n m ms e h)

HasLast-append :
    (ms : List ChatMessage) (m : ChatMessage) (c : ChatConversation)
    → HasLast ms c
    → HasLast (ms ++ m ∷ []) c
HasLast-append ms m c h k e =
    let (x, f, same) = h k e in (x, find_row-append (is_message k) ms (m ∷ []) f, same)

pub Tidy-sends :
    (cs : List ChatConversation) (ms : List ChatMessage) (nc nm user k now : ℕ) (text : String)
    (c : ChatConversation)
    → find_row (is_conversation k) cs ≡ some c
    → is_participant user c ≡ true
    → is_blank text ≡ false
    → Tidy cs ms nc nm
    → Tidy
        (update_rows (is_conversation k) (with_last nm) cs)
        (ms ++ new_message user k text nm now ∷ [])
        nc
        (suc nm)
Tidy-sends cs ms nc nm user k now text c found member worded v =
    let m = new_message user k text nm now in
    Tidy-update (is_conversation k) (with_last nm) (λ d. refl) (λ d. refl) (λ d. refl) cs ms
      (ms ++ m ∷ []) nc (suc nm)
      (All-update_rows (HasLast ms) (HasLast (ms ++ m ∷ [])) (is_conversation k) (with_last nm)
        (λ d h t j e.
          (m, ground (arith, find_row_of_new nm m ms refl v.old_messages), ground arith))
        (λ d h t. HasLast-append ms m d h) cs v.last)
      (All-append _ ms (m ∷ []) (All-map (λ x (h : x.id < nm). omega arith) ms v.old_messages)
        (omega arith, tt))
      (All-append (WrittenIn cs) ms (m ∷ []) v.written ((c, found, member), tt))
      (All-append _ ms (m ∷ []) v.worded (worded, tt)) v.ordered v.apart v.ids v.old_conversations

pub Tidy-attached :
    (cs : List ChatConversation) (ms : List ChatMessage) (nc nm k : ℕ) (p : Option ℕ)
    → Tidy cs ms nc nm
    → Tidy (update_rows (is_conversation k) (with_product p) cs) ms nc nm
Tidy-attached cs ms nc nm k p v =
    Tidy-update (is_conversation k) (with_product p) (λ d. refl) (λ d. refl) (λ d. refl) cs ms ms nc
      nm
      (All-update_rows (HasLast ms) (HasLast ms) (is_conversation k) (with_product p) (λ d h t. h)
        (λ d h t. h) cs v.last)
      v.old_messages v.written v.worded v.ordered v.apart v.ids v.old_conversations

abbrev as_read : ℕ → ChatMessage → ChatMessage
as_read now m = record m { read_at = some (get_or m.read_at now) }

HasLast-read :
    (ms : List ChatMessage) (k now : ℕ) (c : ChatConversation)
    → HasLast ms c
    → HasLast (update_rows (is_message k) (as_read now) ms) c
HasLast-read ms k now c h j e =
    let (x, f, same) = h j e in
    let kept = find_row-update_rows (is_message j) (is_message k) (as_read now) (λ y. refl) ms f in
    elim (Bool-cases (is_message k x)) [
      | inl t ↦ (as_read now x, ground (arith, kept, t), same)
      | inr t ↦ (x, ground (arith, kept, t), same)
    ]

pub Tidy-reads :
    (cs : List ChatConversation) (ms : List ChatMessage) (nc nm k now : ℕ)
    → Tidy cs ms nc nm
    → Tidy cs (update_rows (is_message k) (as_read now) ms) nc nm
Tidy-reads cs ms nc nm k now v = record {
  ordered = v.ordered;
  apart = v.apart;
  ids = v.ids;
  old_conversations = v.old_conversations;
  old_messages =
      All-update_rows (λ m. m.id < nm) (λ m. m.id < nm) (is_message k) (as_read now) (λ m h t. h)
        (λ m h t. h) ms v.old_messages;
  written =
      All-update_rows (WrittenIn cs) (WrittenIn cs) (is_message k) (as_read now) (λ m h t. h)
        (λ m h t. h) ms v.written;
  worded =
      All-update_rows (λ m. is_blank m.message_text ≡ false) (λ m. is_blank m.message_text ≡ false)
        (is_message k) (as_read now) (λ m h t. h) (λ m h t. h) ms v.worded;
  last = All-map (λ c h. HasLast-read ms k now c h) cs v.last;
}
