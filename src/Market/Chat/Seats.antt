-- ===== src/Market/Chat/Seats.antt =====
-- The operations of src/chat/chat-socket-registry.service.ts seat no others.
use kayan_place.Prelude.{
  ℕ, ◌≡◌, refl, subst, Bool, true, false, not, List, [], ◌∷◌, ◌==◌, get_or, if◌then◌else◌, arith,
  Bool-cases, Option-cases, inl, inr, All, All-append,
}
use kayan_place.Prelude.Maps.{map_get, map_set, map_delete}
use kayan_place.Prelude.Rows.{any_row, delete_rows, All-delete_rows}
use kayan_place.Market.Tables.{ChatConversation}
use kayan_place.Market.Chat.Registry.{
  Registry, EventName, register_user_socket, unregister_user_socket, join_room, emit_to, join_all,
  join_users, positive_ids, unique_ids, sockets_of, add_to, is_member, put_or_delete,
  emit_conversation_joined_to_participants, conversation_joined,
}
use kayan_place.Market.Chat.Gateway.{Client}
use kayan_place.Market.Chat.Rooms.{HasClient, TakesPart, Seat, OwnSockets, Seated}

pub join_room-Seated :
    (cs : List ChatConversation) (clients : List Client) (r : Registry) (user room socket : ℕ)
    → HasClient clients user socket
    → TakesPart cs user room
    → Seated cs clients r
    → Seated cs clients (join_room room socket r)
unfolding join_room
join_room-Seated cs clients r user room socket has part v =
    elim (Bool-cases (any_row (is_member socket room) r.members)) [
      | inl e ↦ rw e v
      | inr e ↦ rw e (record {
        seats =
            All-append (Seat cs clients) r.members (record { socket = socket; room = room } ∷ [])
              v.seats ((user, has, part), tt);
        own = v.own;
      })
    ]

pub emit_to-Seated :
    (cs : List ChatConversation) (clients : List Client) (r : Registry) (event : EventName)
    (room : ℕ)
    → Seated cs clients r
    → Seated cs clients (emit_to event room r)
unfolding emit_to
emit_to-Seated cs clients r event room v = record { seats = v.seats; own = v.own }

All-map_set :
    (P : ℕ × List ℕ → Type 0) (k : ℕ) (xs : List ℕ) (m : List (ℕ × List ℕ))
    → P (k, xs)
    → All P m
    → All P (map_set k xs m)
All-map_set P k xs [] p h = (p, tt)
All-map_set P k xs ((j, ys) ∷ m) p (q, h) = elim (Bool-cases (j == k)) [
  | inl e ↦ let same : k ≡ j = ground arith in rw e (subst (λ i. P (i, xs)) same p, h)
  | inr e ↦ rw e (q, All-map_set P k xs m p h)
]

All-map_delete :
    (P : ℕ × List ℕ → Type 0) (k : ℕ) (m : List (ℕ × List ℕ)) → All P m → All P (map_delete k m)
All-map_delete P k [] h = tt
All-map_delete P k ((j, ys) ∷ m) (q, h) = elim (Bool-cases (j == k)) [
  | inl e ↦ rw e (All-map_delete P k m h)
  | inr e ↦ rw e (q, All-map_delete P k m h)
]

own-sockets :
    (clients : List Client) (k : ℕ) (m : List (ℕ × List ℕ))
    → All (OwnSockets clients) m
    → All (HasClient clients k) (get_or (map_get k m) [])
own-sockets clients k [] h = tt
own-sockets clients k ((j, ys) ∷ m) (q, h) = elim (Bool-cases (j == k)) [
  | inl e ↦
      let same : j ≡ k = ground arith in rw e (subst (λ i. All (HasClient clients i) ys) same q)
  | inr e ↦ rw e (own-sockets clients k m h)
]

All-add_to : (P : ℕ → Type 0) (x : ℕ) (xs : List ℕ) → P x → All P xs → All P (add_to x xs)
All-add_to P x xs p h = elim (Bool-cases (any_row (λ y. y == x) xs)) [
  | inl e ↦ rw e h
  | inr e ↦ rw e (All-append P xs (x ∷ []) h (p, tt))
]

pub register-Seated :
    (cs : List ChatConversation) (clients : List Client) (r : Registry) (user socket : ℕ)
    → HasClient clients user socket
    → Seated cs clients r
    → Seated cs clients (register_user_socket user socket r)
unfolding register_user_socket sockets_of
register-Seated cs clients r user socket has v =
    let held = own-sockets clients user r.sockets_by_user v.own in
    let kept = get_or (map_get user r.sockets_by_user) [] in
    record {
      seats = v.seats;
      own =
          All-map_set (OwnSockets clients) user (add_to socket kept) r.sockets_by_user
            (All-add_to (HasClient clients user) socket kept has held) v.own;
    }

put_or_delete-own :
    (clients : List Client) (k : ℕ) (xs : List ℕ) (m : List (ℕ × List ℕ))
    → All (HasClient clients k) xs
    → All (OwnSockets clients) m
    → All (OwnSockets clients) (put_or_delete k xs m)
put_or_delete-own clients k [] m h v = All-map_delete (OwnSockets clients) k m v
put_or_delete-own clients k (x ∷ xs) m h v = All-map_set (OwnSockets clients) k (x ∷ xs) m h v

pub unregister-Seated :
    (cs : List ChatConversation) (clients : List Client) (r : Registry) (user socket : ℕ)
    → Seated cs clients r
    → Seated cs clients (unregister_user_socket user socket r)
unfolding unregister_user_socket
unregister-Seated cs clients r user socket v =
    elim (Option-cases (map_get user r.sockets_by_user)) [
      | inl e ↦ rw e v
      | inr (sockets, e) ↦
          let held : All (HasClient clients user) sockets =
            subst (λ o. All (HasClient clients user) (get_or o [])) e
              (own-sockets clients user r.sockets_by_user v.own) in
          rw e (record {
            seats = v.seats;
            own =
                put_or_delete-own clients user (delete_rows (λ x. x == socket) sockets)
                  r.sockets_by_user
                  (All-delete_rows (HasClient clients user) (λ x. x == socket) sockets held) v.own;
          })
    ]

join_room-own :
    (room socket : ℕ) (r : Registry) → (join_room room socket r).sockets_by_user ≡ r.sockets_by_user
unfolding join_room
join_room-own room socket r = refl

join_all-Seated :
    (cs : List ChatConversation) (clients : List Client) (user room : ℕ) (xs : List ℕ)
    (r : Registry)
    → All (HasClient clients user) xs
    → TakesPart cs user room
    → Seated cs clients r
    → Seated cs clients (join_all room xs r)
unfolding join_all
join_all-Seated cs clients user room [] r h part v = v
join_all-Seated cs clients user room (x ∷ xs) r (p, h) part v =
    join_all-Seated cs clients user room xs (join_room room x r) h part
      (join_room-Seated cs clients r user room x p part v)

join_users-Seated :
    (cs : List ChatConversation) (clients : List Client) (room : ℕ) (users : List ℕ) (r : Registry)
    → All (λ u. TakesPart cs u room) users
    → Seated cs clients r
    → Seated cs clients (join_users room users r)
unfolding join_users sockets_of
join_users-Seated cs clients room [] r h v = v
join_users-Seated cs clients room (u ∷ users) r (p, h) v =
    join_users-Seated cs clients room users (join_all room (sockets_of r u) r) h (
      join_all-Seated cs clients u room (sockets_of r u) r
        (own-sockets clients u r.sockets_by_user v.own) p v)

All-positive : (P : ℕ → Type 0) (ks : List ℕ) → All P ks → All P (positive_ids ks)
All-positive P [] h = tt
All-positive P (k ∷ ks) (p, h) = elim (Bool-cases (k == 0)) [
  | inl e ↦ rw e (All-positive P ks h)
  | inr e ↦ rw e (p, All-positive P ks h)
]

All-unique : (P : ℕ → Type 0) (ks : List ℕ) → All P ks → All P (unique_ids ks)
unfolding unique_ids
All-unique P [] h = tt
All-unique P (k ∷ ks) (p, h) =
    (p, All-delete_rows P (λ x. x == k) (unique_ids ks) (All-unique P ks h))

either-Seated :
    (cs : List ChatConversation) (clients : List Client) (r t : Registry) (b : Bool)
    → Seated cs clients r
    → Seated cs clients t
    → Seated cs clients (if not b then r else t)
either-Seated cs clients r t true v w = w
either-Seated cs clients r t false v w = v

pub emit_joined-Seated :
    (cs : List ChatConversation) (clients : List Client) (room : ℕ) (users : List ℕ) (r : Registry)
    → All (λ u. TakesPart cs u room) users
    → Seated cs clients r
    → Seated cs clients (emit_conversation_joined_to_participants room users r)
unfolding emit_conversation_joined_to_participants
emit_joined-Seated cs clients room users r h v =
    let joined = join_users room (unique_ids (positive_ids users)) r in
    either-Seated cs clients r (emit_to conversation_joined room joined) r.has_server v (
      emit_to-Seated cs clients joined conversation_joined room (
        join_users-Seated cs clients room (unique_ids (positive_ids users)) r
          (All-unique (λ u. TakesPart cs u room) (positive_ids users)
            (All-positive (λ u. TakesPart cs u room) users h))
          v))
