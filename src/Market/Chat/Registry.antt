-- ===== src/Market/Chat/Registry.antt =====
-- `ChatSocketRegistryService` of src/chat/chat-socket-registry.service.ts: which sockets a user has.
-- A socket is the number of its connection; a room is the conversation that it is named for.
use kayan_place.Prelude.{
  ℕ, Bool, true, not, ◌&&◌, List, [], ◌∷◌, ◌++◌, Option, none, some, ◌==◌, if◌then◌else◌, get_or,
}
use kayan_place.Prelude.Maps.{map_get, map_set, map_delete}
use kayan_place.Prelude.Rows.{select_rows, delete_rows, any_row}
use kayan_place.Market.Access.{to_positive_int}

-- `room` holds `socket`: what `socket.join` did.
pub record Membership : Type 0 where
  pub socket : ℕ
  pub room : ℕ

pub data EventName : Type 0 where
  conversation_joined message_received message_read : EventName

-- `server.to(room).emit(event, …)`, with the members of the room.
pub record Emitted : Type 0 where
  pub event : EventName
  pub room : ℕ
  pub receivers : List ℕ

pub record Registry : Type 0 where
  pub has_server : Bool
  -- the map `socketsByUserId` to sets
  pub sockets_by_user : List (ℕ × List ℕ)
  pub members : List Membership
  pub emitted : List Emitted

unfoldable pub sockets_of : Registry → ℕ → List ℕ
sockets_of r user_id = get_or (map_get user_id r.sockets_by_user) []

-- `Set.add`
abbrev pub add_to : ℕ → List ℕ → List ℕ
add_to x xs = if any_row (λ y. y == x) xs then xs else xs ++ x ∷ []

unfoldable pub set_server : Registry → Registry
set_server r = record r { has_server = true }

unfoldable pub register_user_socket : ℕ → ℕ → Registry → Registry
unfolding sockets_of
register_user_socket user_id socket r = record r {
  sockets_by_user = map_set user_id (add_to socket (sockets_of r user_id)) r.sockets_by_user;
}

abbrev pub put_or_delete : ℕ → List ℕ → List (ℕ × List ℕ) → List (ℕ × List ℕ)
put_or_delete user_id [] m = map_delete user_id m
put_or_delete user_id (x ∷ xs) m = map_set user_id (x ∷ xs) m

abbrev pub unregister_from : ℕ → ℕ → Registry → Option (List ℕ) → Registry
unregister_from user_id socket r none = r
unregister_from user_id socket r (some sockets) = record r {
  sockets_by_user =
      put_or_delete user_id (delete_rows (λ x. x == socket) sockets) r.sockets_by_user;
}

unfoldable pub unregister_user_socket : ℕ → ℕ → Registry → Registry
unregister_user_socket user_id socket r =
    unregister_from user_id socket r (map_get user_id r.sockets_by_user)

abbrev pub is_member : ℕ → ℕ → Membership → Bool
is_member socket room m = m.socket == socket && m.room == room

-- `socket.join(room)`
unfoldable pub join_room : ℕ → ℕ → Registry → Registry
join_room room socket r = record r {
  members =
      if any_row (is_member socket room) r.members
      then r.members
      else r.members ++ record { socket = socket; room = room } ∷ [];
}

abbrev pub sockets_of_members : List Membership → List ℕ
sockets_of_members [] = []
sockets_of_members (m ∷ ms) = m.socket ∷ sockets_of_members ms

unfoldable pub emit_to : EventName → ℕ → Registry → Registry
emit_to event room r = record r {
  emitted =
      r.emitted
      ++ record {
        event = event;
        room = room;
        receivers = sockets_of_members (select_rows (λ m. m.room == room) r.members);
      }
        ∷ [];
}

unfoldable pub join_all : ℕ → List ℕ → Registry → Registry
unfolding join_room
join_all room [] r = r
join_all room (x ∷ xs) r = join_all room xs (join_room room x r)

unfoldable pub join_users : ℕ → List ℕ → Registry → Registry
unfolding join_all sockets_of
join_users room [] r = r
join_users room (u ∷ us) r = join_users room us (join_all room (sockets_of r u) r)

abbrev keep_id : Option ℕ → List ℕ → List ℕ
keep_id none rest = rest
keep_id (some k) rest = k ∷ rest

-- `map(toPositiveInt)` and the filter of null
abbrev pub positive_ids : List ℕ → List ℕ
positive_ids [] = []
positive_ids (k ∷ ks) = keep_id (to_positive_int k) (positive_ids ks)

-- `[...new Set(ids)]`, the first of each
unfoldable pub unique_ids : List ℕ → List ℕ
unique_ids [] = []
unique_ids (k ∷ ks) = k ∷ delete_rows (λ x. x == k) (unique_ids ks)

unfoldable pub emit_conversation_joined_to_participants : ℕ → List ℕ → Registry → Registry
unfolding join_users unique_ids emit_to
emit_conversation_joined_to_participants conversation_id participant_user_ids r =
    if not r.has_server
    then r
    else emit_to conversation_joined conversation_id
        (join_users conversation_id (unique_ids (positive_ids participant_user_ids)) r)
