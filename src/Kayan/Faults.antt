-- ===== src/Kayan/Faults.antt =====
-- The fault reports in src/kayan/kayan.service.ts: `createFault`, `updateFault`, `cancelFault`,
-- `getFaultForUser`, `adminUpdateFaultStatus`, `assertValidFaultTransition`.
pub mod Workflow
pub mod Log
use Prim.Native.String
use kayan_place.Prelude.{
  ℕ, suc, String, Bool, true, false, not, ◌&&◌, ◌||◌, List, [], ◌∷◌, ◌++◌, map, Option, none, some,
  ◌==◌, get_or,
}
use kayan_place.Prelude.Rows.{find_row, update_rows, any_row}
use kayan_place.Database.{
  Exec, fixed, bad_request, not_found, forbidden, pure, raise, raise_if, gets, modify, ◌>>=◌, ◌>>◌,
  with_transaction,
}
use kayan_place.Kayan.Dto.{
  AuthUser, CreateFaultDto, UpdateFaultDto, FaultStatus, received, assigned, on_the_way,
  in_progress, finished, cancelled, fault, same_fault_status, same_item_type, fault_status_name,
}
use kayan_place.Kayan.Tables.{Db, Fault, HistoryEntry, rollback}
use kayan_place.Kayan.Assets.{AssetView, attach_assets}
use kayan_place.Kayan.Assets.Faults.{sync_fault_assets}

-- The table of `assertValidFaultTransition`.
unfoldable pub transitions : FaultStatus → List FaultStatus
transitions received = assigned ∷ cancelled ∷ []
transitions assigned = on_the_way ∷ cancelled ∷ []
transitions on_the_way = in_progress ∷ cancelled ∷ []
transitions in_progress = finished ∷ cancelled ∷ []
transitions finished = []
transitions cancelled = []

abbrev pub includes : List FaultStatus → FaultStatus → Bool
includes [] status = false
includes (x ∷ xs) status = same_fault_status x status || includes xs status

transition_refusal : FaultStatus → FaultStatus → String
transition_refusal current next =
    String.◌++◌ "Invalid fault status transition from "
      (String.◌++◌ (fault_status_name current) (String.◌++◌ " to " (fault_status_name next)))

-- `if (current === next) return`, then the test of the table
unfoldable pub allows : FaultStatus → FaultStatus → Bool
unfolding transitions
allows current next = same_fault_status current next || includes (transitions current) next

unfoldable pub assert_valid_fault_transition : FaultStatus → FaultStatus → Exec Db (Unit {0})
unfolding allows transition_refusal
assert_valid_fault_transition current next =
    raise_if (not (allows current next)) (bad_request (fixed (transition_refusal current next)))

pub record FaultView : Type 0 where
  pub fault : Fault
  pub has_rated : Bool
  pub images : List AssetView

abbrev pub has_rated : Db → (user_id fault_id : ℕ) → Bool
has_rated s user_id fault_id =
    any_row (λ r. same_item_type r.item_type fault && r.item_id == fault_id && r.user_id == user_id)
      s.item_ratings

abbrev pub fault_views : Db → ℕ → List Fault → List FaultView
fault_views s user_id rows =
    map (λ r. record { fault = r.0; has_rated = has_rated s user_id r.0.id; images = r.1 })
      (attach_assets s.fault_assets s (λ f. f.id) rows)

view_fault : (user_id : ℕ) → Bool → Option Fault → Exec Db (List FaultView)
view_fault user_id allow_admin none = raise (not_found (fixed "Fault not found"))
view_fault user_id allow_admin (some f) = do
  raise_if (not allow_admin && not (f.user_id == user_id)) (forbidden (fixed "Not allowed"))
  gets (λ s. fault_views s user_id (f ∷ []))

-- `getFaultForUserWithExecutor`
unfoldable pub get_fault_for_user : (user_id fault_id : ℕ) → Bool → Exec Db (List FaultView)
unfolding view_fault
get_fault_for_user user_id fault_id allow_admin = do
  found ← gets (λ s. find_row (λ f. f.id == fault_id) s.faults)
  view_fault user_id allow_admin found

abbrev pub fault_entry : Db → ℕ → FaultStatus → ℕ → HistoryEntry FaultStatus
fault_entry s fault_id status changed_by = record {
  id = s.next_fault_history;
  item_id = fault_id;
  status = status;
  changed_by = changed_by;
  created_at = s.clock;
}

abbrev pub with_fault_history : Db → ℕ → FaultStatus → ℕ → Db
with_fault_history s fault_id status changed_by = record s {
  sequences = record s.sequences { next_fault_history = suc s.next_fault_history };
  fault_history = s.fault_history ++ fault_entry s fault_id status changed_by ∷ [];
}

-- INSERT INTO fault_status_history
unfoldable pub insert_fault_history : ℕ → FaultStatus → (changed_by : ℕ) → Exec Db (Unit {0})
insert_fault_history fault_id status changed_by =
    modify (λ s. with_fault_history s fault_id status changed_by)

abbrev pub new_fault : Db → AuthUser → CreateFaultDto → Fault
new_fault s user dto = record {
  id = s.next_fault;
  user_id = user.sub;
  title = dto.title;
  description = dto.description;
  severity = dto.severity;
  address = dto.address;
  status = received;
  cancelled_at = none;
  created_at = s.clock;
  updated_at = s.clock;
}

abbrev pub with_fault : Db → AuthUser → CreateFaultDto → Db
with_fault s user dto = record s {
  sequences = record s.sequences { next_fault = suc s.next_fault };
  faults = s.faults ++ new_fault s user dto ∷ [];
}

-- INSERT INTO fault_reports … RETURNING id
insert_fault : AuthUser → CreateFaultDto → Exec Db ℕ
insert_fault user dto s = pure s.next_fault (with_fault s user dto)

-- The callback of the transaction of `createFault`.
unfoldable pub create_fault_callback : AuthUser → CreateFaultDto → Exec Db (List FaultView)
unfolding insert_fault insert_fault_history
create_fault_callback user dto = do
  fault_id ← insert_fault user dto
  sync_fault_assets fault_id (get_or dto.image_file_ids [])
  insert_fault_history fault_id received user.sub
  get_fault_for_user user.sub fault_id true

unfoldable pub create_fault : AuthUser → CreateFaultDto → Exec Db (List FaultView)
create_fault user dto = with_transaction rollback (create_fault_callback user dto)

abbrev pub own_fault : AuthUser → ℕ → Fault → Bool
own_fault user fault_id f = f.id == fault_id && f.user_id == user.sub

-- The two exceptions after SELECT status … WHERE id = $1 AND user_id = $2
unfoldable pub require_received : String → Option Fault → Exec Db (Unit {0})
require_received refusal none = raise (not_found (fixed "Fault not found"))
require_received refusal (some f) =
    raise_if (not (same_fault_status f.status received)) (bad_request (fixed refusal))

sync_given : ℕ → Option (List ℕ) → Exec Db (Unit {0})
sync_given fault_id none = pure tt
sync_given fault_id (some ids) = sync_fault_assets fault_id ids

abbrev pub patch_fault : Db → UpdateFaultDto → Fault → Fault
patch_fault s dto f = record f {
  title = get_or dto.title f.title;
  description = get_or dto.description f.description;
  severity = get_or dto.severity f.severity;
  address = get_or dto.address f.address;
  updated_at = s.clock;
}

abbrev pub with_patched_fault : Db → ℕ → UpdateFaultDto → Db
with_patched_fault s fault_id dto = record s {
  faults = update_rows (λ f. f.id == fault_id) (patch_fault s dto) s.faults;
}

-- The callback of the transaction of `updateFault`.
unfoldable pub update_fault_callback : AuthUser → ℕ → UpdateFaultDto → Exec Db (List FaultView)
unfolding require_received sync_given
update_fault_callback user fault_id dto = do
  found ← gets (λ s. find_row (own_fault user fault_id) s.faults)
  require_received "Fault can only be updated before processing starts" found
  modify (λ s. with_patched_fault s fault_id dto)
  sync_given fault_id dto.image_file_ids
  get_fault_for_user user.sub fault_id true

unfoldable pub update_fault : AuthUser → ℕ → UpdateFaultDto → Exec Db (List FaultView)
update_fault user fault_id dto = with_transaction rollback (update_fault_callback user fault_id dto)

abbrev pub with_cancelled_fault : Db → ℕ → Db
with_cancelled_fault s fault_id = record s {
  faults =
      update_rows (λ f. f.id == fault_id)
        (λ f. record f { status = cancelled; cancelled_at = some s.clock; updated_at = s.clock })
        s.faults;
}

unfoldable pub cancel_fault : AuthUser → ℕ → Exec Db (List FaultView)
unfolding require_received insert_fault_history
cancel_fault user fault_id = do
  found ← gets (λ s. find_row (own_fault user fault_id) s.faults)
  require_received "Fault cancellation allowed only before processing starts" found
  modify (λ s. with_cancelled_fault s fault_id)
  insert_fault_history fault_id cancelled user.sub
  get_fault_for_user user.sub fault_id true

require_fault : Option Fault → Exec Db Fault
require_fault none = raise (not_found (fixed "Fault not found"))
require_fault (some f) = pure f

abbrev pub with_fault_status : Db → ℕ → FaultStatus → Db
with_fault_status s fault_id status = record s {
  faults =
      update_rows (λ f. f.id == fault_id) (λ f. record f { status = status; updated_at = s.clock })
        s.faults;
}

unfoldable pub admin_update_fault_status : AuthUser → ℕ → FaultStatus → Exec Db (List FaultView)
unfolding require_fault assert_valid_fault_transition insert_fault_history
admin_update_fault_status admin fault_id status = do
  found ← gets (λ s. find_row (λ f. f.id == fault_id) s.faults)
  current ← require_fault found
  assert_valid_fault_transition current.status status
  modify (λ s. with_fault_status s fault_id status)
  insert_fault_history fault_id status admin.sub
  get_fault_for_user 0 fault_id true
