-- ===== src/Kayan/Faults/Log.antt =====
-- The fault reports and their status history in src/kayan/kayan.service.ts.
use kayan_place.Prelude.{
  ℕ, ◌≤◌, ◌≡◌, refl, true, inl, inr, List, [], ◌∷◌, ◌++◌, Option, suc, Bool, none, some, arith,
  ◌==◌, get_or, Option-cases, Bool-cases,
}
use kayan_place.Prelude.Rows.{find_row, update_rows, find_row-true}
use kayan_place.Database.{state, Outcome-cases}
use kayan_place.Kayan.Dto.{
  AuthUser, CreateFaultDto, UpdateFaultDto, FaultStatus, received, cancelled, same_fault_status,
}
use kayan_place.Kayan.Tables.{Db, Fault, HistoryEntry}
use kayan_place.Kayan.History.{
  IsLogged, IsLogged-insert, IsLogged-update, IsLogged-touch, IsLogged-later, find_row-id,
}
use kayan_place.Kayan.Assets.Faults.{sync_fault_assets}
use kayan_place.Kayan.Assets.Frames.{SameFaults, sync_fault_assets-SameFaults}
use kayan_place.Kayan.Faults.{
  allows, get_fault_for_user, new_fault, with_fault, fault_entry, with_fault_history,
  with_patched_fault, patch_fault, with_cancelled_fault, with_fault_status, sync_given,
  create_fault_callback, create_fault, update_fault_callback, update_fault, cancel_fault,
  admin_update_fault_status, own_fault, insert_fault_history,
}

-- The ids of the reports are distinct and below the next one, and every report has the status that
-- its history ends in.
abbrev pub FaultsLogged : Db → Type 0
FaultsLogged s = IsLogged (λ f. f.id) (λ f. f.status) s.next_fault s.faults s.fault_history

-- What one request does to the reports and their history: nothing, one report more, an edit of
-- other columns than the status, or one move that is logged.
pub data FaultWrite (s t : Db) : Type 0 where
  keeps :
      t.faults ≡ s.faults
      → t.fault_history ≡ s.fault_history
      → s.next_fault ≤ t.next_fault
      → FaultWrite s t
  creates :
      (f : Fault) (h : HistoryEntry FaultStatus)
      → f.id ≡ s.next_fault
      → h.item_id ≡ s.next_fault
      → h.status ≡ f.status
      → t.faults ≡ s.faults ++ f ∷ []
      → t.fault_history ≡ s.fault_history ++ h ∷ []
      → t.next_fault ≡ suc s.next_fault
      → FaultWrite s t
  edits :
      (p : Fault → Bool) (g : Fault → Fault)
      → ((f : Fault) → (g f).id ≡ f.id)
      → ((f : Fault) → (g f).status ≡ f.status)
      → t.faults ≡ update_rows p g s.faults
      → t.fault_history ≡ s.fault_history
      → t.next_fault ≡ s.next_fault
      → FaultWrite s t
  moves :
      (k : ℕ) (old : Fault) (g : Fault → Fault) (h : HistoryEntry FaultStatus)
      → find_row (λ f. f.id == k) s.faults ≡ some old
      → allows old.status h.status ≡ true
      → h.item_id ≡ k
      → ((f : Fault) → (g f).id ≡ f.id)
      → ((f : Fault) → (g f).status ≡ h.status)
      → t.faults ≡ update_rows (λ f. f.id == k) g s.faults
      → t.fault_history ≡ s.fault_history ++ h ∷ []
      → t.next_fault ≡ s.next_fault
      → FaultWrite s t

pub FaultWrite-FaultsLogged : {s t : Db} → FaultWrite s t → FaultsLogged s → FaultsLogged t
FaultWrite-FaultsLogged {s} {t} (keeps a b c) v =
    rw (a, b) (IsLogged-later (λ f. f.id) (λ f. f.status) s.next_fault t.next_fault _ _ c v)
FaultWrite-FaultsLogged {s} (creates f h i j k a b c) v =
    rw (a, b, c) (IsLogged-insert (λ f. f.id) (λ f. f.status) s.next_fault _ _ f h i j k v)
FaultWrite-FaultsLogged {s} (edits p g i j a b c) v =
    rw (a, b, c) (IsLogged-touch (λ f. f.id) (λ f. f.status) s.next_fault _ _ p g i j v)
FaultWrite-FaultsLogged {s} (moves k old g h e al i j m a b c) v =
    rw (a, b, c) (IsLogged-update (λ f. f.id) (λ f. f.status) s.next_fault k _ _ g h i j m v)

get_fault-state :
    (user_id k : ℕ) (allow : Bool) (s : Db) → state (get_fault_for_user user_id k allow s) ≡ s
unfolding get_fault_for_user
get_fault-state user_id k allow s = ground arith

sync_given-SameFaults :
    (k : ℕ) (ids : Option (List ℕ)) (s : Db) → SameFaults s (state (sync_given k ids s))
unfolding sync_given
sync_given-SameFaults k none s = ground arith
sync_given-SameFaults k (some ids) s = sync_fault_assets-SameFaults k ids s

pub create_fault-FaultWrite :
    (user : AuthUser) (dto : CreateFaultDto) (s : Db)
    → FaultWrite s (state (create_fault user dto s))
unfolding create_fault create_fault_callback insert_fault_history get_fault_for_user
create_fault-FaultWrite user dto s =
    let u = with_fault s user dto in
    let ids : List ℕ = get_or dto.image_file_ids [] in
    elim (Outcome-cases (sync_fault_assets s.next_fault ids u)) [
      | inl (_, t, e) ↦
          let same : SameFaults u t =
            ground (arith, sync_fault_assets-SameFaults s.next_fault ids u) in
          elim (Option-cases (find_row (λ f. f.id == s.next_fault) t.faults)) [
            | inl missing ↦ keeps (ground arith) (ground arith) (ground (arith, same.next_fault))
            | inr (f, found) ↦
                creates (new_fault s user dto) (fault_entry t s.next_fault received user.sub) refl
                  refl refl (ground (arith, same.faults)) (ground (arith, same.fault_history))
                  (ground (arith, same.next_fault))
          ]
      | inr (x, t, e) ↦
          keeps (ground arith) (ground arith)
            (ground (arith, sync_fault_assets-SameFaults s.next_fault ids u))
    ]

pub update_fault-FaultWrite :
    (user : AuthUser) (k : ℕ) (dto : UpdateFaultDto) (s : Db)
    → FaultWrite s (state (update_fault user k dto s))
unfolding update_fault update_fault_callback get_fault_for_user
update_fault-FaultWrite user k dto s =
    let u = with_patched_fault s k dto in
    elim (Option-cases (find_row (own_fault user k) s.faults)) [
      | inl missing ↦ keeps (ground arith) (ground arith) (ground arith)
      | inr (old, mine) ↦ elim (Bool-cases (same_fault_status old.status received)) [
        | inr closed ↦ keeps (ground arith) (ground arith) (ground arith)
        | inl fresh ↦ elim (Outcome-cases (sync_given k dto.image_file_ids u)) [
          | inr (x, t, e) ↦
              keeps (ground arith) (ground arith)
                (ground (arith, sync_given-SameFaults k dto.image_file_ids u))
          | inl (_, t, e) ↦
              let same : SameFaults u t =
                ground (arith, sync_given-SameFaults k dto.image_file_ids u) in
              elim (Option-cases (find_row (λ f. f.id == k) t.faults)) [
                | inl gone ↦ keeps (ground arith) (ground arith) (ground (arith, same.next_fault))
                | inr (f, found) ↦
                    edits (λ f. f.id == k) (patch_fault s dto) (λ f. refl) (λ f. refl)
                      (ground (arith, same.faults)) (ground (arith, same.fault_history))
                      (ground (arith, same.next_fault))
              ]
        ]
      ]
    ]

pub cancel_fault-FaultWrite :
    (user : AuthUser) (k : ℕ) (s : Db)
    → FaultsLogged s
    → FaultWrite s (state (cancel_fault user k s))
unfolding cancel_fault insert_fault_history allows
cancel_fault-FaultWrite user k s v =
    let u = with_fault_history (with_cancelled_fault s k) k cancelled user.sub in
    elim (Option-cases (find_row (own_fault user k) s.faults)) [
      | inl missing ↦ keeps (ground arith) (ground arith) (ground arith)
      | inr (old, mine) ↦ elim (Bool-cases (same_fault_status old.status received)) [
        | inr closed ↦ keeps (ground arith) (ground arith) (ground arith)
        | inl fresh ↦
            let done : state (cancel_fault user k s) ≡ u =
              ground (arith, get_fault-state user.sub k true u) in
            moves k old
              (λ f. record f {
                status = cancelled;
                cancelled_at = some s.clock;
                updated_at = s.clock;
              })
              (fault_entry (with_cancelled_fault s k) k cancelled user.sub)
              (find_row-id (λ f. f.id) k (own_fault user k) s.faults v.distinct mine
                (ground (arith, find_row-true (own_fault user k) s.faults mine)))
              (ground arith) refl (λ f. refl) (λ f. refl) (ground (arith, done))
              (ground (arith, done)) (ground (arith, done))
      ]
    ]

pub admin_update_fault_status-FaultWrite :
    (admin : AuthUser) (k : ℕ) (status : FaultStatus) (s : Db)
    → FaultWrite s (state (admin_update_fault_status admin k status s))
unfolding admin_update_fault_status insert_fault_history
admin_update_fault_status-FaultWrite admin k status s =
    let u = with_fault_history (with_fault_status s k status) k status admin.sub in
    elim (Option-cases (find_row (λ f. f.id == k) s.faults)) [
      | inl missing ↦ keeps (ground arith) (ground arith) (ground arith)
      | inr (old, found) ↦ elim (Bool-cases (allows old.status status)) [
        | inr refused ↦ keeps (ground arith) (ground arith) (ground arith)
        | inl fine ↦
            let done : state (admin_update_fault_status admin k status s) ≡ u =
              ground (arith, get_fault-state 0 k true u) in
            moves k old (λ f. record f { status = status; updated_at = s.clock })
              (fault_entry (with_fault_status s k status) k status admin.sub) found fine refl
              (λ f. refl) (λ f. refl) (ground (arith, done)) (ground (arith, done))
              (ground (arith, done))
      ]
    ]
