-- ===== src/Kayan/Services/Log.antt =====
-- The service orders and their status history in src/kayan/kayan.service.ts.
use kayan_place.Prelude.{
  ℕ, ◌≡◌, refl, Bool, true, false, ◌⊎◌, inl, inr, List, [], ◌∷◌, some, arith, ◌==◌,
}
use kayan_place.Prelude.Rows.{update_rows, any_row}
use kayan_place.Database.{state}
use kayan_place.Kayan.Dto.{
  AuthUser, CreateServiceOrderDto, UpdateServiceOrderDto, ServiceStatus, cancelled,
}
use kayan_place.Kayan.Tables.{Db, ServiceOrder}
use kayan_place.Kayan.History.{IsLogged, IsLogged-insert, IsLogged-update, IsLogged-touch}
use kayan_place.Kayan.Services.{
  new_service, with_service_history, with_patched_service, with_cancelled_service,
  with_service_status, insert_service_history, get_service_for_user, create_service, update_service,
  cancel_service, admin_update_service_status,
}
use kayan_place.Prelude.{get_or}

-- The ids of the service orders are distinct and below the next one, and every service order has
-- the status that its history ends in.
abbrev pub ServicesLogged : Db → Type 0
ServicesLogged s = IsLogged (λ o. o.id) (λ o. o.status) s.next_service s.services s.service_history

get_service-state :
    (user_id k : ℕ) (allow : Bool) (s : Db) → state (get_service_for_user user_id k allow s) ≡ s
unfolding get_service_for_user
get_service-state user_id k allow s = ground arith

pub create_service-ServicesLogged :
    (user : AuthUser) (dto : CreateServiceOrderDto) (s : Db)
    → ServicesLogged s
    → ServicesLogged (state (create_service user dto s))
unfolding create_service insert_service_history
create_service-ServicesLogged user dto s v =
    IsLogged-insert (λ o. o.id) (λ o. o.status) s.next_service s.services s.service_history
      (new_service s user dto) _ refl refl refl v

update_service-state :
    (user : AuthUser) (k : ℕ) (dto : UpdateServiceOrderDto) (s : Db)
    → (state (update_service user k dto s) ≡ s)
      ⊎ (state (update_service user k dto s) ≡ with_patched_service s k dto)
unfolding update_service
update_service-state user k dto s =
    ground (arith, get_service-state user.sub k true (with_patched_service s k dto))

cancel_service-state :
    (user : AuthUser) (k : ℕ) (s : Db)
    → (state (cancel_service user k s) ≡ s)
      ⊎ (state (cancel_service user k s)
          ≡ with_service_history (with_cancelled_service s k) k cancelled user.sub)
unfolding cancel_service insert_service_history
cancel_service-state user k s = ground (
  arith,
  get_service-state user.sub k true
      (with_service_history (with_cancelled_service s k) k cancelled user.sub),
)

-- An unknown service order is updated nowhere.
update_none_service :
    (k : ℕ) (f : ServiceOrder → ServiceOrder) (os : List ServiceOrder)
    → any_row (λ o. o.id == k) os ≡ false
    → update_rows (λ o. o.id == k) f os ≡ os
update_none_service k f [] h = refl
update_none_service k f (o ∷ os) h = ground (arith, update_none_service k f os)

admin_update_service_status-state :
    (admin : AuthUser) (k : ℕ) (status : ServiceStatus) (s : Db)
    → (state (admin_update_service_status admin k status s) ≡ s)
      ⊎ (state (admin_update_service_status admin k status s)
          ≡ with_service_history (with_service_status s k status) k status admin.sub)
unfolding admin_update_service_status insert_service_history
admin_update_service_status-state admin k status s = ground (
  arith,
  get_service-state 0 k true
      (with_service_history (with_service_status s k status) k status admin.sub),
  update_none_service k (λ o. record o { status = status; updated_at = s.clock }) s.services,
)

pub update_service-ServicesLogged :
    (user : AuthUser) (k : ℕ) (dto : UpdateServiceOrderDto) (s : Db)
    → ServicesLogged s
    → ServicesLogged (state (update_service user k dto s))
update_service-ServicesLogged user k dto s v = elim (update_service-state user k dto s) [
  | inl e ↦ rw e v
  | inr e ↦ rw e (
      IsLogged-touch (λ o. o.id) (λ o. o.status) s.next_service s.services s.service_history
        (λ o. o.id == k)
        (λ o. record o {
          description = get_or dto.description o.description;
          address = get_or dto.address o.address;
          updated_at = s.clock;
        })
        (λ o. refl) (λ o. refl) v)
]

pub cancel_service-ServicesLogged :
    (user : AuthUser) (k : ℕ) (s : Db)
    → ServicesLogged s
    → ServicesLogged (state (cancel_service user k s))
cancel_service-ServicesLogged user k s v = elim (cancel_service-state user k s) [
  | inl e ↦ rw e v
  | inr e ↦ rw e (
      IsLogged-update (λ o. o.id) (λ o. o.status) s.next_service k s.services s.service_history
        (λ o. record o { status = cancelled; cancelled_at = some s.clock; updated_at = s.clock }) _
        refl (λ o. refl) (λ o. refl) v)
]

pub admin_update_service_status-ServicesLogged :
    (admin : AuthUser) (k : ℕ) (status : ServiceStatus) (s : Db)
    → ServicesLogged s
    → ServicesLogged (state (admin_update_service_status admin k status s))
admin_update_service_status-ServicesLogged admin k status s v =
    elim (admin_update_service_status-state admin k status s) [
      | inl e ↦ rw e v
      | inr e ↦ rw e (
          IsLogged-update (λ o. o.id) (λ o. o.status) s.next_service k s.services s.service_history
            (λ o. record o { status = status; updated_at = s.clock }) _ refl (λ o. refl) (λ o. refl)
            v)
    ]
