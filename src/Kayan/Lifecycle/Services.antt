-- ===== src/Kayan/Lifecycle/Services.antt =====
-- Any sequence of the requests on service orders of src/kayan/kayan.service.ts.
use kayan_place.Prelude.{ℕ, List, [], ◌∷◌}
use kayan_place.Database.{Exec, state}
use kayan_place.Kayan.Dto.{AuthUser, CreateServiceOrderDto, UpdateServiceOrderDto, ServiceStatus}
use kayan_place.Kayan.Tables.{Db, ServiceOrder}
use kayan_place.Kayan.Services.{
  create_service, update_service, cancel_service, admin_update_service_status,
}
use kayan_place.Kayan.Services.Log.{
  ServicesLogged, create_service-ServicesLogged, update_service-ServicesLogged,
  cancel_service-ServicesLogged, admin_update_service_status-ServicesLogged,
}

-- A request that writes a service order.
pub data ServiceCall : Type 0 where
  creates_service : AuthUser → CreateServiceOrderDto → ServiceCall
  updates_service : AuthUser → ℕ → UpdateServiceOrderDto → ServiceCall
  cancels_service : AuthUser → ℕ → ServiceCall
  sets_service : AuthUser → ℕ → ServiceStatus → ServiceCall

pub handle_service : ServiceCall → Exec Db ServiceOrder
handle_service (creates_service user dto) = create_service user dto
handle_service (updates_service user k dto) = update_service user k dto
handle_service (cancels_service user k) = cancel_service user k
handle_service (sets_service admin k status) = admin_update_service_status admin k status

-- An exception ends its own request.
pub serve_services : Db → List ServiceCall → Db
serve_services s [] = s
serve_services s (c ∷ cs) = serve_services (state (handle_service c s)) cs

handle_service-ServicesLogged :
    (c : ServiceCall) (s : Db) → ServicesLogged s → ServicesLogged (state (handle_service c s))
unfolding handle_service
handle_service-ServicesLogged (creates_service user dto) s v =
    create_service-ServicesLogged user dto s v
handle_service-ServicesLogged (updates_service user k dto) s v =
    update_service-ServicesLogged user k dto s v
handle_service-ServicesLogged (cancels_service user k) s v =
    cancel_service-ServicesLogged user k s v
handle_service-ServicesLogged (sets_service admin k status) s v =
    admin_update_service_status-ServicesLogged admin k status s v

-- Over any requests, failing or not: from a state where the ids of the service orders are distinct
-- and below the next one and every service order has the status that its history ends in, such a
-- state is reached.
pub serve_services-ServicesLogged :
    (s : Db) (cs : List ServiceCall) → ServicesLogged s → ServicesLogged (serve_services s cs)
unfolding serve_services
serve_services-ServicesLogged s [] v = v
serve_services-ServicesLogged s (c ∷ cs) v =
    serve_services-ServicesLogged (state (handle_service c s)) cs
      (handle_service-ServicesLogged c s v)
