-- ===== src/Kayan/Tests/Reports.antt =====
-- Fault reports and service orders on the small shop.
use kayan_place.Kayan.Dto.{ServiceStatus}
use kayan_place.Kayan.Services.Log.{ServicesLogged}
use kayan_place.Kayan.Lifecycle.Services.{
  sets_service, cancels_service, serve_services, serve_services-ServicesLogged,
}
use kayan_place.Prelude.{◌≡◌, ◌⊎◌, ◌↔◌, true, refl, ◌==◌, List, [], ◌∷◌, some, arith}
use kayan_place.Prelude.Rows.{find_row}
use kayan_place.Kayan.Dto.{FaultStatus}
use kayan_place.Kayan.Tables.{Db, Fault}
use kayan_place.Kayan.Samples.{alice, root, shop, fault_one}
use kayan_place.Kayan.Faults.{allows}
use kayan_place.Kayan.Faults.Workflow.{allows_iff, ◌⟶◌, closed_finished, ◌⟶*◌}
use kayan_place.Kayan.Faults.Log.{FaultsLogged}
use kayan_place.Kayan.Lifecycle.Faults.{
  FaultCall, sets_fault, cancels_fault, serve_faults, serve_faults-FaultsLogged, serve_faults-⟶*,
  serve_faults-IsClosed,
}

shop-FaultsLogged : FaultsLogged shop
shop-FaultsLogged = record { fresh = omega arith; distinct = omega arith; logged = (refl, tt) }

abbrev requests : List FaultCall
requests =
    sets_fault root 1 FaultStatus.assigned
    ∷ sets_fault root 1 FaultStatus.finished
    ∷ cancels_fault alice 1
    ∷ []

abbrev closed_one : Fault
closed_one = record fault_one { status = FaultStatus.finished }

abbrev closed_shop : Db
closed_shop = record shop {
  faults = closed_one ∷ [];
  fault_history =
      record { id = 1; item_id = 1; status = FaultStatus.finished; changed_by = 9; created_at = 2 }
      ∷ [];
}

closed_shop-FaultsLogged : FaultsLogged closed_shop
closed_shop-FaultsLogged = record {
  fresh = omega arith;
  distinct = omega arith;
  logged = (refl, tt);
}

serve_faults-FaultsLogged_example : FaultsLogged (serve_faults shop requests)
serve_faults-FaultsLogged_example = serve_faults-FaultsLogged shop requests shop-FaultsLogged

serve_faults-⟶*_example :
    (g : Fault) × (find_row (λ x. x.id == 1) (serve_faults shop requests).faults ≡ some g)
    × (FaultStatus.received ⟶* g.status)
serve_faults-⟶*_example = serve_faults-⟶* shop requests 1 fault_one shop-FaultsLogged refl

serve_faults-IsClosed_example :
    (g : Fault) × (find_row (λ x. x.id == 1) (serve_faults closed_shop requests).faults ≡ some g)
    × (FaultStatus.finished ≡ g.status)
serve_faults-IsClosed_example =
    serve_faults-IsClosed closed_shop requests 1 closed_one closed_shop-FaultsLogged refl
      closed_finished

allows_iff_example : (allows FaultStatus.assigned FaultStatus.cancelled ≡ true) ↔ (
    (FaultStatus.assigned ≡ FaultStatus.cancelled) ⊎ (FaultStatus.assigned ⟶ FaultStatus.cancelled))
allows_iff_example = allows_iff FaultStatus.assigned FaultStatus.cancelled

shop-ServicesLogged : ServicesLogged shop
shop-ServicesLogged = record { fresh = omega arith; distinct = omega arith; logged = (refl, tt) }

serve_services-ServicesLogged_example : ServicesLogged (
    serve_services shop
      (sets_service root 1 ServiceStatus.in_progress ∷ cancels_service alice 1 ∷ []))
serve_services-ServicesLogged_example = serve_services-ServicesLogged shop _ shop-ServicesLogged
