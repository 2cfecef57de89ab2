-- ===== src/Kayan/Listings/Faults.antt =====
-- `listMyFaults`, `adminListFaults` and `buildFaultOrderClause` of src/kayan/kayan.service.ts.
use kayan_place.Prelude.{ℕ, Bool, ◌&&◌, List, map, Option, ◌==◌, ltb, length}
use kayan_place.Prelude.Rows.{find_row, select_rows}
use kayan_place.Helpers.Pagination.{OffsetPaginationQuery}
use kayan_place.Kayan.Dto.{
  AuthUser, FaultStatus, FaultSeverity, normal, high, urgent, emergent, SortDirection, FaultSortBy,
  same_fault_status,
}
use kayan_place.Kayan.Tables.{Db, Fault, User}
use kayan_place.Kayan.Assets.{AssetView, then_by, attach_assets}
use kayan_place.Kayan.Faults.{FaultView, fault_views}
use kayan_place.Kayan.Listings.{when_given, in_dates, directed, direction, listed, Listing}
use kayan_place.Prelude.{get_or}

pub record ListFaultsQueryDto : Type 0 where
  pub page : OffsetPaginationQuery
  pub status : Option FaultStatus
  pub severity : Option FaultSeverity
  pub from_date : Option ℕ
  pub to_date : Option ℕ
  pub sort_by : Option FaultSortBy
  pub sort_direction : Option SortDirection

-- The CASE of `buildFaultOrderClause`.
abbrev pub severity_rank : FaultSeverity → ℕ
severity_rank normal = 1
severity_rank high = 2
severity_rank urgent = 3
severity_rank emergent = 4

abbrev pub fault_filter : ListFaultsQueryDto → Fault → Bool
fault_filter query f =
    when_given query.status (λ x. same_fault_status f.status x)
    && (when_given query.severity (λ x. severity_rank f.severity == severity_rank x)
        && in_dates query.from_date query.to_date f.created_at)

unfoldable pub build_fault_order_clause : FaultSortBy → SortDirection → Fault → Fault → Bool
build_fault_order_clause FaultSortBy.by_severity d a b =
    directed d (severity_rank a.severity) (severity_rank b.severity)
      (then_by b.created_at a.created_at (ltb b.id a.id))
build_fault_order_clause FaultSortBy.by_created_at d a b =
    directed d a.created_at b.created_at (ltb b.id a.id)

abbrev fault_before : ListFaultsQueryDto → Fault → Fault → Bool
fault_before query =
    build_fault_order_clause (get_or query.sort_by FaultSortBy.by_created_at)
      (direction query.sort_direction)

abbrev my_fault : AuthUser → ListFaultsQueryDto → Fault → Bool
my_fault user query f = f.user_id == user.sub && fault_filter query f

unfoldable pub list_my_faults : Db → AuthUser → ListFaultsQueryDto → List FaultView
list_my_faults s user query =
    fault_views s user.sub (listed (my_fault user query) (fault_before query) query.page s.faults)

pub record AdminFaultView : Type 0 where
  pub fault : Fault
  pub images : List AssetView
  pub user : Option User

unfoldable pub admin_list_faults : Db → ListFaultsQueryDto → Listing AdminFaultView
admin_list_faults s query =
    let rows = listed (fault_filter query) (fault_before query) query.page s.faults in
    record {
      items =
          map
            (λ r. record {
              fault = r.0;
              images = r.1;
              user = find_row (λ u. u.id == r.0.user_id) s.users;
            })
            (attach_assets s.fault_assets s (λ f. f.id) rows);
      total = length (select_rows (fault_filter query) s.faults);
    }
