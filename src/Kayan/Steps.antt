-- ===== src/Kayan/Steps.antt =====
-- The followup steps in src/kayan/kayan.service.ts.
use kayan_place.Prelude.{
  ℕ, suc, Bool, true, not, ◌&&◌, ◌||◌, List, [], ◌∷◌, ◌++◌, Option, none, some, ◌==◌, ltb, get_or,
  length,
}
use kayan_place.Prelude.Rows.{find_row, select_rows, update_rows, delete_rows, any_row}
use kayan_place.Prelude.Sort.{order_by}
use kayan_place.Helpers.Pagination.{OffsetPaginationQuery, resolve_offset_pagination, paginate}
use kayan_place.Database.{
  Exec, fixed, not_found, database, foreign_key_violation, pure, raise, raise_if, gets, modify,
  ◌>>=◌, ◌>>◌,
}
use kayan_place.Kayan.Dto.{
  AuthUser, ItemType, CreateFollowupStepDto, UpdateFollowupStepDto, same_item_type,
}
use kayan_place.Kayan.Tables.{Db, FollowupStep}
use kayan_place.Kayan.Assets.{file_known, then_by}
use kayan_place.Kayan.Products.{or_column}
use kayan_place.Kayan.Ownership.{assert_user_owns_item, assert_item_exists}

abbrev step_before : FollowupStep → FollowupStep → Bool
step_before a b = then_by a.sort_order b.sort_order (ltb a.id b.id)

abbrev pub is_step_of : ItemType → ℕ → FollowupStep → Bool
is_step_of item_type item_id r = same_item_type r.item_type item_type && r.item_id == item_id

-- The page of steps, and the total.
unfoldable pub list_followup_steps :
    AuthUser → ItemType → ℕ → OffsetPaginationQuery → Exec Db (List FollowupStep × ℕ)
list_followup_steps user item_type item_id query = do
  assert_user_owns_item user item_type item_id
  let page = resolve_offset_pagination query 50 100
  total ← gets (λ s. length (select_rows (is_step_of item_type item_id) s.steps))
  items ← gets (λ s.
      paginate page (order_by step_before (select_rows (is_step_of item_type item_id) s.steps)))
  pure (items, total)

abbrev pub file_reference : Db → Option ℕ → Bool
file_reference s none = true
file_reference s (some k) = file_known s k

abbrev new_step : Db → (key : ℕ) → AuthUser → CreateFollowupStepDto → FollowupStep
new_step s key admin dto = record {
  id = key;
  item_type = dto.item_type;
  item_id = dto.item_id;
  title = dto.title;
  step_image_file_id = dto.step_image_file_id;
  sort_order = get_or dto.sort_order 0;
  created_by = admin.sub;
  created_at = s.clock;
  updated_at = s.clock;
}

unfoldable pub admin_create_followup_step : AuthUser → CreateFollowupStepDto → Exec Db FollowupStep
admin_create_followup_step admin dto = do
  assert_item_exists dto.item_type dto.item_id
  key ← gets (λ s. s.next_step)
  modify (λ s. record s { sequences = record s.sequences { next_step = suc key } })
  known ← gets (λ s. file_reference s dto.step_image_file_id)
  raise_if (not known) (database foreign_key_violation)
  row ← gets (λ s. new_step s key admin dto)
  modify (λ s. record s { steps = s.steps ++ row ∷ [] })
  pure row

require_step : Option FollowupStep → Exec Db FollowupStep
require_step none = raise (not_found (fixed "Step not found"))
require_step (some r) = pure r

-- The reference of a new image is checked only where a row is updated.
unfoldable pub admin_update_followup_step :
    (step_id : ℕ) → UpdateFollowupStepDto → Exec Db FollowupStep
unfolding require_step
admin_update_followup_step step_id dto = do
  known ←
      gets (λ s.
        file_reference s dto.step_image_file_id || not (any_row (λ r. r.id == step_id) s.steps))
  raise_if (not known) (database foreign_key_violation)
  modify (λ s. record s {
    steps =
        update_rows (λ r. r.id == step_id)
          (λ r. record r {
            title = get_or dto.title r.title;
            step_image_file_id = or_column dto.step_image_file_id r.step_image_file_id;
            sort_order = get_or dto.sort_order r.sort_order;
            updated_at = s.clock;
          })
          s.steps;
  })
  updated ← gets (λ s. find_row (λ r. r.id == step_id) s.steps)
  require_step updated

unfoldable pub admin_delete_followup_step : (step_id : ℕ) → Exec Db (Unit {0})
admin_delete_followup_step step_id = do
  found ← gets (λ s. any_row (λ r. r.id == step_id) s.steps)
  modify (λ s. record s { steps = delete_rows (λ r. r.id == step_id) s.steps })
  raise_if (not found) (not_found (fixed "Step not found"))
