-- ===== src/Kayan/Ratings.antt =====
-- The ratings in src/kayan/kayan.service.ts: `createItemRating`, `getItemReviews`,
-- `assertRateableItem`, `assertRateableProduct`.
use kayan_place.Prelude.{
  ℕ, suc, Bool, not, ◌&&◌, ◌||◌, List, [], ◌∷◌, ◌++◌, Option, none, some, ◌==◌, ltb, length,
}
use kayan_place.Prelude.Rows.{find_row, select_rows, any_row}
use kayan_place.Prelude.Sort.{order_by}
use kayan_place.Helpers.Pagination.{OffsetPaginationQuery, resolve_offset_pagination, paginate}
use kayan_place.Database.{
  Exec, Error, fixed, bad_request, not_found, forbidden, database, unique_violation,
  check_violation, type_error, pure, raise, raise_if, gets, modify, ◌>>=◌, ◌>>◌, catch_error,
}
use kayan_place.Kayan.Dto.{
  AuthUser, ItemType, order, fault, service, CreateItemRatingDto, RatingTarget, of_product, of_item,
  OrderStatus, FaultStatus, ServiceStatus, same_order_status, same_fault_status,
  same_service_status, same_item_type,
}
use kayan_place.Kayan.Tables.{Db, Order, Fault, ServiceOrder, OrderItem, ProductRating, ItemRating}
use kayan_place.Kayan.Assets.{then_by}
use kayan_place.Kayan.Ownership.{resolve_ownership}

require_owner : (user_id : ℕ) → Option ℕ → Exec Db (Unit {0})
require_owner user_id none = raise (not_found (fixed "Item not found"))
require_owner user_id (some owner) =
    raise_if (not (owner == user_id)) (forbidden (fixed "Not allowed"))

require_delivered : Option Order → Exec Db (Unit {0})
require_delivered none = raise type_error
require_delivered (some o) =
    raise_if (not (same_order_status o.status OrderStatus.delivered))
      (bad_request (fixed "Rating allowed only after delivery"))

require_fault_finished : Option Fault → Exec Db (Unit {0})
require_fault_finished none = raise type_error
require_fault_finished (some f) =
    raise_if (not (same_fault_status f.status FaultStatus.finished))
      (bad_request (fixed "Rating allowed only after completion"))

require_service_finished : Option ServiceOrder → Exec Db (Unit {0})
require_service_finished none = raise type_error
require_service_finished (some o) =
    raise_if (not (same_service_status o.status ServiceStatus.finished))
      (bad_request (fixed "Rating allowed only after completion"))

require_completed : ItemType → ℕ → Exec Db (Unit {0})
unfolding require_delivered require_fault_finished require_service_finished
require_completed order item_id = do
  found ← gets (λ s. find_row (λ o. o.id == item_id) s.orders)
  require_delivered found
require_completed fault item_id = do
  found ← gets (λ s. find_row (λ f. f.id == item_id) s.faults)
  require_fault_finished found
require_completed service item_id = do
  found ← gets (λ s. find_row (λ o. o.id == item_id) s.services)
  require_service_finished found

unfoldable pub assert_rateable_item : (user_id : ℕ) → ItemType → ℕ → Exec Db (Unit {0})
unfolding require_owner require_completed
assert_rateable_item user_id item_type item_id = do
  owner ← resolve_ownership item_type item_id
  require_owner user_id owner
  require_completed item_type item_id

check_rateable_order : (user_id : ℕ) → Option Order → Exec Db (Unit {0})
check_rateable_order user_id none = raise (not_found (fixed "Order not found"))
check_rateable_order user_id (some o) = do
  raise_if (not (o.user_id == user_id)) (forbidden (fixed "Not allowed"))
  raise_if (not (same_order_status o.status OrderStatus.delivered))
      (bad_request (fixed "Rating allowed only after delivery"))

abbrev pub is_line : (order_id product_id : ℕ) → OrderItem → Bool
is_line order_id product_id i = i.order_id == order_id && i.product_id == product_id

unfoldable pub assert_rateable_product : (user_id order_id product_id : ℕ) → Exec Db (Unit {0})
unfolding check_rateable_order
assert_rateable_product user_id order_id product_id = do
  found ← gets (λ s. find_row (λ o. o.id == order_id) s.orders)
  check_rateable_order user_id found
  ordered ← gets (λ s. any_row (is_line order_id product_id) s.order_items)
  raise_if (not ordered) (bad_request (fixed "Product was not ordered in this order"))

-- CHECK (rating_value BETWEEN 1 AND 5)
abbrev pub out_of_scale : ℕ → Bool
out_of_scale n = ltb n 1 || ltb 5 n

abbrev pub same_product_rating : (user_id order_id product_id : ℕ) → ProductRating → Bool
same_product_rating user_id order_id product_id r =
    r.user_id == user_id && (r.order_id == order_id && r.product_id == product_id)

abbrev pub same_item_rating : (user_id : ℕ) → ItemType → ℕ → ItemRating → Bool
same_item_rating user_id item_type item_id r =
    r.user_id == user_id && (same_item_type r.item_type item_type && r.item_id == item_id)

-- INSERT INTO product_ratings, with UNIQUE(user_id, order_id, product_id)
insert_product_rating : AuthUser → ℕ → ℕ → CreateItemRatingDto → Exec Db (Unit {0})
insert_product_rating user order_id product_id dto = do
  key ← gets (λ s. s.next_product_rating)
  modify (λ s. record s { sequences = record s.sequences { next_product_rating = suc key } })
  raise_if (out_of_scale dto.rating_value) (database check_violation)
  taken ← gets (λ s. any_row (same_product_rating user.sub order_id product_id) s.product_ratings)
  raise_if taken (database unique_violation)
  modify (λ s. record s {
    product_ratings =
        s.product_ratings
        ++ record {
          id = key;
          user_id = user.sub;
          order_id = order_id;
          product_id = product_id;
          rating_value = dto.rating_value;
          comment = dto.comment;
          created_at = s.clock;
        }
          ∷ [];
  })

-- INSERT INTO item_ratings, with UNIQUE(user_id, item_type, item_id)
insert_item_rating : AuthUser → ItemType → ℕ → CreateItemRatingDto → Exec Db (Unit {0})
insert_item_rating user item_type item_id dto = do
  key ← gets (λ s. s.next_item_rating)
  modify (λ s. record s { sequences = record s.sequences { next_item_rating = suc key } })
  raise_if (out_of_scale dto.rating_value) (database check_violation)
  taken ← gets (λ s. any_row (same_item_rating user.sub item_type item_id) s.item_ratings)
  raise_if taken (database unique_violation)
  modify (λ s. record s {
    item_ratings =
        s.item_ratings
        ++ record {
          id = key;
          user_id = user.sub;
          item_type = item_type;
          item_id = item_id;
          rating_value = dto.rating_value;
          comment = dto.comment;
          created_at = s.clock;
        }
          ∷ [];
  })

-- An item of type order is rated by its products, so `of_item order` is never validated.
rate_target : AuthUser → CreateItemRatingDto → RatingTarget → Exec Db (Unit {0})
unfolding insert_product_rating insert_item_rating
rate_target user dto (of_product order_id product_id) = do
  assert_rateable_product user.sub order_id product_id
  insert_product_rating user order_id product_id dto
rate_target user dto (of_item item_type item_id) = do
  assert_rateable_item user.sub item_type item_id
  insert_item_rating user item_type item_id dto

-- The `catch` of `createItemRating`.
abbrev translate : Error → Error
translate (database unique_violation) = bad_request (fixed "Rating already exists")
translate e = e

unfoldable pub create_item_rating : AuthUser → CreateItemRatingDto → Exec Db (Unit {0})
unfolding rate_target
create_item_rating user dto s = catch_error (rate_target user dto dto.target s) translate

abbrev review_before : ItemRating → ItemRating → Bool
review_before a b = then_by b.created_at a.created_at (ltb b.id a.id)

abbrev pub is_review_of : ItemType → ℕ → ItemRating → Bool
is_review_of item_type item_id r = same_item_type r.item_type item_type && r.item_id == item_id

unfoldable pub get_item_reviews :
    ℕ → ItemType → OffsetPaginationQuery → Exec Db (List ItemRating × ℕ)
get_item_reviews item_id item_type query = do
  let page = resolve_offset_pagination query 20 100
  total ← gets (λ s. length (select_rows (is_review_of item_type item_id) s.item_ratings))
  items ← gets (λ s.
      paginate page
        (order_by review_before (select_rows (is_review_of item_type item_id) s.item_ratings)))
  pure (items, total)
