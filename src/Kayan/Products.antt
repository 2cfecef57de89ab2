-- ===== src/Kayan/Products.antt =====
-- The catalogue in src/kayan/kayan.service.ts: `getProduct`, `adminCreateProduct`,
-- `adminUpdateProduct`, `adminDeleteProduct`.
use kayan_place.Prelude.{
  ℕ, suc, ◌+◌, ◌*◌, Bool, true, not, ◌&&◌, List, [], ◌∷◌, ◌++◌, map, Option, none, some, ◌==◌,
  if◌then◌else◌, get_or, is_some, length,
}
use Prim.Native.Nat.{◌/◌}
use kayan_place.Prelude.Rows.{find_row, select_rows, update_rows, any_row}
use kayan_place.Database.{
  Exec, fixed, not_found, pure, raise, raise_if, gets, modify, ◌>>=◌, ◌>>◌, with_transaction,
}
use kayan_place.Kayan.Dto.{AuthUser, AdminCreateProductDto, AdminUpdateProductDto}
use kayan_place.Kayan.Tables.{Db, Product, ProductRating, image, file, rollback}
use kayan_place.Kayan.Assets.{Bucket, attach_product_assets}
use kayan_place.Kayan.Assets.Products.{sync_product_assets}

-- id = $1 AND deleted_at IS NULL
abbrev pub is_listed : ℕ → Product → Bool
is_listed k p = p.id == k && not (is_some p.deleted_at)

unfoldable pub sum_ratings : List ProductRating → ℕ
sum_ratings [] = 0
sum_ratings (r ∷ rs) = r.rating_value + sum_ratings rs

-- COALESCE(ROUND(AVG(rating_value), 2), 0) in hundredths, rounded half up.
unfoldable pub product_rate : Db → ℕ → ℕ
unfolding sum_ratings
product_rate s k =
    let ratings = select_rows (λ r. r.product_id == k) s.product_ratings in
    if length ratings == 0
    then 0
    else (200 * sum_ratings ratings + length ratings) / (2 * length ratings)

pub record ProductView : Type 0 where
  pub product : Product
  pub rate : ℕ
  pub assets : Bucket

abbrev pub product_views : Db → List (Product × Bucket) → List ProductView
product_views s rows =
    map (λ r. record { product = r.0; rate = product_rate s r.0.id; assets = r.1 }) rows

-- `const [product] = await this.attachProductAssets(executor, q.rows)`
view_product : Option Product → Exec Db (List ProductView)
view_product none s = raise (not_found (fixed "Product not found")) s
view_product (some p) s = pure (product_views s (attach_product_assets s (λ r. r.id) (p ∷ []))) s

unfoldable pub get_product_with_assets : ℕ → Exec Db (List ProductView)
unfolding view_product
get_product_with_assets product_id = do
  found ← gets (λ s. find_row (is_listed product_id) s.products)
  view_product found

unfoldable pub get_product : ℕ → Exec Db (List ProductView)
get_product product_id = get_product_with_assets product_id

insert_product : AuthUser → AdminCreateProductDto → Exec Db ℕ
insert_product admin dto s = pure s.next_product (record s {
  sequences = record s.sequences { next_product = suc s.next_product };
  products =
      s.products
      ++ record {
        id = s.next_product;
        title = dto.title;
        description = dto.description;
        amount = dto.amount;
        price = dto.price;
        details = dto.details;
        is_active = true;
        created_by = admin.sub;
        updated_by = admin.sub;
        deleted_at = none;
        created_at = s.clock;
        updated_at = s.clock;
      }
        ∷ [];
})

unfoldable pub admin_create_product : AuthUser → AdminCreateProductDto → Exec Db (List ProductView)
unfolding insert_product
admin_create_product admin dto = with_transaction rollback (do
  product_id ← insert_product admin dto
  sync_product_assets product_id (get_or dto.image_file_ids []) image
  sync_product_assets product_id (get_or dto.file_ids []) file
  get_product_with_assets product_id)

-- COALESCE($k, column) for a nullable column
abbrev pub or_column {ℓ} : {A : Type ℓ} → Option A → Option A → Option A
or_column none column = column
or_column (some a) column = some a

abbrev patch_product : Db → AuthUser → AdminUpdateProductDto → Product → Product
patch_product s admin dto p = record p {
  title = get_or dto.title p.title;
  description = get_or dto.description p.description;
  amount = get_or dto.amount p.amount;
  price = get_or dto.price p.price;
  details = or_column dto.details p.details;
  is_active = get_or dto.is_active p.is_active;
  updated_by = admin.sub;
  updated_at = s.clock;
}

-- `if (ids) await this.syncProductAssets(…)`
sync_given : ℕ → Option (List ℕ) → (ℕ → List ℕ → Exec Db (Unit {0})) → Exec Db (Unit {0})
sync_given product_id none sync = pure tt
sync_given product_id (some ids) sync = sync product_id ids

unfoldable pub admin_update_product :
    AuthUser → ℕ → AdminUpdateProductDto → Exec Db (List ProductView)
unfolding sync_given
admin_update_product admin product_id dto = with_transaction rollback (do
  found ← gets (λ s. any_row (is_listed product_id) s.products)
  modify (λ s. record s {
    products = update_rows (is_listed product_id) (patch_product s admin dto) s.products;
  })
  raise_if (not found) (not_found (fixed "Product not found"))
  sync_given product_id dto.image_file_ids (λ k ids. sync_product_assets k ids image)
  sync_given product_id dto.file_ids (λ k ids. sync_product_assets k ids file)
  get_product_with_assets product_id)

unfoldable pub admin_delete_product : AuthUser → ℕ → Exec Db (Unit {0})
admin_delete_product admin product_id = do
  found ← gets (λ s. any_row (is_listed product_id) s.products)
  modify (λ s. record s {
    products =
        update_rows (is_listed product_id)
          (λ p. record p {
            deleted_at = some s.clock;
            updated_by = admin.sub;
            updated_at = s.clock;
          })
          s.products;
  })
  raise_if (not found) (not_found (fixed "Product not found"))
