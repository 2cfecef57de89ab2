-- ===== src/Kayan/Assets.antt =====
-- The files of faults, gallery items and products in src/kayan/kayan.service.ts: the `sync…Assets`
-- and `attach…Assets` methods. The children insert the assets.
pub mod Faults
pub mod Gallery
pub mod Products
pub mod Frames
use kayan_place.Prelude.{
  ℕ, Bool, true, false, ◌||◌, List, [], ◌∷◌, ◌++◌, map, Option, ◌==◌, ltb, if◌then◌else◌, get_or,
}
use kayan_place.Prelude.Rows.{find_row, select_rows, delete_rows, any_row}
use kayan_place.Prelude.Maps.{map_get, map_set, group_rows}
use kayan_place.Prelude.Sort.{order_by}
use kayan_place.Kayan.Tables.{Db, File, ItemAsset, ProductAsset, AssetType, image, file}

-- id = ANY(ids), and `ids.includes(id)`
abbrev pub id_in : List ℕ → ℕ → Bool
id_in [] k = false
id_in (j ∷ js) k = j == k || id_in js k

-- [...new Set(ids)]
unfoldable pub unique_ids : List ℕ → List ℕ
unique_ids [] = []
unique_ids (k ∷ ks) = k ∷ delete_rows (λ j. j == k) (unique_ids ks)

-- ORDER BY a, then the rest
abbrev pub then_by : (a b : ℕ) → Bool → Bool
then_by a b rest = if ltb a b then true else (if ltb b a then false else rest)

-- What a response shows of one asset row joined with its file.
pub record AssetView : Type 0 where
  pub file_id : ℕ
  pub sort_order : ℕ
  pub file : Option File

join_file : Db → (file_id sort_order : ℕ) → AssetView
join_file s k n = record { file_id = k; sort_order = n; file = find_row (λ f. f.id == k) s.files }

abbrev asset_before : ItemAsset → ItemAsset → Bool
asset_before a b = then_by a.item_id b.item_id (then_by a.sort_order b.sort_order (ltb a.id b.id))

-- The SELECT of `attachFaultAssets` and `attachGalleryAssets`.
unfoldable pub assets_of : List ItemAsset → List ℕ → List ItemAsset
assets_of assets ids = order_by asset_before (select_rows (λ a. id_in ids a.item_id) assets)

unfoldable pub attach_assets {ℓ} :
    {R : Type ℓ} → List ItemAsset → Db → (R → ℕ) → List R → List (R × List AssetView)
unfolding join_file assets_of
attach_assets assets s id rows =
    let by_id =
      group_rows (λ a. a.item_id) (λ a. join_file s a.file_id a.sort_order)
        (assets_of assets (map id rows)) [] in
    map (λ r. (r, get_or (map_get (id r) by_id) [])) rows

-- A product's images and files, as the bucket of `attachProductAssets`.
pub record Bucket : Type 0 where
  pub images : List AssetView
  pub files : List AssetView

abbrev pub empty_bucket : Bucket
empty_bucket = record { images = []; files = [] }

abbrev pub asset_type_code : AssetType → ℕ
asset_type_code file = 0
asset_type_code image = 1

-- As texts 'file' stands before 'image'.
abbrev product_asset_before : ProductAsset → ProductAsset → Bool
product_asset_before a b = then_by a.product_id b.product_id (
    then_by (asset_type_code a.asset_type) (asset_type_code b.asset_type)
      (then_by a.sort_order b.sort_order (ltb a.id b.id)))

abbrev pub push_asset : AssetType → AssetView → Bucket → Bucket
push_asset image v b = record b { images = b.images ++ v ∷ [] }
push_asset file v b = record b { files = b.files ++ v ∷ [] }

unfoldable pub group_product_assets : Db → List ProductAsset → List (ℕ × Bucket) → List (ℕ × Bucket)
unfolding join_file
group_product_assets s [] m = m
group_product_assets s (a ∷ as') m =
    let bucket = get_or (map_get a.product_id m) empty_bucket in
    group_product_assets s as'
      (map_set a.product_id (push_asset a.asset_type (join_file s a.file_id a.sort_order) bucket) m)

unfoldable pub product_assets_of : List ProductAsset → List ℕ → List ProductAsset
product_assets_of assets ids =
    order_by product_asset_before (select_rows (λ a. id_in ids a.product_id) assets)

unfoldable pub attach_product_assets {ℓ} : {R : Type ℓ} → Db → (R → ℕ) → List R → List (R × Bucket)
unfolding product_assets_of
attach_product_assets s id rows =
    let by_id = group_product_assets s (product_assets_of s.product_assets (map id rows)) [] in
    map (λ r. (r, get_or (map_get (id r) by_id) empty_bucket)) rows

-- The reference of an asset to files.
abbrev pub file_known : Db → ℕ → Bool
file_known s k = any_row (λ f. f.id == k) s.files
