-- ===== src/Kayan/Assets/Products.antt =====
-- `syncProductAssets` of src/kayan/kayan.service.ts.
use kayan_place.Prelude.{ℕ, suc, not, ◌&&◌, List, [], ◌∷◌, ◌++◌, ◌==◌}
use kayan_place.Prelude.Rows.{delete_rows, any_row}
use kayan_place.Database.{
  Exec, database, unique_violation, foreign_key_violation, pure, raise_if, gets, modify, ◌>>=◌,
  ◌>>◌,
}
use kayan_place.Kayan.Tables.{Db, AssetType}
use kayan_place.Kayan.Assets.{file_known, asset_type_code}

unfoldable pub insert_product_asset :
    (product_id file_id : ℕ) → AssetType → (sort_order : ℕ) → Exec Db (Unit {0})
insert_product_asset product_id file_id type n = do
  key ← gets (λ s. s.next_product_asset)
  modify (λ s. record s { sequences = record s.sequences { next_product_asset = suc key } })
  taken ←
      gets (λ s. any_row (λ a. a.product_id == product_id && a.file_id == file_id) s.product_assets)
  raise_if taken (database unique_violation)
  known ← gets (λ s. file_known s file_id)
  raise_if (not known) (database foreign_key_violation)
  modify (λ s. record s {
    product_assets =
        s.product_assets
        ++ record {
          id = key;
          product_id = product_id;
          file_id = file_id;
          asset_type = type;
          sort_order = n;
        }
          ∷ [];
  })

unfoldable pub insert_product_assets :
    (product_id : ℕ) → AssetType → ℕ → List ℕ → Exec Db (Unit {0})
insert_product_assets product_id type i [] = pure tt
insert_product_assets product_id type i (k ∷ ks) =
    insert_product_asset product_id k type i >> insert_product_assets product_id type (suc i) ks

unfoldable pub sync_product_assets : ℕ → List ℕ → AssetType → Exec Db (Unit {0})
sync_product_assets product_id file_ids type = do
  modify (λ s. record s {
    product_assets =
        delete_rows
          (λ a. a.product_id == product_id && asset_type_code a.asset_type == asset_type_code type)
          s.product_assets;
  })
  insert_product_assets product_id type 0 file_ids
