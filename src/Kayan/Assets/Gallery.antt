-- ===== src/Kayan/Assets/Gallery.antt =====
-- `syncGalleryAssets` of src/kayan/kayan.service.ts.
use kayan_place.Prelude.{ℕ, suc, not, ◌&&◌, List, [], ◌∷◌, ◌++◌, ◌==◌}
use kayan_place.Prelude.Rows.{delete_rows, any_row}
use kayan_place.Database.{
  Exec, database, unique_violation, foreign_key_violation, pure, raise_if, gets, modify, ◌>>=◌,
  ◌>>◌,
}
use kayan_place.Kayan.Tables.{Db}
use kayan_place.Kayan.Assets.{file_known}

unfoldable pub insert_gallery_asset : (gallery_item_id file_id sort_order : ℕ) → Exec Db (Unit {0})
insert_gallery_asset gallery_item_id file_id n = do
  key ← gets (λ s. s.next_gallery_asset)
  modify (λ s. record s { sequences = record s.sequences { next_gallery_asset = suc key } })
  taken ←
      gets
        (λ s. any_row (λ a. a.item_id == gallery_item_id && a.file_id == file_id) s.gallery_assets)
  raise_if taken (database unique_violation)
  known ← gets (λ s. file_known s file_id)
  raise_if (not known) (database foreign_key_violation)
  modify (λ s. record s {
    gallery_assets =
        s.gallery_assets
        ++ record { id = key; item_id = gallery_item_id; file_id = file_id; sort_order = n } ∷ [];
  })

unfoldable pub insert_gallery_assets : (gallery_item_id : ℕ) → ℕ → List ℕ → Exec Db (Unit {0})
insert_gallery_assets gallery_item_id i [] = pure tt
insert_gallery_assets gallery_item_id i (k ∷ ks) =
    insert_gallery_asset gallery_item_id k i >> insert_gallery_assets gallery_item_id (suc i) ks

unfoldable pub sync_gallery_assets : ℕ → List ℕ → Exec Db (Unit {0})
sync_gallery_assets gallery_item_id file_ids = do
  modify (λ s. record s {
    gallery_assets = delete_rows (λ a. a.item_id == gallery_item_id) s.gallery_assets;
  })
  insert_gallery_assets gallery_item_id 0 file_ids
