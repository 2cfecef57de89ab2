-- ===== src/Kayan/Gallery.antt =====
-- The gallery in src/kayan/kayan.service.ts: `adminCreateGalleryItem`, `adminUpdateGalleryItem`,
-- `adminDeleteGalleryItem`, `getGalleryItem`.
use kayan_place.Prelude.{
  ℕ, suc, Bool, true, not, ◌&&◌, List, [], ◌∷◌, ◌++◌, Option, none, some, ◌==◌, get_or, is_some,
}
use kayan_place.Prelude.Rows.{find_row, update_rows, any_row}
use kayan_place.Database.{
  Exec, fixed, not_found, pure, raise, raise_if, gets, modify, ◌>>=◌, ◌>>◌, with_transaction,
}
use kayan_place.Kayan.Dto.{AuthUser, CreateGalleryItemDto, UpdateGalleryItemDto}
use kayan_place.Kayan.Tables.{Db, GalleryItem, rollback}
use kayan_place.Kayan.Assets.{AssetView, attach_assets}
use kayan_place.Kayan.Assets.Gallery.{sync_gallery_assets}

-- id = $1 AND deleted_at IS NULL
abbrev pub is_shown : ℕ → GalleryItem → Bool
is_shown k g = g.id == k && not (is_some g.deleted_at)

view_gallery : Option GalleryItem → Exec Db (List (GalleryItem × List AssetView))
view_gallery none = raise (not_found (fixed "Gallery item not found"))
view_gallery (some g) = gets (λ s. attach_assets s.gallery_assets s (λ r. r.id) (g ∷ []))

-- `getGalleryItemWithExecutor`
unfoldable pub get_gallery_item : ℕ → Exec Db (List (GalleryItem × List AssetView))
unfolding view_gallery
get_gallery_item gallery_id = do
  found ← gets (λ s. find_row (is_shown gallery_id) s.gallery_items)
  view_gallery found

insert_gallery : AuthUser → CreateGalleryItemDto → Exec Db ℕ
insert_gallery admin dto s = pure s.next_gallery (record s {
  sequences = record s.sequences { next_gallery = suc s.next_gallery };
  gallery_items =
      s.gallery_items
      ++ record {
        id = s.next_gallery;
        title = dto.title;
        description = dto.description;
        is_active = true;
        created_by = admin.sub;
        updated_by = admin.sub;
        deleted_at = none;
        created_at = s.clock;
        updated_at = s.clock;
      }
        ∷ [];
})

-- The inserted row has an id, so the test for a missing one does not fire.
unfoldable pub admin_create_gallery_item :
    AuthUser → CreateGalleryItemDto → Exec Db (List (GalleryItem × List AssetView))
unfolding insert_gallery
admin_create_gallery_item admin dto = with_transaction rollback (do
  id ← insert_gallery admin dto
  sync_gallery_assets id (get_or dto.image_file_ids [])
  get_gallery_item id)

abbrev patch_gallery : Db → AuthUser → UpdateGalleryItemDto → GalleryItem → GalleryItem
patch_gallery s admin dto g = record g {
  title = get_or dto.title g.title;
  description = get_or dto.description g.description;
  is_active = get_or dto.is_active g.is_active;
  updated_by = admin.sub;
  updated_at = s.clock;
}

sync_given : ℕ → Option (List ℕ) → Exec Db (Unit {0})
sync_given gallery_id none = pure tt
sync_given gallery_id (some ids) = sync_gallery_assets gallery_id ids

unfoldable pub admin_update_gallery_item :
    AuthUser → ℕ → UpdateGalleryItemDto → Exec Db (List (GalleryItem × List AssetView))
unfolding sync_given
admin_update_gallery_item admin gallery_id dto = with_transaction rollback (do
  found ← gets (λ s. any_row (is_shown gallery_id) s.gallery_items)
  modify (λ s. record s {
    gallery_items = update_rows (is_shown gallery_id) (patch_gallery s admin dto) s.gallery_items;
  })
  raise_if (not found) (not_found (fixed "Gallery item not found"))
  sync_given gallery_id dto.image_file_ids
  get_gallery_item gallery_id)

unfoldable pub admin_delete_gallery_item : AuthUser → ℕ → Exec Db (Unit {0})
admin_delete_gallery_item admin gallery_id = do
  found ← gets (λ s. any_row (is_shown gallery_id) s.gallery_items)
  modify (λ s. record s {
    gallery_items =
        update_rows (is_shown gallery_id)
          (λ g. record g {
            deleted_at = some s.clock;
            updated_by = admin.sub;
            updated_at = s.clock;
          })
          s.gallery_items;
  })
  raise_if (not found) (not_found (fixed "Gallery item not found"))
