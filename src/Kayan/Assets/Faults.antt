-- ===== src/Kayan/Assets/Faults.antt =====
-- `syncFaultAssets` and `assertValidFaultImageFiles` of src/kayan/kayan.service.ts.
use text.Mathlib.Text.{starts_with}
use kayan_place.Prelude.{
  ℕ, suc, Bool, true, false, not, ◌&&◌, List, [], ◌∷◌, ◌++◌, Option, none, some, String, ◌==◌,
}
use kayan_place.Prelude.Rows.{find_row, delete_rows, any_row}
use kayan_place.Database.{
  Exec, about, bad_request, database, unique_violation, foreign_key_violation, pure, raise,
  raise_if, gets, modify, ◌>>=◌, ◌>>◌,
}
use kayan_place.Kayan.Tables.{Db, File, FileStatus, FilePurpose, uploaded, product_image}
use kayan_place.Kayan.Assets.{unique_ids, file_known}

-- INSERT INTO fault_assets: the identity is drawn, then UNIQUE(fault_id, file_id) and the reference
-- to files are checked.
unfoldable pub insert_fault_asset : (fault_id file_id sort_order : ℕ) → Exec Db (Unit {0})
insert_fault_asset fault_id file_id n = do
  key ← gets (λ s. s.next_fault_asset)
  modify (λ s. record s { sequences = record s.sequences { next_fault_asset = suc key } })
  taken ← gets (λ s. any_row (λ a. a.item_id == fault_id && a.file_id == file_id) s.fault_assets)
  raise_if taken (database unique_violation)
  known ← gets (λ s. file_known s file_id)
  raise_if (not known) (database foreign_key_violation)
  modify (λ s. record s {
    fault_assets =
        s.fault_assets
        ++ record { id = key; item_id = fault_id; file_id = file_id; sort_order = n } ∷ [];
  })

unfoldable pub insert_fault_assets : (fault_id : ℕ) → ℕ → List ℕ → Exec Db (Unit {0})
insert_fault_assets fault_id i [] = pure tt
insert_fault_assets fault_id i (k ∷ ks) =
    insert_fault_asset fault_id k i >> insert_fault_assets fault_id (suc i) ks

abbrev is_uploaded : FileStatus → Bool
is_uploaded uploaded = true
is_uploaded _ = false

abbrev is_product_image : FilePurpose → Bool
is_product_image product_image = true
is_product_image _ = false

abbrev has_image_type : Option String → Bool
has_image_type none = false
has_image_type (some mime) = starts_with "image/" mime

-- One round of the loop of `assertValidFaultImageFiles`.
unfoldable pub assert_fault_image : ℕ → Option File → Exec Db (Unit {0})
assert_fault_image k none = raise (bad_request (about "File " k " not found"))
assert_fault_image k (some f) = do
  raise_if (not (is_uploaded f.status))
      (bad_request (about "File " k " must be uploaded before fault association"))
  raise_if (not (is_product_image f.purpose))
      (bad_request (about "File " k " must have purpose product_image"))
  raise_if (not (has_image_type f.mime_type)) (bad_request (about "File " k " must be an image"))

unfoldable pub assert_fault_images : List ℕ → Exec Db (Unit {0})
unfolding assert_fault_image
assert_fault_images [] = pure tt
assert_fault_images (k ∷ ks) = do
  found ← gets (λ s. find_row (λ f. f.id == k) s.files)
  assert_fault_image k found
  assert_fault_images ks

unfoldable pub assert_valid_fault_image_files : List ℕ → Exec Db (Unit {0})
unfolding assert_fault_images unique_ids
assert_valid_fault_image_files file_ids = assert_fault_images (unique_ids file_ids)

abbrev pub without_fault_assets : Db → ℕ → Db
without_fault_assets s fault_id = record s {
  fault_assets = delete_rows (λ a. a.item_id == fault_id) s.fault_assets;
}

unfoldable pub sync_fault_assets : ℕ → List ℕ → Exec Db (Unit {0})
sync_fault_assets fault_id file_ids = do
  assert_valid_fault_image_files file_ids
  modify (λ s. without_fault_assets s fault_id)
  insert_fault_assets fault_id 0 file_ids
