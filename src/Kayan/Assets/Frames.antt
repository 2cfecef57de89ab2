-- ===== src/Kayan/Assets/Frames.antt =====
-- What `syncFaultAssets` of src/kayan/kayan.service.ts leaves alone.
use kayan_place.Prelude.{ℕ, suc, ◌≡◌, List, [], ◌∷◌, Option, none, some, arith, ◌==◌}
use kayan_place.Prelude.Rows.{find_row}
use kayan_place.Database.Frame.{Preserves, Preserves-bind}
use kayan_place.Kayan.Tables.{Db, File}
use kayan_place.Kayan.Assets.{unique_ids}
use kayan_place.Kayan.Assets.Faults.{
  insert_fault_asset, insert_fault_assets, assert_fault_image, assert_fault_images,
  assert_valid_fault_image_files, without_fault_assets, sync_fault_assets,
}

pub record SameFaults (s t : Db) : Type 0 where
  pub faults : t.faults ≡ s.faults
  pub fault_history : t.fault_history ≡ s.fault_history
  pub next_fault : t.next_fault ≡ s.next_fault
  pub clock : t.clock ≡ s.clock

pub SameFaults-trans : (s t u : Db) → SameFaults s t → SameFaults t u → SameFaults s u
SameFaults-trans s t u a b = ground arith

insert_fault_asset-SameFaults : (k j n : ℕ) → Preserves SameFaults (insert_fault_asset k j n)
unfolding insert_fault_asset
insert_fault_asset-SameFaults k j n s = ground arith

insert_fault_assets-SameFaults :
    (k i : ℕ) (ids : List ℕ) → Preserves SameFaults (insert_fault_assets k i ids)
unfolding insert_fault_assets
insert_fault_assets-SameFaults k i [] s = ground arith
insert_fault_assets-SameFaults k i (j ∷ ids) s =
    Preserves-bind SameFaults-trans (insert_fault_asset k j i) _
      (insert_fault_asset-SameFaults k j i) (λ _. insert_fault_assets-SameFaults k (suc i) ids) s

assert_fault_image-SameFaults :
    (k : ℕ) (found : Option File) → Preserves SameFaults (assert_fault_image k found)
unfolding assert_fault_image
assert_fault_image-SameFaults k none s = ground arith
assert_fault_image-SameFaults k (some f) s = ground arith

assert_fault_images-SameFaults : (ids : List ℕ) → Preserves SameFaults (assert_fault_images ids)
unfolding assert_fault_images
assert_fault_images-SameFaults [] s = ground arith
assert_fault_images-SameFaults (k ∷ ids) s =
    let found = find_row (λ f. f.id == k) s.files in
    Preserves-bind SameFaults-trans (assert_fault_image k found) _
      (assert_fault_image-SameFaults k found) (λ _. assert_fault_images-SameFaults ids) s

pub sync_fault_assets-SameFaults :
    (k : ℕ) (ids : List ℕ) → Preserves SameFaults (sync_fault_assets k ids)
unfolding sync_fault_assets assert_valid_fault_image_files
sync_fault_assets-SameFaults k ids =
    Preserves-bind SameFaults-trans (assert_fault_images (unique_ids ids)) _
      (assert_fault_images-SameFaults (unique_ids ids))
      (λ _ s.
        SameFaults-trans s (without_fault_assets s k) _ (ground arith)
          (insert_fault_assets-SameFaults k 0 ids (without_fault_assets s k)))
