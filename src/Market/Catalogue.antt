-- ===== src/Market/Catalogue.antt =====
-- The writing operations of `ProductsService` of src/products/products.service.ts, and
-- `getProductById`. `trim` is the one of strings.
pub mod Taxonomy
pub mod Writes
pub mod Owners
mod Tests
use kayan_place.Prelude.{
  ℕ, suc, String, Bool, true, false, not, ◌&&◌, ◌||◌, List, [], ◌∷◌, ◌++◌, Option, none, some, ◌==◌,
  is_some, get_or, if◌then◌else◌,
}
use kayan_place.Prelude.Rows.{find_row, select_rows, update_rows, delete_rows, any_row}
use kayan_place.Prelude.Sort.{order_by}
use kayan_place.Database.{
  Exec, Error, SqlState, Message, database, fixed, about, bad_request, not_found, forbidden, pure,
  raise, raise_if, gets, modify, ◌>>=◌, ◌>>◌,
}
use kayan_place.Kayan.Dto.{AuthUser}
use kayan_place.Market.Tables.{
  MarketDb, Listing, ListingStatus, ListingImage, FileRow, FileStatus, FilePurpose, OwnerType,
  rollback_market,
}
use kayan_place.Market.Access.{to_positive_int}
use kayan_place.Market.Users.{is_other}
use kayan_place.Market.Users.Profiles.{ImageView, images_of}
use kayan_place.Market.Views.{coalesce}
use kayan_place.Market.Catalogue.Taxonomy.{
  is_valid_category, is_valid_subcategory, is_allowed_product_subcategory,
}

pub record CreateProductDto : Type 0 where
  pub category : String
  pub subcategory : Option String
  pub name : String
  pub description : String
  pub price : ℕ
  pub city : String
  pub address_text : String
  pub details : Option String
  pub image_file_ids : Option (List ℕ)
  pub is_negotiable : Option Bool
  pub preferred_contact_method : Option String

-- `undefined` is none; the subcategory can be null.
pub record UpdateProductDto : Type 0 where
  pub category : Option String
  pub subcategory : Option (Option String)
  pub name : Option String
  pub description : Option String
  pub price : Option ℕ
  pub city : Option String
  pub address_text : Option String
  pub details : Option String
  pub image_file_ids : Option (List ℕ)
  pub is_negotiable : Option Bool
  pub preferred_contact_method : Option String

abbrev refuse_subcategory :
    (category subcategory : String) → (allow_all : Bool) → Exec MarketDb (Unit {0})
unfolding is_valid_subcategory is_allowed_product_subcategory
refuse_subcategory category subcategory allow_all = do
  raise_if (not (is_valid_subcategory category subcategory))
      (bad_request (fixed "Invalid subcategory for category"))
  raise_if (not allow_all && not (is_allowed_product_subcategory category subcategory))
      (bad_request (fixed "subcategory cannot be all"))

abbrev check_subcategory :
    (category : String) → Option String → (allow_all : Bool) → Exec MarketDb (Unit {0})
unfolding is_valid_subcategory is_allowed_product_subcategory
check_subcategory category none allow_all = pure tt
check_subcategory category (some sub) allow_all = refuse_subcategory category sub allow_all

unfoldable pub assert_category_pair :
    (category : String) → Option String → (allow_all : Bool) → Exec MarketDb (Unit {0})
unfolding check_subcategory refuse_subcategory is_valid_category
assert_category_pair category subcategory allow_all = do
  raise_if (not (is_valid_category category)) (bad_request (fixed "Invalid category"))
  check_subcategory category subcategory allow_all

abbrev is_product_image : FilePurpose → Bool
is_product_image FilePurpose.product_image = true
is_product_image _ = false

abbrev is_uploaded_file : FileStatus → Bool
is_uploaded_file FileStatus.uploaded = true
is_uploaded_file _ = false

abbrev check_image : (actor : AuthUser) → (file_id : ℕ) → Option FileRow → Exec MarketDb (Unit {0})
check_image actor file_id none = raise (bad_request (about "File " file_id " does not exist"))
check_image actor file_id (some f) = do
  raise_if (not (is_product_image f.purpose))
      (bad_request (about "File " file_id " must have purpose product_image"))
  raise_if (is_other actor f.uploader_user_id)
      (forbidden (about "File " file_id " is not owned by the current user"))
  raise_if (not (is_uploaded_file f.status))
      (bad_request (about "File " file_id " must be uploaded before product association"))

unfoldable pub check_images : AuthUser → List ℕ → Exec MarketDb (Unit {0})
check_images actor [] = pure tt
check_images actor (k ∷ ks) = do
  file ← gets (λ s. find_row (λ f. f.id == k) s.files)
  check_image actor k file
  check_images actor ks

abbrev object_key_of : Option FileRow → String
object_key_of none = ""
object_key_of (some f) = f.object_key

-- The rows of the INSERT, with their places in the list.
unfoldable pub image_rows : List FileRow → (product_id next order : ℕ) → List ℕ → List ListingImage
image_rows files product_id next order [] = []
image_rows files product_id next order (k ∷ ks) =
    record {
      id = next;
      product_id = product_id;
      file_id = k;
      object_key = object_key_of (find_row (λ f. f.id == k) files);
      sort_order = order;
    }
    ∷ image_rows files product_id (suc next) (suc order) ks

abbrev after : ℕ → List ℕ → ℕ
after n [] = n
after n (k ∷ ks) = after (suc n) ks

abbrev insert_images : ℕ → List ℕ → MarketDb → MarketDb
unfolding image_rows
insert_images product_id ids s = record s {
  sequences = record s.sequences { next_image = after s.next_image ids };
  images = s.images ++ image_rows s.files product_id s.next_image 0 ids;
  files =
      update_rows (λ f. any_row (λ k. k == f.id) ids)
        (λ f. record f {
          owner_type = OwnerType.of_product;
          owner_id = some product_id;
          updated_at = s.clock;
        })
        s.files;
}

abbrev pub clear_images : ℕ → MarketDb → MarketDb
clear_images product_id s = record s {
  images = delete_rows (λ i. i.product_id == product_id) s.images;
}

abbrev put_images : AuthUser → ℕ → List ℕ → Exec MarketDb (Unit {0})
unfolding check_images insert_images
put_images actor product_id [] = pure tt
put_images actor product_id (k ∷ ks) = do
  check_images actor (k ∷ ks)
  modify (insert_images product_id (k ∷ ks))

unfoldable pub sync_product_images : AuthUser → ℕ → List ℕ → Exec MarketDb (Unit {0})
unfolding put_images
sync_product_images actor product_id ids = do
  modify (clear_images product_id)
  put_images actor product_id ids

pub record ProductWithImages : Type 0 where
  pub product : Listing
  pub images : List ImageView

abbrev with_images : MarketDb → Option Listing → Option ProductWithImages
unfolding images_of
with_images s none = none
with_images s (some p) = some (record { product = p; images = images_of s p.id })

abbrev pub is_listing : ℕ → Listing → Bool
is_listing k p = p.id == k && not (is_some p.deleted_at)

unfoldable pub fetch_product_with_images : ℕ → Exec MarketDb (Option ProductWithImages)
unfolding with_images
fetch_product_with_images product_id =
    gets (λ s. with_images s (find_row (is_listing product_id) s.listings))

abbrev require_product : Option ProductWithImages → Exec MarketDb ProductWithImages
require_product none = raise (not_found (fixed "Product not found"))
require_product (some p) = pure p

unfoldable pub get_product_by_id : ℕ → Exec MarketDb ProductWithImages
unfolding fetch_product_with_images
get_product_by_id product_id = do
  product ← fetch_product_with_images product_id
  require_product product
