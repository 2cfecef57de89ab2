-- ===== src/Market/Catalogue/Writes.antt =====
-- `createProduct`, `updateProduct`, `deleteProduct` and `updateProductStatus` of
-- src/products/products.service.ts.
use kayan_place.Prelude.{
  ℕ, suc, String, false, not, List, [], ◌∷◌, ◌++◌, Option, none, some, ◌==◌, get_or,
}
use kayan_place.Prelude.Rows.{find_row, update_rows, any_row}
use kayan_place.Database.{
  Exec, SqlState, database, fixed, not_found, forbidden, pure, raise, raise_if, gets, modify, ◌>>=◌,
  ◌>>◌, with_transaction,
}
use kayan_place.Kayan.Dto.{AuthUser}
use kayan_place.Market.Tables.{MarketDb, Listing, ListingStatus, rollback_market}
use kayan_place.Market.Views.{coalesce}
use kayan_place.Market.Users.{is_other}
use kayan_place.Market.Catalogue.{
  CreateProductDto, UpdateProductDto, ProductWithImages, assert_category_pair, sync_product_images,
  fetch_product_with_images, is_listing,
}

abbrev pub map_text : (String → String) → Option String → Option String
map_text f none = none
map_text f (some t) = some (f t)

-- FOR UPDATE, and who may write.
abbrev pub require_own : AuthUser → Option Listing → Exec MarketDb Listing
require_own user none = raise (not_found (fixed "Product not found"))
require_own user (some p) = do
  raise_if (is_other user (some p.owner_id)) (forbidden (fixed "Not allowed"))
  pure p

abbrev pub own_product : AuthUser → ℕ → Exec MarketDb Listing
own_product user product_id = do
  found ← gets (λ s. find_row (is_listing product_id) s.listings)
  require_own user found

abbrev pub put_listings : (Listing → Listing) → ℕ → MarketDb → MarketDb
put_listings f product_id s = record s {
  listings = update_rows (λ p. p.id == product_id) f s.listings;
}

abbrev sync_given : AuthUser → ℕ → Option (List ℕ) → Exec MarketDb (Unit {0})
unfolding sync_product_images
sync_given user product_id none = pure tt
sync_given user product_id (some ids) = sync_product_images user product_id ids

-- `dto.imageFileIds && dto.imageFileIds.length > 0`
abbrev pub sync_new : AuthUser → ℕ → Option (List ℕ) → Exec MarketDb (Unit {0})
unfolding sync_product_images
sync_new user product_id none = pure tt
sync_new user product_id (some []) = pure tt
sync_new user product_id (some (k ∷ ks)) = sync_product_images user product_id (k ∷ ks)

module _ (trim : String → String) where
  abbrev pub new_listing : AuthUser → CreateProductDto → MarketDb → Listing
  new_listing user dto s = record {
    id = s.next_listing;
    owner_id = user.sub;
    category = trim dto.category;
    subcategory = map_text trim dto.subcategory;
    name = dto.name;
    description = dto.description;
    price = dto.price;
    city = dto.city;
    address_text = dto.address_text;
    details = dto.details;
    status = ListingStatus.available;
    is_negotiable = get_or dto.is_negotiable false;
    preferred_contact_method = get_or dto.preferred_contact_method "both";
    deleted_at = none;
    created_at = s.clock;
    updated_at = s.clock;
  }

  -- The owner references users.
  abbrev pub insert_listing : AuthUser → CreateProductDto → Exec MarketDb ℕ
  insert_listing user dto = do
    product ← gets (λ s. new_listing user dto s)
    modify (λ s. record s { sequences = record s.sequences { next_listing = suc s.next_listing } })
    known ← gets (λ s. any_row (λ a. a.id == user.sub) s.accounts)
    raise_if (not known) (database SqlState.foreign_key_violation)
    modify (λ s. record s { listings = s.listings ++ product ∷ [] })
    pure product.id

  unfoldable pub create_callback :
      AuthUser → CreateProductDto → Exec MarketDb (Option ProductWithImages)
  unfolding assert_category_pair sync_new fetch_product_with_images
  create_callback user dto = do
    assert_category_pair (trim dto.category) (map_text trim dto.subcategory) false
    product_id ← insert_listing user dto
    sync_new user product_id dto.image_file_ids
    fetch_product_with_images product_id

  unfoldable pub create_product :
      AuthUser → CreateProductDto → Exec MarketDb (Option ProductWithImages)
  unfolding create_callback
  create_product user dto = with_transaction rollback_market (create_callback user dto)

  abbrev next_subcategory : Option (Option String) → Option String → Option String
  next_subcategory none current = current
  next_subcategory (some given) current = map_text trim given

  abbrev set_listing : UpdateProductDto → (now : ℕ) → Listing → Listing
  set_listing dto now p = record p {
    category = get_or (map_text trim dto.category) p.category;
    subcategory = next_subcategory dto.subcategory p.subcategory;
    name = get_or dto.name p.name;
    description = get_or dto.description p.description;
    price = get_or dto.price p.price;
    city = get_or dto.city p.city;
    address_text = get_or dto.address_text p.address_text;
    details = coalesce dto.details p.details;
    is_negotiable = get_or dto.is_negotiable p.is_negotiable;
    preferred_contact_method = get_or dto.preferred_contact_method p.preferred_contact_method;
    updated_at = now;
  }

  unfoldable pub update_callback :
      AuthUser → ℕ → UpdateProductDto → Exec MarketDb (Option ProductWithImages)
  unfolding assert_category_pair sync_given fetch_product_with_images
  update_callback user product_id dto = do
    current ← own_product user product_id
    assert_category_pair (get_or (map_text trim dto.category) current.category)
        (next_subcategory dto.subcategory current.subcategory) false
    modify (λ s. put_listings (set_listing dto s.clock) product_id s)
    sync_given user product_id dto.image_file_ids
    fetch_product_with_images product_id

  unfoldable pub update_product :
      AuthUser → ℕ → UpdateProductDto → Exec MarketDb (Option ProductWithImages)
  unfolding update_callback
  update_product user product_id dto =
      with_transaction rollback_market (update_callback user product_id dto)

abbrev pub delete_callback : AuthUser → ℕ → Exec MarketDb (Unit {0})
delete_callback user product_id = do
  current ← own_product user product_id
  modify (λ s. put_listings (λ p. record p { deleted_at = some s.clock }) product_id s)

unfoldable pub delete_product : AuthUser → ℕ → Exec MarketDb (Unit {0})
delete_product user product_id = with_transaction rollback_market (delete_callback user product_id)

-- The row that the UPDATE returns, of which the response has the id, the status and the time.
abbrev pub status_callback : AuthUser → ℕ → ListingStatus → Exec MarketDb (Option Listing)
status_callback user product_id status = do
  current ← own_product user product_id
  modify (λ s. put_listings (λ p. record p { status = status; updated_at = s.clock }) product_id s)
  gets (λ s. find_row (λ p. p.id == product_id) s.listings)

unfoldable pub update_product_status : AuthUser → ℕ → ListingStatus → Exec MarketDb (Option Listing)
update_product_status user product_id status =
    with_transaction rollback_market (status_callback user product_id status)
