-- ===== src/Market/Catalogue/Tests.antt =====
-- Runs of the listings of users.
use kayan_place.Prelude.{refl, String, false, [], ◌∷◌, none, some}
use kayan_place.Database.{state}
use kayan_place.Kayan.Dto.{AuthUser}
use kayan_place.Market.Tables.{MarketDb, Listing, ListingStatus}
use kayan_place.Market.Samples.{market}
use kayan_place.Market.Catalogue.{CreateProductDto, assert_category_pair, fetch_product_with_images}
use kayan_place.Market.Catalogue.Taxonomy.{
  is_valid_category, is_valid_subcategory, is_allowed_product_subcategory, subcategories_of,
}
use kayan_place.Market.Catalogue.Writes.{
  create_product, create_callback, update_product, delete_product, update_product_status,
}
use kayan_place.Market.Catalogue.Owners.{
  ListingWrite, Owns, write, write-Owns, IsStored, create_product-IsStored,
}

abbrev flat : Listing
flat = record {
  id = 1;
  owner_id = 1;
  category = "realEstate";
  subcategory = some "houses";
  name = "n";
  description = "d";
  price = 5;
  city = "c";
  address_text = "a";
  details = none;
  status = ListingStatus.available;
  is_negotiable = false;
  preferred_contact_method = "both";
  deleted_at = none;
  created_at = 0;
  updated_at = 0;
}

abbrev listed : MarketDb
listed = record market { listings = flat ∷ [] }

abbrev owner : AuthUser
owner = record { sub = 1; is_admin = false }

abbrev same : String → String
same t = t

-- What the runs compute with.
service : Unit {0}
unfolding write update_product delete_product update_product_status create_product create_callback
    assert_category_pair is_valid_category is_valid_subcategory is_allowed_product_subcategory
    subcategories_of fetch_product_with_images
service = tt

write-Owns_example : Owns owner 1 listed
unfolding service
write-Owns_example =
    write-Owns same owner (ListingWrite.sets_status 1 ListingStatus.sold) listed {t = _} refl

abbrev house : CreateProductDto
house = record {
  category = "realEstate";
  subcategory = some "houses";
  name = "n";
  description = "d";
  price = 5;
  city = "c";
  address_text = "a";
  details = none;
  image_file_ids = none;
  is_negotiable = none;
  preferred_contact_method = none;
}

create_product-IsStored_example :
    IsStored "realEstate"
      (some "houses")
      owner
      market
      (state (create_product same owner house market))
unfolding service
create_product-IsStored_example =
    create_product-IsStored same owner house market {r = _} {t = _} refl
