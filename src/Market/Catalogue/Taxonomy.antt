-- ===== src/Market/Catalogue/Taxonomy.antt =====
-- src/products/product-taxonomy.ts
use kayan_place.Prelude.{
  String, Bool, false, not, ◌&&◌, ◌||◌, List, [], ◌∷◌, same_text, if◌then◌else◌,
}

abbrev pub includes : List String → String → Bool
includes [] t = false
includes (u ∷ us) t = same_text u t || includes us t

abbrev pub product_categories : List String
product_categories =
    "realEstate" ∷ "vehicles" ∷ "electronics" ∷ "homeAndDecor" ∷ "clothingAndFashion" ∷ "services"
    ∷ []

abbrev pub real_estate_subcategories : List String
real_estate_subcategories =
    "all" ∷ "apartmentForRent" ∷ "apartmentForSale" ∷ "houses" ∷ "lands"
    ∷ "commercialRealEstateForRent" ∷ "commercialRealEstateForSale" ∷ "other" ∷ []

abbrev pub vehicles_subcategories : List String
vehicles_subcategories =
    "all" ∷ "carsForSale" ∷ "carsForRent" ∷ "sparePartsAndAccessories" ∷ "motorCycles" ∷ "bicycles"
    ∷ "trucksAndHeavyVehicles" ∷ []

abbrev pub electronics_subcategories : List String
electronics_subcategories =
    "all" ∷ "smartphones" ∷ "tablets" ∷ "laptopsAndComputers" ∷ "accessories"
    ∷ "speakersAndHeadphones" ∷ "cameras" ∷ "smartWatchesAndWearables" ∷ "monitorsAndTVs" ∷ "other"
    ∷ []

abbrev pub home_and_decor_subcategories : List String
home_and_decor_subcategories =
    "all" ∷ "furniture" ∷ "officeFurniture" ∷ "kitchenAndDining" ∷ "beddingAndBath" ∷ "homeDecor"
    ∷ "homeTools" ∷ "lighting" ∷ "other" ∷ []

abbrev pub clothing_and_fashion_subcategories : List String
clothing_and_fashion_subcategories =
    "all" ∷ "menClothing" ∷ "womenClothing" ∷ "kidsClothing" ∷ "shoes" ∷ "menAccessories"
    ∷ "womenAccessoriesAndMakeup" ∷ "jewelryAndWatches" ∷ "other" ∷ []

abbrev pub services_subcategories : List String
services_subcategories =
    "all" ∷ "maintenanceAndRepairs" ∷ "transportationAndMoving" ∷ "personalServices"
    ∷ "carsServices" ∷ "homeServices" ∷ "lessonsAndTutoring" ∷ "other" ∷ []

-- CATEGORY_TO_SUBCATEGORIES
unfoldable pub subcategories_of : String → List String
subcategories_of category =
    if same_text category "realEstate"
    then real_estate_subcategories
    else if same_text category "vehicles"
    then vehicles_subcategories
    else if same_text category "electronics"
    then electronics_subcategories
    else if same_text category "homeAndDecor"
    then home_and_decor_subcategories
    else if same_text category "clothingAndFashion"
    then clothing_and_fashion_subcategories
    else if same_text category "services"
    then services_subcategories
    else []

unfoldable pub is_valid_category : String → Bool
is_valid_category category = includes product_categories category

unfoldable pub is_valid_subcategory : (category subcategory : String) → Bool
unfolding is_valid_category subcategories_of
is_valid_subcategory category subcategory =
    is_valid_category category && includes (subcategories_of category) subcategory

unfoldable pub is_allowed_product_subcategory : (category subcategory : String) → Bool
unfolding is_valid_subcategory
is_allowed_product_subcategory category subcategory =
    is_valid_subcategory category subcategory && not (same_text subcategory "all")

unfoldable pub get_allowed_subcategories : String → List String
unfolding is_valid_category subcategories_of
get_allowed_subcategories category =
    if is_valid_category category then subcategories_of category else []
