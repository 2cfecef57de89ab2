-- ===== src/Market/Catalogue/Owners.antt =====
-- Who may write to a listing, and which categories a new one has: src/products/products.service.ts.
use kayan_place.Prelude.{
  ℕ, ◌≡◌, refl, String, Bool, true, false, not, List, [], ◌∷◌, ◌++◌, Option, none, some, arith,
  Option-cases, inl, inr,
}
use kayan_place.Prelude.Rows.{find_row}
use kayan_place.Database.{
  Error, Exec, raise_if, ok, state, pure, ◌>>=◌, ◌>>◌, >>=-eq-ok, with_transaction-ok,
  Outcome-reads,
}
use kayan_place.Kayan.Dto.{AuthUser}
use kayan_place.Market.Tables.{MarketDb, Listing, ListingStatus, rollback_market}
use kayan_place.Market.Catalogue.{
  CreateProductDto, UpdateProductDto, ProductWithImages, is_listing, assert_category_pair,
  clear_images, check_images, sync_product_images, fetch_product_with_images,
}
use kayan_place.Market.Catalogue.Taxonomy.{
  is_valid_category, is_allowed_product_subcategory, is_valid_subcategory,
}
use kayan_place.Market.Catalogue.Writes.{
  own_product, map_text, new_listing, insert_listing, sync_new, create_product, update_product,
  delete_product, update_product_status, create_callback, update_callback, delete_callback,
  status_callback,
}

pub data ListingWrite : Type 0 where
  updates : (product_id : ℕ) → UpdateProductDto → ListingWrite
  deletes : (product_id : ℕ) → ListingWrite
  sets_status : (product_id : ℕ) → ListingStatus → ListingWrite

abbrev pub target : ListingWrite → ℕ
target (updates k dto) = k
target (deletes k) = k
target (sets_status k status) = k

-- The listing is there and belongs to the user.
abbrev pub Owns : AuthUser → ℕ → MarketDb → Type 0
Owns user k s =
    (p : Listing) × (find_row (is_listing k) s.listings ≡ some p) × (p.owner_id ≡ user.sub)

own_product-ok :
    (user : AuthUser) (k : ℕ) (s : MarketDb) {p : Listing} {t : MarketDb}
    → own_product user k s ≡ ok p t
    → Owns user k s
own_product-ok user k s {p} {t} h = elim (Option-cases (find_row (is_listing k) s.listings)) [
  | inl n ↦ absurd (ground arith)
  | inr (q, f) ↦ (q, f, ground arith)
]

module _ (trim : String → String) where
  unfoldable pub write : AuthUser → ListingWrite → Exec MarketDb (Unit {0})
  unfolding update_product delete_product update_product_status
  write user (updates k dto) = update_product trim user k dto >>= λ _. pure tt
  write user (deletes k) = delete_product user k
  write user (sets_status k status) = update_product_status user k status >>= λ _. pure tt

  -- A listing is updated, deleted or given a status by its owner only: each of these succeeds only
  -- where the listing is there, is not deleted, and has the user of the request as its owner.
  pub write-Owns :
      (user : AuthUser) (call : ListingWrite) (s : MarketDb) {t : MarketDb}
      → write user call s ≡ ok tt t
      → Owns user (target call) s
  unfolding write update_product update_callback delete_product update_product_status
  write-Owns user (updates k dto) s {t} h =
      let (r, u, run, rest) =
        >>=-eq-ok (update_product trim user k dto) (λ _. pure tt) s {b = tt} {s'' = t} h in
      let body =
        with_transaction-ok rollback_market (update_callback trim user k dto) s {a = r} {s' = u}
          run in
      let (p, v, own, later) = >>=-eq-ok (own_product user k) _ s {b = r} {s'' = u} body in
      own_product-ok user k s {p = p} {t = v} own
  write-Owns user (deletes k) s {t} h =
      let body =
        with_transaction-ok rollback_market (delete_callback user k) s {a = tt} {s' = t} h in
      let (p, v, own, later) = >>=-eq-ok (own_product user k) _ s {b = tt} {s'' = t} body in
      own_product-ok user k s {p = p} {t = v} own
  write-Owns user (sets_status k status) s {t} h =
      let (r, u, run, rest) =
        >>=-eq-ok (update_product_status user k status) (λ _. pure tt) s {b = tt} {s'' = t} h in
      let body =
        with_transaction-ok rollback_market (status_callback user k status) s {a = r} {s' = u}
          run in
      let (p, v, own, later) = >>=-eq-ok (own_product user k) _ s {b = r} {s'' = u} body in
      own_product-ok user k s {p = p} {t = v} own

-- A category of the taxonomy, and no subcategory or one of its own that is not `all`.
unfoldable pub IsListedUnder : String → Option String → Type 0
IsListedUnder category none = is_valid_category category ≡ true
IsListedUnder category (some sub) = is_allowed_product_subcategory category sub ≡ true

-- Three guards in a row let a run through, with nothing changed, only where the last test holds.
raise_if-last :
    (v w a : Bool) (e f g : Error) (s : MarketDb) {t : MarketDb}
    → (raise_if (not v) e >> (raise_if (not w) f >> raise_if (not a) g)) s ≡ ok tt t
    → (a ≡ true) × (t ≡ s)
raise_if-last v w true e f g s h = (refl, ground arith)
raise_if-last false w false e f g s h = absurd (ground arith)
raise_if-last true false false e f g s h = absurd (ground arith)
raise_if-last true true false e f g s h = absurd (ground arith)

assert_category_pair-ok :
    (category : String) (sub : Option String) (s : MarketDb) {t : MarketDb}
    → assert_category_pair category sub false s ≡ ok tt t
    → IsListedUnder category sub × (t ≡ s)
unfolding assert_category_pair IsListedUnder
assert_category_pair-ok category none s {t} h = (ground arith, ground arith)
assert_category_pair-ok category (some sub) s {t} h =
    raise_if-last (is_valid_category category) (is_valid_subcategory category sub)
      (is_allowed_product_subcategory category sub) _ _ _ s {t = t} h

check_images-state :
    (user : AuthUser) (ids : List ℕ) (s : MarketDb) → state (check_images user ids s) ≡ s
unfolding check_images
check_images-state user [] s = refl
check_images-state user (k ∷ ks) s = ground (arith, check_images-state user ks s)

sync_new-listings :
    (user : AuthUser) (k : ℕ) (ids : Option (List ℕ)) (s : MarketDb)
    → (state (sync_new user k ids s)).listings ≡ s.listings
unfolding sync_product_images
sync_new-listings user k none s = refl
sync_new-listings user k (some []) s = refl
sync_new-listings user k (some (j ∷ js)) s =
    let u = clear_images k s in
    elim (Outcome-reads (check_images user (j ∷ js) u) u (check_images-state user (j ∷ js) u)) [
      | inl (done, e) ↦ ground arith
      | inr (x, e) ↦ ground arith
    ]

-- The listing of the user is stored last, under a category and a subcategory that go together.
abbrev pub IsStored : (category : String) → Option String → AuthUser → (s t : MarketDb) → Type 0
IsStored category sub user s t =
    (p : Listing) × (t.listings ≡ s.listings ++ p ∷ [])
    × (p.owner_id ≡ user.sub)
    × (p.category ≡ category)
    × (p.subcategory ≡ sub)
    × IsListedUnder p.category p.subcategory

insert_listing-ok :
    (trim : String → String) (user : AuthUser) (dto : CreateProductDto) (s : MarketDb) {k : ℕ}
    {t : MarketDb}
    → insert_listing trim user dto s ≡ ok k t
    → t.listings ≡ s.listings ++ new_listing trim user dto s ∷ []
insert_listing-ok trim user dto s {k} {t} h = ground arith

-- A listing that is created is stored with its category and subcategory trimmed, and only where
-- the category is of the taxonomy and there is no subcategory or it is one of that category that
-- is not `all`; it is the user's, and is added behind the others, which stay as they were.
pub create_product-IsStored :
    (trim : String → String) (user : AuthUser) (dto : CreateProductDto) (s : MarketDb)
    {r : Option ProductWithImages} {t : MarketDb}
    → create_product trim user dto s ≡ ok r t
    → IsStored (trim dto.category) (map_text trim dto.subcategory) user s t
unfolding create_product create_callback fetch_product_with_images
create_product-IsStored trim user dto s {r} {t} h =
    let category = trim dto.category in
    let sub = map_text trim dto.subcategory in
    let body =
      with_transaction-ok rollback_market (create_callback trim user dto) s {a = r} {s' = t} h in
    let (u, v, asserted, rest) =
      >>=-eq-ok (assert_category_pair category sub false) _ s {b = r} {s'' = t} body in
    let (under, same) = assert_category_pair-ok category sub s {t = v} asserted in
    let (k, w, inserted, later) =
      >>=-eq-ok (insert_listing trim user dto) _ v {b = r} {s'' = t} rest in
    let (done, x, synced, last) =
      >>=-eq-ok (sync_new user k dto.image_file_ids) _ w {b = r} {s'' = t} later in
    let kept = sync_new-listings user k dto.image_file_ids w in
    let put = insert_listing-ok trim user dto v {k = k} {t = w} inserted in
    (new_listing trim user dto v, ground (arith, same, put, kept), refl, refl, refl, under)
