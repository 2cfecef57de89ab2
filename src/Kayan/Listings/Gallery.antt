-- ===== src/Kayan/Listings/Gallery.antt =====
-- `listGallery`, `adminListGallery`, `listGalleryItems` and `escapeLike` of
-- src/kayan/kayan.service.ts. `ilike text pattern` is the server's ILIKE with the escape `\`.
use Prim.Native.Char.{Char, code}
use Prim.Native.String
use kayan_place.Prelude.{
  String, Bool, true, false, not, ◌&&◌, ◌||◌, List, Option, ◌==◌, ltb, length, is_some,
  if◌then◌else◌,
}
use kayan_place.Prelude.Rows.{select_rows}
use kayan_place.Helpers.Pagination.{OffsetPaginationQuery}
use kayan_place.Kayan.Tables.{Db, GalleryItem}
use kayan_place.Kayan.Assets.{AssetView, then_by, attach_assets}
use kayan_place.Kayan.Listings.{when_given, listed, Listing}

-- The class of `/[\\%_]/`: the backslash, the percent sign and the underscore.
abbrev pub is_special : Char → Bool
is_special c = code c == 92 || (code c == 37 || code c == 95)

unfoldable pub escape_like : String → String
escape_like String.[] = String.[]
escape_like (String.◌∷◌ c cs) =
    let rest = String.◌∷◌ c (escape_like cs) in if is_special c then String.◌++◌ "\\" rest else rest

-- `%${this.escapeLike(query.query)}%`
unfoldable pub search_pattern : String → String
unfolding escape_like
search_pattern value = String.◌++◌ "%" (String.◌++◌ (escape_like value) "%")

-- (title ILIKE $n ESCAPE '\' OR description ILIKE $n ESCAPE '\')
abbrev pub mentions :
    (ilike : String → String → Bool) → (title description : String) → String → Bool
mentions ilike title description value =
    ilike title (search_pattern value) || ilike description (search_pattern value)

pub record ListGalleryQueryDto : Type 0 where
  pub page : OffsetPaginationQuery
  pub query : Option String

abbrev pub gallery_filter :
    (ilike : String → String → Bool)
    → (active_only : Bool) → ListGalleryQueryDto
    → GalleryItem
    → Bool
gallery_filter ilike active_only query g =
    not (is_some g.deleted_at)
    && ((not active_only || g.is_active)
        && when_given query.query (λ x. mentions ilike g.title g.description x))

-- ORDER BY created_at DESC, id DESC
abbrev pub gallery_before : GalleryItem → GalleryItem → Bool
gallery_before a b = then_by b.created_at a.created_at (ltb b.id a.id)

unfoldable pub list_gallery_items :
    (ilike : String → String → Bool)
    → Bool
    → Db
    → ListGalleryQueryDto
    → Listing (GalleryItem × List AssetView)
list_gallery_items ilike active_only s query = record {
  items =
      attach_assets s.gallery_assets s (λ g. g.id)
        (listed (gallery_filter ilike active_only query) gallery_before query.page s.gallery_items);
  total = length (select_rows (gallery_filter ilike active_only query) s.gallery_items);
}

unfoldable pub list_gallery :
    (ilike : String → String → Bool)
    → Db
    → ListGalleryQueryDto
    → Listing (GalleryItem × List AssetView)
list_gallery ilike s query = list_gallery_items ilike true s query

unfoldable pub admin_list_gallery :
    (ilike : String → String → Bool)
    → Db
    → ListGalleryQueryDto
    → Listing (GalleryItem × List AssetView)
admin_list_gallery ilike s query = list_gallery_items ilike false s query
