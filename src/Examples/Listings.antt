-- ===== src/Examples/Listings.antt =====
-- Three products, walked in pages of one, and the tokens of their places.
use wakewake.Prelude.{◌≤◌, String, none, some, ◌≡◌, refl, arith, List, [], ◌∷◌, length}
use wakewake.Prelude.Int.{pos}
use wakewake.Prelude.Sorting.{sort_rows, insert_sorted}
use wakewake.Contracts.Events.{Time}
use wakewake.Platform.Session.{ok, resumed, query}
use wakewake.Catalog.Product.{Product, Filter, Page, ListQuery}
use wakewake.Catalog.Cursor.{encode_cursor, decode_cursor, cursor_at, decode_cursor-encode_cursor}
use wakewake.Catalog.Store.{list_products}
use wakewake.Catalog.Walk.{page_at, walk, listing, walk-listing}
use wakewake.Catalog.Service.{clamp_limit, list_page}
use wakewake.Catalog.Bounds.{list_page_lem}
use wakewake.Examples.Worlds.{quiet, start_of}
use wakewake.Examples.Tokens.{quoted, quoted-Documented, before, before-UuidOrder}

abbrev product : String → Time → Product
product id at = record {
  id = id;
  resource_id = "court";
  type_ = "boat";
  name = "Boat";
  description = none;
  capacity = pos 4;
  location = "lake";
  base_price_minor = pos 15_000;
  currency = "EUR";
  media_urls = [];
  created_at = at;
  updated_at = at;
}

abbrev fleet : List Product
fleet = product "a" 5 ∷ product "b" 7 ∷ product "c" 5 ∷ []

abbrev everything : Filter
everything = record { type_ = none; min_capacity = none; location = none }

decode_cursor-encode_cursor_example :
    decode_cursor quoted (encode_cursor quoted (product "a" 5)) ≡ some (cursor_at (product "a" 5))
decode_cursor-encode_cursor_example =
    decode_cursor-encode_cursor quoted quoted-Documented (product "a" 5) refl

listing_is_short : length (listing before quoted everything fleet 1) ≡ 3
unfolding sort_rows insert_sorted
listing_is_short = refl

walk-listing_example :
    walk before quoted everything fleet 1 4 none ≡ listing before quoted everything fleet 1
walk-listing_example =
    walk-listing before quoted everything fleet 1 before-UuidOrder quoted-Documented
      ((refl, (refl, tt)), ((refl, tt), (tt, tt))) (refl, (refl, (refl, tt))) (omega arith) 4
      (omega (arith, listing_is_short))

abbrev first_query : ListQuery
first_query = record { filter = everything; cursor = none; limit = pos 2 }

abbrev first_page : Page
first_page = page_at before quoted everything fleet 2 none

first_page_is_listed :
    (list_page before quoted first_query quiet (start_of fleet)).0 ≡ ok first_page
unfolding list_page list_products query clamp_limit
first_page_is_listed = refl

list_page_lem_example :
    (first_page ≡ page_at before quoted everything fleet (clamp_limit (pos 2)) none)
    × (length first_page.products ≤ clamp_limit (pos 2))
    × (1 ≤ clamp_limit (pos 2))
    × (clamp_limit (pos 2) ≤ 200)
    × ((list_page before quoted first_query quiet (start_of fleet)).1.db
        ≡ (resumed quiet (start_of fleet)).db)
list_page_lem_example =
    list_page_lem before quoted first_query quiet (start_of fleet) first_page_is_listed
