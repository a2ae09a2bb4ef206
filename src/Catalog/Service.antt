-- ===== src/Catalog/Service.antt =====
-- services/catalog/internal/domain/service.go: which rows a page has, and its next cursor.
use wakewake.Prelude.{
  ℕ, suc, String, Bool, Option, none, some, List, [], ◌∷◌, if◌then◌else◌, leb, length, take,
}
use wakewake.Prelude.Int.{ℤ, pos, ltb_ℤ, pos_part}
use wakewake.Platform.Session.{Action, pure, ◌>>=◌}
use wakewake.Catalog.Product.{
  Product, ListQuery, Page, CatalogError, min_limit, max_limit, default_limit,
}
use wakewake.Catalog.Cursor.{TokenCodec, encode_cursor}
use wakewake.Catalog.Store.{list_products, by_id}

unfoldable pub clamp_limit : ℤ → ℕ
clamp_limit n =
    if ltb_ℤ n (pos min_limit)
    then default_limit
    else (if ltb_ℤ (pos max_limit) n then max_limit else pos_part n)

-- The last of a page.
abbrev pub last_of : List Product → Option Product
last_of [] = none
last_of (p ∷ []) = some p
last_of (p ∷ q ∷ ps) = last_of (q ∷ ps)

abbrev pub token_of : TokenCodec → Option Product → Option String
token_of c none = none
token_of c (some p) = some (encode_cursor c p)

-- The page of a fetch that asked for one row more than the limit.
unfoldable pub page_of : TokenCodec → ℕ → List Product → Page
page_of c limit products =
    if leb (length products) limit
    then record { products = products; next_cursor = none }
    else record {
      products = take limit products;
      next_cursor = token_of c (last_of (take limit products));
    }

module _ (id_before : String → String → Bool) (c : TokenCodec) where
  -- `List`
  unfoldable pub list_page : ListQuery → Action CatalogError (List Product) Page
  list_page q = do
    products ← list_products id_before q.filter q.cursor (suc (clamp_limit q.limit))
    pure (page_of c (clamp_limit q.limit) products)

-- `Get`
unfoldable pub get_product : String → Action CatalogError (List Product) Product
get_product id = by_id id
