-- ===== src/Catalog/Api.antt =====
-- services/catalog/internal/api/server.go: each operation as a request and its reply.
use Prim.Native.String.{len}
use wakewake.Prelude.{
  String, Bool, true, not, ◌&&◌, ◌||◌, Option, none, some, List, [], ◌∷◌, if◌then◌else◌, ltb,
}
use wakewake.Prelude.Int.{ℤ, pos, ltb_ℤ}
use wakewake.Platform.Session.{domain, Result, ok, err, World, Session}
use wakewake.Platform.Http.{Reply, replied, problem, internal, validation_failed}
use wakewake.Catalog.Product.{
  Product, Filter, Cursor, ListQuery, Page, CatalogError, not_found, is_valid_type, min_limit,
  max_limit, default_limit,
}
use wakewake.Catalog.Cursor.{TokenCodec, decode_cursor}
use wakewake.Catalog.Service.{list_page, get_product}

pub record ListParams : Type 0 where
  pub limit : Option ℤ
  pub type_ : Option String
  pub min_capacity : Option ℤ
  pub location : Option String
  pub cursor : Option String

-- The checks of the parameters, each for itself: none where the contract forbids the value.
abbrev pub check_limit : Option ℤ → Option ℤ
check_limit none = some (pos default_limit)
check_limit (some n) = if ltb_ℤ n (pos min_limit) || ltb_ℤ (pos max_limit) n then none else some n

abbrev pub is_type_allowed : Option String → Bool
is_type_allowed none = true
is_type_allowed (some t) = is_valid_type t

abbrev pub is_capacity_allowed : Option ℤ → Bool
is_capacity_allowed none = true
is_capacity_allowed (some n) = not (ltb_ℤ n (pos 1))

abbrev pub is_location_allowed : Option String → Bool
is_location_allowed none = true
is_location_allowed (some l) = not (ltb 100 (len l))

abbrev pub filter_of : ListParams → Option Filter
filter_of p =
    if is_type_allowed p.type_
      && (is_capacity_allowed p.min_capacity && is_location_allowed p.location)
    then some (record { type_ = p.type_; min_capacity = p.min_capacity; location = p.location })
    else none

module _ (c : TokenCodec) where
  -- None is a token that is refused.
  abbrev pub cursor_param : Option String → Option (Option Cursor)
  cursor_param none = some none
  cursor_param (some token) = elim (decode_cursor c token) [
    | none ↦ none
    | some cursor ↦ some (some cursor)
  ]

  -- The query of a request, none where a parameter is refused.
  unfoldable pub query_of : ListParams → Option ListQuery
  query_of p = elim (check_limit p.limit) [
    | none ↦ none
    | some limit ↦ elim (filter_of p) [
      | none ↦ none
      | some filter ↦ elim (cursor_param p.cursor) [
        | none ↦ none
        | some cursor ↦ some (record { filter = filter; cursor = cursor; limit = limit })
      ]
    ]
  ]

  -- `toAPI`, for each product of a page.
  abbrev pub has_uuids : Product → Bool
  has_uuids p = c.is_uuid p.id && c.is_uuid p.resource_id

  abbrev pub all_have_uuids : List Product → Bool
  all_have_uuids [] = true
  all_have_uuids (p ∷ ps) = has_uuids p && all_have_uuids ps

  abbrev pub answer_page : Result CatalogError Page → Reply Page
  answer_page (ok page) = if all_have_uuids page.products then replied 200 page else internal
  answer_page (err e) = internal

  abbrev pub answer_product : Result CatalogError Product → Reply Product
  answer_product (ok p) = if has_uuids p then replied 200 p else internal
  answer_product (err (domain not_found)) = problem 404 "product_not_found"
  answer_product (err e) = internal

  -- `ListProducts`
  unfoldable pub list_products_api :
      (String → String → Bool)
      → ListParams
      → World (List Product)
      → Session (List Product)
      → Reply Page × Session (List Product)
  list_products_api id_before p w s = elim (query_of p) [
    | none ↦ (validation_failed, s)
    | some q ↦ (answer_page (list_page id_before c q w s).0, (list_page id_before c q w s).1)
  ]

  -- `GetProduct`
  unfoldable pub get_product_api :
      String
      → World (List Product)
      → Session (List Product)
      → Reply Product × Session (List Product)
  get_product_api id w s = (answer_product (get_product id w s).0, (get_product id w s).1)
