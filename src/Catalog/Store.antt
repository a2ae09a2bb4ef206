-- ===== src/Catalog/Store.antt =====
-- services/catalog/internal/infra/store.go, on migrations/0001_product.sql.
use wakewake.Prelude.{
  ℕ, String, ◌==◌, Bool, true, not, ◌&&◌, ◌||◌, Option, none, some, List, eqb, ltb, take, filterb,
}
use wakewake.Prelude.Int.{ℤ, ltb_ℤ}
use wakewake.Prelude.Sorting.{sort_rows}
use wakewake.Contracts.Events.{Time}
use wakewake.Platform.Session.{Error, domain, no_rows, Result, ok, err, Action, fail, catch, query}
use wakewake.Platform.Keyed.{find_by}
use wakewake.Catalog.Product.{Product, Filter, Cursor, CatalogError, not_found}

abbrev pub is_type : Option String → Product → Bool
is_type none p = true
is_type (some t) p = p.type_ == t

abbrev pub has_capacity : Option ℤ → Product → Bool
has_capacity none p = true
has_capacity (some n) p = not (ltb_ℤ p.capacity n)

abbrev pub is_located : Option String → Product → Bool
is_located none p = true
is_located (some l) p = p.location == l

abbrev pub matches : Filter → Product → Bool
matches f p = is_type f.type_ p && (has_capacity f.min_capacity p && is_located f.location p)

-- `id_before`: how Postgres orders two uuids.
module _ (id_before : String → String → Bool) where
  -- (created_at, id) < (t, i)
  abbrev pub is_older : Time → String → Product → Bool
  is_older t i p = ltb p.created_at t || (eqb p.created_at t && id_before p.id i)

  abbrev pub is_after : Option Cursor → Product → Bool
  is_after none p = true
  is_after (some c) p = is_older c.created_at c.id p

  -- ORDER BY created_at DESC, id DESC
  abbrev pub newer : Product → Product → Bool
  newer x y = is_older x.created_at x.id y

  unfoldable pub select_products : Filter → Option Cursor → ℕ → List Product → List Product
  select_products f after limit rows =
      take limit (sort_rows newer (filterb (λ p. matches f p && is_after after p) rows))

  abbrev pub CatalogAction : Type 0 → Type 0
  CatalogAction A = Action CatalogError (List Product) A

  -- `List`
  unfoldable pub list_products : Filter → Option Cursor → ℕ → CatalogAction (List Product)
  list_products f after limit = query (λ now db. ok (select_products f after limit db.own))

abbrev pub found_product : Option Product → Result CatalogError Product
found_product none = err no_rows
found_product (some p) = ok p

abbrev pub translate_read : Error CatalogError → Error CatalogError
translate_read no_rows = domain not_found
translate_read e = e

-- `ByID`
unfoldable pub by_id : String → Action CatalogError (List Product) Product
by_id id =
    catch (query (λ now db. found_product (find_by (λ (p : Product). p.id) id db.own)))
      (λ e. fail (translate_read e))
