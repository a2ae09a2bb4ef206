-- ===== src/Catalog/Product.antt =====
-- services/catalog/internal/domain/product.go: products, filters and pages.
use wakewake.Prelude.{ℕ, String, ◌==◌, Bool, ◌||◌, Option, List}
use wakewake.Prelude.Int.{ℤ}
use wakewake.Contracts.Events.{Time}

abbrev pub min_limit : ℕ
min_limit = 1

abbrev pub max_limit : ℕ
max_limit = 200

abbrev pub default_limit : ℕ
default_limit = 50

-- `ProductType.Valid`, on a string type.
unfoldable pub is_valid_type : String → Bool
is_valid_type t = t == "boat" || (t == "yacht" || t == "wakesurf_session")

pub record Product : Type 0 where
  pub id : String
  pub resource_id : String
  pub type_ : String
  pub name : String
  pub description : Option String
  pub capacity : ℤ
  pub location : String
  pub base_price_minor : ℤ
  pub currency : String
  pub media_urls : List String
  pub created_at : Time
  pub updated_at : Time

pub record Filter : Type 0 where
  pub type_ : Option String
  pub min_capacity : Option ℤ
  pub location : Option String

-- The boundary that a listing resumes from.
pub record Cursor : Type 0 where
  pub created_at : Time
  pub id : String

pub record ListQuery : Type 0 where
  pub filter : Filter
  pub cursor : Option Cursor
  pub limit : ℤ

pub record Page : Type 0 where
  pub products : List Product
  pub next_cursor : Option String

-- services/catalog/internal/domain/errors.go
pub data CatalogError : Type 0 where
  not_found invalid_cursor : CatalogError
