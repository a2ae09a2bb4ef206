-- ===== src/Catalog.antt =====
-- services/catalog: the products, which are listed page by page.
pub mod Product
pub mod Cursor
pub mod Store
pub mod Service
pub mod Api
pub mod Paging
pub mod Walk
pub mod Bounds
