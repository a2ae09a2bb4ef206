-- ===== src/Catalog/Bounds.antt =====
-- services/catalog: what a page that the service answers with holds.
use wakewake.Prelude.{
  ℕ, zero, suc, ◌≤◌, ◌≡◌, inl, inr, arith, String, Bool, List, [], ◌∷◌, leb, leb→le, length, take,
  Bool-cases,
}
use wakewake.Prelude.Int.{ℤ, pos, negsuc}
use wakewake.Platform.Session.{ok, World, Session, resumed, query}
use wakewake.Catalog.Product.{Product, ListQuery, Page}
use wakewake.Catalog.Cursor.{TokenCodec}
use wakewake.Catalog.Store.{list_products}
use wakewake.Catalog.Service.{clamp_limit, page_of, list_page}
use wakewake.Catalog.Walk.{page_at}

clamp_limit-bounds : (n : ℤ) → (1 ≤ clamp_limit n) × (clamp_limit n ≤ 200)
unfolding clamp_limit
clamp_limit-bounds (pos n) = ground arith
clamp_limit-bounds (negsuc n) = ground arith

length-take : (n : ℕ) (xs : List Product) → length (take n xs) ≤ n
length-take zero xs = omega arith
length-take (suc n) [] = omega arith
length-take (suc n) (x ∷ xs) = omega (arith, length-take n xs)

page_of-length : (c : TokenCodec) (n : ℕ) (xs : List Product) → length (page_of c n xs).products ≤ n
unfolding page_of
page_of-length c n xs = elim (Bool-cases (leb (length xs) n)) [
  | inl short ↦ rw short (leb→le _ _ short)
  | inr long ↦ rw long (length-take n xs)
]

-- A listing that is answered is the page of the table as the query found it, for the clamped limit,
-- which is between 1 and 200 and which the page does not exceed; and it changes nothing.
pub list_page_lem :
    (id_before : String → String → Bool) (c : TokenCodec) (q : ListQuery) (w : World (List Product))
    (s : Session (List Product)) {page : Page}
    → (list_page id_before c q w s).0 ≡ ok page
    → (page ≡ page_at id_before c q.filter (resumed w s).db.own (clamp_limit q.limit) q.cursor)
      × (length page.products ≤ clamp_limit q.limit)
      × (1 ≤ clamp_limit q.limit)
      × (clamp_limit q.limit ≤ 200)
      × ((list_page id_before c q w s).1.db ≡ (resumed w s).db)
unfolding list_page list_products query
list_page_lem id_before c q w s {page} h =
    let it : page
        ≡ page_at id_before c q.filter (resumed w s).db.own (clamp_limit q.limit) q.cursor =
      ground arith in
    let (low, high) = clamp_limit-bounds q.limit in
    (it, rw it (page_of-length c (clamp_limit q.limit) _), low, high, ground arith)
