-- ===== src/Catalog/Walk.antt =====
-- services/catalog: a client that walks all pages of a listing.
use mathlib.Core.List.{append-nil, append_assoc}
use wakewake.Prelude.{
  ℕ, zero, suc, ◌≤◌, ◌<◌, ◌≡◌, refl, sym, ap, ◌∙◌, subst, inl, inr, arith, String, Bool, true,
  false, ◌&&◌, Option, none, some, List, [], ◌∷◌, ◌++◌, leb, leb→le, length, take, filterb, All,
  Bool-cases,
}
use wakewake.Prelude.Sorting.{sort_rows}
use wakewake.Prelude.Ordered.{
  All-filterb, All-middle, All-sort_rows, filterb-&&, filterb-after, filterb-sort_rows,
  sort_rows-Ordered,
}
use wakewake.Catalog.Product.{Product, Filter, Cursor, Page}
use wakewake.Catalog.Cursor.{
  TokenCodec, Documented, encode_cursor, decode_cursor, cursor_at, decode_cursor-encode_cursor,
}
use wakewake.Catalog.Store.{matches, is_after, newer, select_products}
use wakewake.Catalog.Service.{page_of}
use wakewake.Catalog.Paging.{
  UuidOrder, Distinct, newer-Strict, filterb-Comparable, Cut, cut, take-all, take-take,
  length-take-long,
}

filterb-true :
    (p : Product → Bool) (xs : List Product) → filterb (λ x. p x && true) xs ≡ filterb p xs
filterb-true p [] = refl
filterb-true p (x ∷ xs) = ground (arith, filterb-true p xs)

module _ (id_before : String → String → Bool) (c : TokenCodec) (f : Filter) (rows : List Product)
    (n : ℕ) where
  -- The page that the service makes of the table as it stands, for a limit of n.
  abbrev pub page_at : Option Cursor → Page
  page_at cursor = page_of c n (select_products id_before f cursor (suc n) rows)

  -- A client follows the cursors until there is none; it stops on a token that is refused.
  abbrev pub resume : (Cursor → List Product) → Option Cursor → List Product
  resume next none = []
  resume next (some cursor) = next cursor

  abbrev pub follow : (Cursor → List Product) → Page → List Product
  follow next page =
      page.products
      ++ elim page.next_cursor [ none ↦ [] | some token ↦ resume next (decode_cursor c token) ]

  unfoldable pub walk : ℕ → Option Cursor → List Product
  walk zero cursor = []
  walk (suc fuel) cursor = follow (λ next. walk fuel (some next)) (page_at cursor)

  -- The whole listing: the products that match, newest first.
  abbrev pub listing : List Product
  listing = sort_rows (newer id_before) (filterb (matches f) rows)

  -- What a cursor leaves of it.
  abbrev left_after : Option Cursor → List Product
  left_after cursor =
      sort_rows (newer id_before) (filterb (λ p. matches f p && is_after id_before cursor p) rows)

  page_at-last :
      (cursor : Option Cursor)
      → length (left_after cursor) ≤ n
      → page_at cursor ≡ record { products = left_after cursor; next_cursor = none }
  unfolding select_products page_of
  page_at-last cursor short =
      let few : leb (length (left_after cursor)) n ≡ true = ground arith in
      rw (take-all n (left_after cursor) short, few) refl

  page_at-more :
      (cursor : Option Cursor) (k : Cut n (left_after cursor))
      → n < length (left_after cursor)
      → page_at cursor ≡ record {
        products = take n (left_after cursor);
        next_cursor = some (encode_cursor c k.at);
      }
  unfolding select_products page_of
  page_at-more cursor k long =
      let many : leb (length (take (suc n) (left_after cursor))) n ≡ false =
        ground (arith, length-take-long n (left_after cursor) long) in
      rw (many, take-take n (left_after cursor), k.last) refl

  -- The last page.
  walk-last :
      (fuel : ℕ) (cursor : Option Cursor)
      → length (left_after cursor) ≤ n
      → walk (suc fuel) cursor ≡ left_after cursor
  unfolding walk
  walk-last fuel cursor short = rw (page_at-last cursor short) (append-nil (left_after cursor))

  -- A page with more to come.
  walk-more :
      (fuel : ℕ) (cursor : Option Cursor) (docs : Documented c) (k : Cut n (left_after cursor))
      → c.is_uuid k.at.id ≡ true
      → n < length (left_after cursor)
      → walk (suc fuel) cursor ≡ take n (left_after cursor) ++ walk fuel (some (cursor_at k.at))
  unfolding walk
  walk-more fuel cursor docs k valid long =
      rw (page_at-more cursor k long, decode_cursor-encode_cursor c docs k.at valid) refl

  module _ (uuids : UuidOrder id_before) (docs : Documented c) (distinct : Distinct rows)
      (valid : All (λ (p : Product). c.is_uuid p.id ≡ true) rows) (pos : 0 < n) where
    -- The cursor of a listed product leaves what follows it.
    left_after-cut :
        (done : List Product) (p : Product) (rest : List Product)
        → listing ≡ done ++ p ∷ rest
        → left_after (some (cursor_at p)) ≡ rest
    left_after-cut done p rest e =
        ap (sort_rows (newer id_before)) (filterb-&& (matches f) (newer id_before p) rows)
        ∙ sym (
            filterb-sort_rows (newer-Strict uuids) (newer id_before p) (filterb (matches f) rows)
              (filterb-Comparable uuids (matches f) rows distinct))
        ∙ ap (filterb (newer id_before p)) e
        ∙ filterb-after (newer-Strict uuids) done p rest (
            rw (← e) (
              sort_rows-Ordered (newer-Strict uuids) (filterb (matches f) rows)
                (filterb-Comparable uuids (matches f) rows distinct)))

    listing-valid : All (λ (p : Product). c.is_uuid p.id ≡ true) listing
    listing-valid =
        All-sort_rows (newer-Strict uuids) (λ (p : Product). c.is_uuid p.id ≡ true)
          (filterb (matches f) rows)
          (All-filterb (λ (p : Product). c.is_uuid p.id ≡ true) (matches f) rows valid)

    -- One more page, where the walk after it is known.
    walk_on :
        (fuel : ℕ) (cursor : Option Cursor) (done : List Product) (k : Cut n (left_after cursor))
        → n < length (left_after cursor)
        → listing ≡ done ++ left_after cursor
        → ((next : Cursor) (done' : List Product)
            → listing ≡ done' ++ left_after (some next)
            → length (left_after (some next)) < length (left_after cursor)
            → walk fuel (some next) ≡ left_after (some next))
        → walk (suc fuel) cursor ≡ left_after cursor
    walk_on fuel cursor done k long e rest_of =
        let head : List Product = k.front ++ k.at ∷ [] in
        let joined : head ++ k.rest ≡ left_after cursor =
          append_assoc k.front (k.at ∷ []) k.rest ∙ sym k.all in
        let split : listing ≡ (done ++ k.front) ++ k.at ∷ k.rest =
          e ∙ ap (λ l. done ++ l) k.all ∙ sym (append_assoc done k.front (k.at ∷ k.rest)) in
        let next : left_after (some (cursor_at k.at)) ≡ k.rest =
          left_after-cut (done ++ k.front) k.at k.rest split in
        let good : c.is_uuid k.at.id ≡ true =
          All-middle (λ (p : Product). c.is_uuid p.id ≡ true) (done ++ k.front) k.at k.rest
            (subst (All (λ (p : Product). c.is_uuid p.id ≡ true)) split listing-valid) in
        let place : listing ≡ (done ++ head) ++ left_after (some (cursor_at k.at)) =
          e
          ∙ ap (λ l. done ++ l) (sym joined)
          ∙ sym (append_assoc done head k.rest)
          ∙ ap (λ l. (done ++ head) ++ l) (sym next) in
        let less : length (left_after (some (cursor_at k.at))) < length (left_after cursor) =
          omega (arith, k.shorter, ap (λ (l : List Product). length l) next) in
        walk-more fuel cursor docs k good long
        ∙ ap (λ l. take n (left_after cursor) ++ l)
            (rest_of (cursor_at k.at) (done ++ head) place less ∙ next)
        ∙ ap (λ l. l ++ k.rest) k.taken
        ∙ joined

    walk_from :
        (fuel : ℕ) (cursor : Option Cursor) (done : List Product)
        → listing ≡ done ++ left_after cursor
        → length (left_after cursor) < fuel
        → walk fuel cursor ≡ left_after cursor
    walk_from zero cursor done e lt = absurd (omega arith)
    walk_from (suc fuel) cursor done e lt = elim (Bool-cases (leb (length (left_after cursor)) n)) [
      | inl short ↦ walk-last fuel cursor (leb→le _ _ short)
      | inr more ↦
          let long : n < length (left_after cursor) = ground (arith, more) in
          walk_on fuel cursor done (cut n (left_after cursor) pos long) long e
            (λ next done' e' less. walk_from fuel (some next) done' e' (omega (arith, lt, less)))
    ]

    -- A client that walks all pages from the first gets the whole listing, each product once and
    -- newest first, and then stops, whatever the size of the pages: with fuel for each product.
    pub walk-listing : (fuel : ℕ) → length listing < fuel → walk fuel none ≡ listing
    walk-listing fuel lt =
        let all : left_after none ≡ listing =
          ap (sort_rows (newer id_before)) (filterb-true (matches f) rows) in
        walk_from fuel none [] (sym all) (rw all lt) ∙ all
