-- ===== src/Catalog/Paging.antt =====
-- services/catalog: the pages that a client walks, one by the cursor of the other, against the list.
use wakewake.Prelude.{
  ℕ, zero, suc, ◌≤◌, ◌<◌, ◌≡◌, refl, ap, inl, inr, arith, String, ◌==◌, Bool, true, false, some,
  List, [], ◌∷◌, ◌++◌, length, take, filterb, All, Bool-cases, eq_iff,
}
use wakewake.Prelude.Ordered.{Strict, Comparable, All-filterb, All-impl}
use wakewake.Catalog.Product.{Product}
use wakewake.Catalog.Store.{newer}
use wakewake.Catalog.Service.{last_of}

-- What Postgres documents of the order of uuids.
pub record UuidOrder (id_before : String → String → Bool) : Type 0 where
  pub irreflexive : (a : String) → id_before a a ≡ false
  pub transitive :
      (a b c : String) → id_before a b ≡ true → id_before b c ≡ true → id_before a c ≡ true
  pub total : (a b : String) → a == b ≡ false → id_before a b ≡ false → id_before b a ≡ true

-- The primary key: no two products have the same id.
abbrev pub Distinct : List Product → Type 0
Distinct [] = Unit
Distinct (x ∷ xs) = All (λ (y : Product). x.id == y.id ≡ false) xs × Distinct xs

module _ {id_before : String → String → Bool} (uuids : UuidOrder id_before) where
  pub newer-Strict : Strict (newer id_before)
  newer-Strict = record {
    irreflexive = λ x. ground (arith, uuids.irreflexive x.id);
    transitive = λ x y z a b. ground (arith, a, b, uuids.transitive z.id y.id x.id);
  }

  pub filterb-Comparable :
      (p : Product → Bool) (xs : List Product)
      → Distinct xs
      → Comparable (newer id_before) (filterb p xs)
  filterb-Comparable p [] d = tt
  filterb-Comparable p (x ∷ xs) d = elim (Bool-cases (p x)) [
    | inl good ↦ rw good (
        (
          All-filterb (λ y. newer id_before x y ≡ false → newer id_before y x ≡ true) p xs
              (All-impl
                (λ y other not_after. ground (
                  arith,
                  other,
                  not_after,
                  uuids.total y.id x.id,
                  eq_iff x.id y.id,
                  eq_iff y.id x.id,
                ))
                xs d.0),
          filterb-Comparable p xs d.1,
        ))
    | inr bad ↦ rw bad (filterb-Comparable p xs d.1)
  ]

-- A list cut after its n-th entry, which it has, and more.
pub record Cut (n : ℕ) (zs : List Product) : Type 0 where
  pub front : List Product
  pub at : Product
  pub rest : List Product
  pub all : zs ≡ front ++ at ∷ rest
  pub taken : take n zs ≡ front ++ at ∷ []
  pub last : last_of (take n zs) ≡ some at
  pub shorter : length rest < length zs

pub cut : (n : ℕ) (zs : List Product) → 0 < n → n < length zs → Cut n zs
cut zero zs pos lt = absurd (omega arith)
cut (suc n) [] pos lt = absurd (omega arith)
cut (suc zero) (x ∷ zs) pos lt = record {
  front = [];
  at = x;
  rest = zs;
  all = refl;
  taken = refl;
  last = refl;
  shorter = omega arith;
}
cut (suc (suc n)) (x ∷ []) pos lt = absurd (omega arith)
cut (suc (suc n)) (x ∷ y ∷ zs) pos lt =
    let c : Cut (suc n) (y ∷ zs) = cut (suc n) (y ∷ zs) (omega arith) (omega arith) in
    record {
      front = x ∷ c.front;
      at = c.at;
      rest = c.rest;
      all = ap (λ l. x ∷ l) c.all;
      taken = ap (λ l. x ∷ l) c.taken;
      last = c.last;
      shorter = omega (arith, c.shorter);
    }

pub take-all : (n : ℕ) (zs : List Product) → length zs ≤ n → take (suc n) zs ≡ zs
take-all n [] h = refl
take-all zero (x ∷ zs) h = absurd (omega arith)
take-all (suc n) (x ∷ zs) h = ap (λ l. x ∷ l) (take-all n zs (omega arith))

pub take-take : (n : ℕ) (zs : List Product) → take n (take (suc n) zs) ≡ take n zs
take-take zero zs = refl
take-take (suc n) [] = refl
take-take (suc n) (x ∷ zs) = ap (λ l. x ∷ l) (take-take n zs)

pub length-take-long : (n : ℕ) (zs : List Product) → n < length zs → n < length (take (suc n) zs)
length-take-long n [] h = absurd (omega arith)
length-take-long zero (x ∷ zs) h = omega arith
length-take-long (suc n) (x ∷ zs) h = omega (arith, length-take-long n zs (omega arith))
