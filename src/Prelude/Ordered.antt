-- ===== src/Prelude/Ordered.antt =====
-- Lists in a strict order: what sorting, filtering and resuming after an entry make of them.
use mathlib.Core.Path.{◌≡◌, refl, ap}
use mathlib.Core.Logic.{inl, inr}
use mathlib.Core.Bool.{Bool, true, false, ◌&&◌}
use mathlib.Core.List.{List, [], ◌∷◌, ◌++◌}
use native.Mathlib.Omega.{arith}
use wakewake.Prelude.Tests.{if◌then◌else◌, Bool-cases}
use wakewake.Prelude.Lists.{filterb, All}
use wakewake.Prelude.Sorting.{insert_sorted, sort_rows}

module _ {A : Type 0} where
  pub All-filterb : (P : A → Type 0) (p : A → Bool) (xs : List A) → All P xs → All P (filterb p xs)
  All-filterb P p [] h = tt
  All-filterb P p (x ∷ xs) h = elim (Bool-cases (p x)) [
    | inl good ↦ rw good (h.0, All-filterb P p xs h.1)
    | inr bad ↦ rw bad (All-filterb P p xs h.1)
  ]

  pub All-impl : {P Q : A → Type 0} → ((x : A) → P x → Q x) → (xs : List A) → All P xs → All Q xs
  All-impl f [] h = tt
  All-impl f (x ∷ xs) h = (f x h.0, All-impl f xs h.1)

  pub filterb-all : (p : A → Bool) (xs : List A) → All (λ x. p x ≡ true) xs → filterb p xs ≡ xs
  filterb-all p [] h = refl
  filterb-all p (x ∷ xs) h = rw h.0 (ap (λ l. x ∷ l) (filterb-all p xs h.1))

  pub filterb-&& :
      (p q : A → Bool) (xs : List A) → filterb (λ x. p x && q x) xs ≡ filterb q (filterb p xs)
  filterb-&& p q [] = refl
  filterb-&& p q (x ∷ xs) = ground (arith, filterb-&& p q xs)

module _ {A : Type 0} where
  pub All-middle : (P : A → Type 0) (xs : List A) (c : A) (ys : List A) → All P (xs ++ c ∷ ys) → P c
  All-middle P [] c ys h = h.0
  All-middle P (x ∷ xs) c ys h = All-middle P xs c ys h.1

-- A strict order, by a test.
pub record Strict {A : Type 0} (newer : A → A → Bool) : Type 0 where
  pub irreflexive : (x : A) → newer x x ≡ false
  pub transitive : (x y z : A) → newer x y ≡ true → newer y z ≡ true → newer x z ≡ true

module _ {A : Type 0} (newer : A → A → Bool) where
  -- Each entry is before all that follow it.
  abbrev pub Ordered : List A → Type 0
  Ordered [] = Unit
  Ordered (x ∷ xs) = All (λ y. newer x y ≡ true) xs × Ordered xs

  -- Of two entries, one is before the other.
  abbrev pub Comparable : List A → Type 0
  Comparable [] = Unit
  Comparable (x ∷ xs) = All (λ y. newer x y ≡ false → newer y x ≡ true) xs × Comparable xs

module _ {A : Type 0} {newer : A → A → Bool} (order : Strict newer) where
  All-insert_sorted :
      (P : A → Type 0) (x : A) (ys : List A) → P x → All P ys → All P (insert_sorted newer x ys)
  unfolding insert_sorted
  All-insert_sorted P x [] p h = (p, tt)
  All-insert_sorted P x (y ∷ ys) p h = elim (Bool-cases (newer x y)) [
    | inl first ↦ rw first (p, h)
    | inr later ↦ rw later (h.0, All-insert_sorted P x ys p h.1)
  ]

  pub All-sort_rows : (P : A → Type 0) (xs : List A) → All P xs → All P (sort_rows newer xs)
  unfolding sort_rows
  All-sort_rows P [] h = tt
  All-sort_rows P (x ∷ xs) h =
      All-insert_sorted P x (sort_rows newer xs) h.0 (All-sort_rows P xs h.1)

  insert_sorted-Ordered :
      (x : A) (ys : List A)
      → All (λ y. newer x y ≡ false → newer y x ≡ true) ys
      → Ordered newer ys
      → Ordered newer (insert_sorted newer x ys)
  unfolding insert_sorted
  insert_sorted-Ordered x [] c o = (tt, tt)
  insert_sorted-Ordered x (y ∷ ys) c o = elim (Bool-cases (newer x y)) [
    | inl first ↦
        rw first (((first, All-impl (λ z later. order.transitive x y z first later) ys o.0), o))
    | inr later ↦ rw later (
        (
          All-insert_sorted (λ z. newer y z ≡ true) x ys (c.0 later) o.0,
          insert_sorted-Ordered x ys c.1 o.1,
        ))
  ]

  pub sort_rows-Ordered : (xs : List A) → Comparable newer xs → Ordered newer (sort_rows newer xs)
  unfolding sort_rows
  sort_rows-Ordered [] c = tt
  sort_rows-Ordered (x ∷ xs) c =
      insert_sorted-Ordered x (sort_rows newer xs)
        (All-sort_rows (λ y. newer x y ≡ false → newer y x ≡ true) xs c.0)
        (sort_rows-Ordered xs c.1)

  insert_sorted-first :
      (x : A) (ys : List A) → All (λ y. newer x y ≡ true) ys → insert_sorted newer x ys ≡ x ∷ ys
  unfolding insert_sorted
  insert_sorted-first x [] h = refl
  insert_sorted-first x (y ∷ ys) h = rw h.0 refl

  filterb-insert_sorted :
      (p : A → Bool) (x : A) (ys : List A)
      → Ordered newer ys
      → filterb p (insert_sorted newer x ys)
        ≡ (if p x then insert_sorted newer x (filterb p ys) else filterb p ys)
  unfolding insert_sorted
  filterb-insert_sorted p x [] o = refl
  filterb-insert_sorted p x (y ∷ ys) o = elim (Bool-cases (newer x y)) [
    | inl first ↦
        let rest : All (λ z. newer x z ≡ true) (filterb p ys) =
          All-filterb (λ z. newer x z ≡ true) p ys
            (All-impl (λ z later. order.transitive x y z first later) ys o.0) in
        ground (arith, first, insert_sorted-first x (filterb p ys) rest)
    | inr later ↦ ground (arith, later, filterb-insert_sorted p x ys o.1)
  ]

  -- Sorting and filtering commute.
  pub filterb-sort_rows :
      (p : A → Bool) (xs : List A)
      → Comparable newer xs
      → filterb p (sort_rows newer xs) ≡ sort_rows newer (filterb p xs)
  unfolding sort_rows
  filterb-sort_rows p [] c = refl
  filterb-sort_rows p (x ∷ xs) c = ground (
    arith,
    filterb-insert_sorted p x (sort_rows newer xs) (sort_rows-Ordered xs c.1),
    filterb-sort_rows p xs c.1,
  )

  asymmetric : (x y : A) → newer x y ≡ true → newer y x ≡ false
  asymmetric x y h = elim (Bool-cases (newer y x)) [
    | inl back ↦ absurd (ground (arith, order.transitive x y x h back, order.irreflexive x))
    | inr no_ ↦ no_
  ]

  -- What is after an entry of an ordered list is what follows it.
  pub filterb-after :
      (xs : List A) (c : A) (ys : List A)
      → Ordered newer (xs ++ c ∷ ys)
      → filterb (newer c) (xs ++ c ∷ ys) ≡ ys
  filterb-after [] c ys o = rw (order.irreflexive c) (filterb-all (newer c) ys o.0)
  filterb-after (x ∷ xs) c ys o =
      let before : newer x c ≡ true = All-middle (λ y. newer x y ≡ true) xs c ys o.0 in
      rw (asymmetric x c before) (filterb-after xs c ys o.1)
