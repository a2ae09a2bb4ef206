-- ===== src/Prelude/Lists.antt =====
-- Lists measured by native numbers, and the predicates and counts that the tables share.
use Prim.Native.Nat.{ℕ, zero, suc, ◌+◌}
use mathlib.Core.Path.{◌≡◌}
use mathlib.Core.Bool.{Bool, false, ◌||◌}
use mathlib.Core.List.{List, [], ◌∷◌, ◌++◌}
use native.Mathlib.Omega.{arith}
use wakewake.Prelude.Tests.{if◌then◌else◌}

module _ {ℓ} {A : Type ℓ} where
  abbrev pub length : List A → ℕ
  length [] = 0
  length (x ∷ xs) = suc (length xs)

  abbrev pub take : ℕ → List A → List A
  take zero xs = []
  take (suc n) [] = []
  take (suc n) (x ∷ xs) = x ∷ take n xs

  abbrev pub filterb : (A → Bool) → List A → List A
  filterb p [] = []
  filterb p (x ∷ xs) = if p x then x ∷ filterb p xs else filterb p xs

  abbrev pub anyb : (A → Bool) → List A → Bool
  anyb p [] = false
  anyb p (x ∷ xs) = p x || anyb p xs

  -- How many entries pass a test.
  abbrev pub countb : (A → Bool) → List A → ℕ
  countb p [] = 0
  countb p (x ∷ xs) = (if p x then 1 else 0) + countb p xs

  abbrev pub All {κ} : (A → Type κ) → List A → Type κ
  All P [] = Unit
  All P (x ∷ xs) = P x × All P xs

module _ {ℓ} {A : Type ℓ} where
  pub countb-append :
      (p : A → Bool) (xs ys : List A) → countb p (xs ++ ys) ≡ countb p xs + countb p ys
  countb-append p [] ys = omega arith
  countb-append p (x ∷ xs) ys = omega (arith, countb-append p xs ys)

  pub length-append : (xs ys : List A) → length (xs ++ ys) ≡ length xs + length ys
  length-append [] ys = omega arith
  length-append (x ∷ xs) ys = omega (arith, length-append xs ys)

-- Two lists of one length whose entries are related one by one.
abbrev pub Rows : {A : Type 0} → (A → A → Type 0) → List A → List A → Type 0
Rows R [] [] = Unit
Rows R [] (y ∷ ys) = ⊥
Rows R (x ∷ xs) [] = ⊥
Rows R (x ∷ xs) (y ∷ ys) = R x y × Rows R xs ys

module _ {A : Type 0} where
  pub Rows-refl : (R : A → A → Type 0) → ((x : A) → R x x) → (xs : List A) → Rows R xs xs
  Rows-refl R here [] = tt
  Rows-refl R here (x ∷ xs) = (here x, Rows-refl R here xs)

  pub Rows-compose :
      {R S T : A → A → Type 0}
      → ((x y z : A) → R x y → S y z → T x z)
      → (xs ys zs : List A) → Rows R xs ys
      → Rows S ys zs
      → Rows T xs zs
  Rows-compose step [] [] [] p q = tt
  Rows-compose step [] [] (z ∷ zs) p q = absurd q
  Rows-compose step [] (y ∷ ys) zs p q = absurd p
  Rows-compose step (x ∷ xs) [] zs p q = absurd p
  Rows-compose step (x ∷ xs) (y ∷ ys) [] p q = absurd q
  Rows-compose step (x ∷ xs) (y ∷ ys) (z ∷ zs) p q =
      (step x y z p.0 q.0, Rows-compose step xs ys zs p.1 q.1)

  pub Rows-map :
      {R S : A → A → Type 0}
      → ((x y : A) → R x y → S x y)
      → (xs ys : List A) → Rows R xs ys
      → Rows S xs ys
  Rows-map f [] [] h = tt
  Rows-map f [] (y ∷ ys) h = absurd h
  Rows-map f (x ∷ xs) [] h = absurd h
  Rows-map f (x ∷ xs) (y ∷ ys) h = (f x y h.0, Rows-map f xs ys h.1)
