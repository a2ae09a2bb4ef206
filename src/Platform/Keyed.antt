-- ===== src/Platform/Keyed.antt =====
-- A table whose rows have a text key: SELECT, UPDATE and the CHECKs by the engine, shared by the
-- services' stores.
use wakewake.Prelude.{
  ℕ, ◌+◌, ◌≤◌, ◌≡◌, refl, ◌≢◌, inl, inr, arith, String, ◌==◌, Bool, Option, none, some, List, [],
  ◌∷◌, if◌then◌else◌, countb, All, eq_iff, eq_refl, Bool-cases,
}
use wakewake.Platform.Session.{pg, Result, err}

-- What the CHECKs of the migrations ask of the engine: the match with '^[A-Z]{3}$', and the length of
-- a text in characters.
pub record Engine : Type 0 where
  pub is_currency : String → Bool
  pub char_length : String → ℕ

-- A statement that a constraint refuses.
abbrev pub refuse : {D A : Type 0} → String → String → Result D A
refuse code constraint = err (pg (record { code = code; constraint = constraint }))

module _ {A : Type 0} (key : A → String) where
  unfoldable pub find_by : String → List A → Option A
  find_by k [] = none
  find_by k (r ∷ rs) = if key r == k then some r else find_by k rs

  unfoldable pub replace_by : A → List A → List A
  replace_by row [] = []
  replace_by row (r ∷ rs) = if key r == key row then row ∷ rs else r ∷ replace_by row rs

module _ {A : Type 0} (key : A → String) where
  pub find_by-key : (k : String) (rs : List A) {r : A} → find_by key k rs ≡ some r → key r ≡ k
  unfolding find_by
  find_by-key k [] e = absurd (ground arith)
  find_by-key k (x ∷ rs) {r} e = ground (arith, eq_iff (key x) k, find_by-key k rs {r = r})

  pub find_by-All :
      (P : A → Type 0) (k : String) (rs : List A) {r : A}
      → All P rs
      → find_by key k rs ≡ some r
      → P r
  unfolding find_by
  find_by-All P k [] h e = absurd (ground arith)
  find_by-All P k (x ∷ rs) {r} h e = elim (Bool-cases (key x == k)) [
    | inl same ↦ let it : x ≡ r = ground arith in rw (← it) h.0
    | inr differ ↦ find_by-All P k rs h.1 (ground arith)
  ]

  pub All-replace_by :
      (P : A → Type 0) (row : A) (rs : List A) → All P rs → P row → All P (replace_by key row rs)
  unfolding replace_by
  All-replace_by P row [] h p = tt
  All-replace_by P row (x ∷ rs) h p = elim (Bool-cases (key x == key row)) [
    | inl same ↦ rw same (p, h.1)
    | inr differ ↦ rw differ (h.0, All-replace_by P row rs h.1 p)
  ]

  -- A count after a row has taken another's place.
  pub countb-replace_by :
      (p : A → Bool) (row : A) (rs : List A) {old : A}
      → find_by key (key row) rs ≡ some old
      → countb p (replace_by key row rs) + (if p old then 1 else 0)
        ≡ countb p rs + (if p row then 1 else 0)
  unfolding find_by replace_by
  countb-replace_by p row [] e = absurd (ground arith)
  countb-replace_by p row (x ∷ rs) {old} e = elim (Bool-cases (key x == key row)) [
    | inl same ↦ let it : x ≡ old = ground arith in rw (same, ← it) (omega arith)
    | inr differ ↦
        let later : find_by key (key row) rs ≡ some old = ground arith in
        rw differ (omega (arith, countb-replace_by p row rs later))
  ]

  -- A key that no row has counts nothing.
  pub countb-none :
      (k : String) (rs : List A) → find_by key k rs ≡ none → countb (λ r. key r == k) rs ≡ 0
  unfolding find_by
  countb-none k [] e = refl
  countb-none k (x ∷ rs) e = ground (arith, countb-none k rs)

  -- A key that some row has is still found after a write.
  pub find_by-replace_by-ne_none :
      (k : String) (row : A) (rs : List A)
      → find_by key k rs ≢ none
      → find_by key k (replace_by key row rs) ≢ none
  unfolding find_by replace_by
  find_by-replace_by-ne_none k row [] h = h
  find_by-replace_by-ne_none k row (x ∷ rs) h = ground (
    arith,
    eq_iff (key x) k,
    eq_iff (key row) k,
    eq_iff (key x) (key row),
    find_by-replace_by-ne_none k row rs,
  )

module _ {A : Type 0} (key key' : A → String) where
  counted :
      (k : String) (rs : List A) {r : A}
      → find_by key' k rs ≡ some r
      → 1 ≤ countb (λ x. key x == key r) rs
  unfolding find_by
  counted k [] e = absurd (ground arith)
  counted k (x ∷ rs) {r} e = elim (Bool-cases (key' x == k)) [
    | inl same ↦ let it : x ≡ r = ground arith in ground (arith, it, eq_refl (key r))
    | inr differ ↦ ground (arith, counted k rs {r = r} (ground arith))
  ]

  -- A row that is found by another column is the one of its key, if no other row has the key.
  pub find_by_unique :
      (k : String) (rs : List A) {r : A}
      → find_by key' k rs ≡ some r
      → countb (λ x. key x == key r) rs ≤ 1
      → find_by key (key r) rs ≡ some r
  unfolding find_by
  find_by_unique k [] e u = absurd (ground arith)
  find_by_unique k (x ∷ rs) {r} e u = elim (Bool-cases (key' x == k)) [
    | inl same ↦ let it : x ≡ r = ground arith in ground (arith, it, eq_refl (key r))
    | inr differ ↦
        let later : find_by key' k rs ≡ some r = ground arith in
        let rest : countb (λ y. key y == key r) rs ≤ 1 = ground (arith, u) in
        ground (arith, u, counted k rs {r = r} later, find_by_unique k rs {r = r} later rest)
  ]
