-- ===== src/Examples/Tokens.antt =====
-- Tokens and ids that keep what the Go library and Postgres document of theirs.
use Prim.Native.Nat.{Ordering, compare as compare_ℕ}
use Prim.Native.Char.{Char, code}
use Prim.Native.String.{[], ◌∷◌, ◌++◌}
use Prim.Native.String.append
use Prim.Native.String.compare
use text.Mathlib.Text.{is_eq}
use text.Mathlib.TextEquality.{codes_equal}
use wakewake.Prelude.{
  ℕ, zero, suc, String, eqb, ltb, Option, none, some, ◌≡◌, refl, ◌∙◌, subst, inl, inr, arith,
  if◌then◌else◌, Bool, true, false, ◌||◌, ◌&&◌, Bool-cases, ap, ◌==◌, eq_refl,
}
use wakewake.Catalog.Cursor.{TokenCodec, Documented}
use wakewake.Catalog.Paging.{UuidOrder}

-- An instant as so many ticks.
abbrev ticks : ℕ → String
ticks zero = []
ticks (suc n) = "+" ∷ ticks n

abbrev count_ticks : String → ℕ
count_ticks [] = 0
count_ticks (c ∷ s) = suc (count_ticks s)

count_ticks-ticks : (n : ℕ) → count_ticks (ticks n) ≡ n
count_ticks-ticks zero = refl
count_ticks-ticks (suc n) = ap suc (count_ticks-ticks n)

abbrev put_first : Char → Option (String × String) → Option (String × String)
put_first c none = none
put_first c (some (a, b)) = some (c ∷ a, b)

abbrev split_at_bar : String → Option (String × String)
split_at_bar [] = none
split_at_bar (c ∷ s) = if eqb (code c) 124 then some ([], s) else put_first c (split_at_bar s)

bar-append : (b : String) → "|" ++ b ≡ "|" ∷ b
bar-append b = append.cons "|" [] b ∙ ap (λ s. "|" ∷ s) (append.nil b)

split_at_bar-ticks : (n : ℕ) (b : String) → split_at_bar (ticks n ++ ("|" ++ b)) ≡ some (ticks n, b)
split_at_bar-ticks zero b = ap split_at_bar (append.nil ("|" ++ b) ∙ bar-append b)
split_at_bar-ticks (suc n) b =
    ap split_at_bar (append.cons "+" (ticks n) ("|" ++ b))
    ∙ ap (put_first "+") (split_at_bar-ticks n b)

abbrev pub quoted : TokenCodec
quoted = record {
  encode = λ t. "=" ∷ t;
  decode = λ t. elim t [ [] ↦ none | c ∷ s ↦ some s ];
  format = ticks;
  parse = λ t. some (count_ticks t);
  split = split_at_bar;
  is_uuid = λ id. true;
}

pub quoted-Documented : Documented quoted
quoted-Documented = record {
  decode-encode = λ t. refl;
  encode-ne_empty = λ a b. ap is_eq (compare.cons-nil "=" (a ++ ("|" ++ b)));
  parse-format = λ t. ap some (count_ticks-ticks t);
  split-format = split_at_bar-ticks;
}

-- Texts in the order of their characters, as the order of ids.
abbrev pub before : String → String → Bool
before [] [] = false
before [] (d ∷ t) = true
before (c ∷ s) [] = false
before (c ∷ s) (d ∷ t) = ltb (code c) (code d) || (eqb (code c) (code d) && before s t)

before_irreflexive : (a : String) → before a a ≡ false
before_irreflexive [] = refl
before_irreflexive (c ∷ s) = ground (arith, before_irreflexive s)

before_transitive : (a b c : String) → before a b ≡ true → before b c ≡ true → before a c ≡ true
before_transitive [] [] c h k = absurd (ground (arith, h))
before_transitive [] (d ∷ t) [] h k = absurd (ground (arith, k))
before_transitive [] (d ∷ t) (e ∷ u) h k = refl
before_transitive (c ∷ s) [] u h k = absurd (ground (arith, h))
before_transitive (c ∷ s) (d ∷ t) [] h k = absurd (ground (arith, k))
before_transitive (c ∷ s) (d ∷ t) (e ∷ u) h k = ground (arith, h, k, before_transitive s t u)

before_antisymmetric : (a b : String) → before a b ≡ false → before b a ≡ false → a ≡ b
before_antisymmetric [] [] h k = refl
before_antisymmetric [] (d ∷ t) h k = absurd (ground (arith, h))
before_antisymmetric (c ∷ s) [] h k = absurd (ground (arith, k))
before_antisymmetric (c ∷ s) (d ∷ t) h k =
    let same : compare_ℕ (code c) (code d) ≡ Ordering.eq = ground (arith, h, k) in
    let rest : s ≡ t =
      before_antisymmetric s t (ground (arith, h, same)) (ground (arith, k, same)) in
    ap (λ (x : Char). x ∷ s) (codes_equal c d same) ∙ ap (λ (x : String). d ∷ x) rest

pub before-UuidOrder : UuidOrder before
before-UuidOrder = record {
  irreflexive = before_irreflexive;
  transitive = before_transitive;
  total = λ a b differ_ not_before. elim (Bool-cases (before b a)) [
    | inl yes_ ↦ yes_
    | inr no_ ↦
        let it : a ≡ b = before_antisymmetric a b not_before no_ in
        absurd (ground (arith, differ_, subst (λ (x : String). (a == x) ≡ true) it (eq_refl a)))
  ];
}
