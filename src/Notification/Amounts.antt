-- ===== src/Notification/Amounts.antt =====
-- services/notification, `FormatMinor`: what the digits stand for.
use Prim.Native.Nat.{◌/◌, ◌%◌}
use wakewake.Prelude.{
  true, ℕ, suc, ◌+◌, ◌*◌, ◌<◌, ◌≡◌, ◌≢◌, ◌↔◌, refl, ap, inl, inr, arith, String, false, eqb,
  Bool-cases,
}
use wakewake.Prelude.Int.{ℤ, pos, negsuc, pos_part, neg_part}
use wakewake.Notification.Message.{max_int64, format_minor}

-- Every amount but the least int64 is printed as it is: a sign exactly where it is negative, then
-- its size in the major unit and two digits of the minor one, neither negative, and its currency.
pub format_minor_lem :
    (minor : ℤ) (currency : String)
    → minor ≢ negsuc max_int64
    → (major frac : ℕ) × ((format_minor minor currency).major ≡ pos major)
      × ((format_minor minor currency).frac ≡ pos frac)
      × (frac < 100)
      × (100 * major + frac ≡ pos_part minor + neg_part minor)
      × (((format_minor minor currency).has_sign ≡ true) ↔ (0 < neg_part minor))
      × ((format_minor minor currency).currency ≡ currency)
unfolding format_minor
format_minor_lem (pos n) currency h = (
  n / 100,
  n % 100,
  refl,
  refl,
  omega arith,
  omega arith,
  (λ h. ground arith, λ h. ground arith),
  refl,
)
format_minor_lem (negsuc n) currency h =
    let usual : eqb n max_int64 ≡ false = elim (Bool-cases (eqb n max_int64)) [
      | inl least ↦ absurd (h (ap negsuc (ground (arith, least))))
      | inr other ↦ other
    ] in
    (
      suc n / 100,
      suc n % 100,
      rw usual refl,
      rw usual refl,
      omega arith,
      omega arith,
      (λ h. ground arith, λ h. refl),
      refl,
    )
