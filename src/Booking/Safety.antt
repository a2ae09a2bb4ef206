-- ===== src/Booking/Safety.antt =====
-- The operations of the booking service (internal/domain/service.go, internal/infra/store.go and
-- internal/events) and the invariant of its database.
use wakewake.Prelude.{◌≡◌, sym, inl, inr, arith, String, Option, none, some, List, subst}
use wakewake.Contracts.Events.{Time}
use wakewake.Platform.Session.{
  KeyRow, Error, domain, Result, ok, err, World, Session, resumed, query,
}
use wakewake.Platform.Atomicity.{Calm, within_tx_keeps}
use wakewake.Platform.Rules.{Result-cases}
use wakewake.Platform.Tx.{within_tx}
use wakewake.Platform.Keyed.{Engine}
use wakewake.Booking.Lifecycle.{
  BookingError, not_found, Booking, Transition, confirm, cancel, reason_customer_cancelled,
  new_booking, Product, Reservation,
}
use wakewake.Booking.Store.{Claim, insert_tx, insert, by_id, apply_tx, apply, find_idempotent}
use wakewake.Booking.Effects.{insert_tx-ok}
use wakewake.Booking.Applied.{apply_tx-ok, apply_tx-domain}
use wakewake.Booking.Service.{
  Remotes, HoldRequest, CreateCommand, generated, create_new, create_or_replay, create_booking,
  confirm_on_payment, compensate_on_payment_failure, expire_hold, get, cancel_booking,
}
use wakewake.Booking.Consumers.{settle, move}
use wakewake.Booking.Invariant.{
  IsConsistent, IsLawful, cancel-IsLawful, InsertEffect-IsConsistent, ApplyEffect-IsConsistent,
}

abbrev hold_request : CreateCommand → Product → String → HoldRequest
hold_request cmd product id = record {
  resource_id = product.resource_id;
  booking_id = id;
  starts_at = cmd.starts_at;
  ends_at = cmd.ends_at;
  idempotency_key = cmd.idempotency.key;
}

abbrev new_booking_for : CreateCommand → Product → Time → Reservation → Result BookingError Booking
new_booking_for cmd product now r =
    new_booking r.booking_id cmd.customer_id cmd.product_id product cmd.starts_at cmd.ends_at
      cmd.party_size r now

pub confirm_on_payment-IsLawful :
    (remotes : Remotes) (payment_id : String) (now : Time)
    → IsLawful (confirm_on_payment remotes payment_id now)
unfolding confirm_on_payment confirm cancel
confirm_on_payment-IsLawful remotes payment_id now = record {
  id = λ b next es e. ground arith;
  held = λ b next es id e. ground arith;
  cancelled = λ b next es id e. ground arith;
  confirmed = λ b next es id e. ground arith;
  once = λ b next es id e. ground arith;
}

pub compensate_on_payment_failure-IsLawful :
    (now : Time) → IsLawful (compensate_on_payment_failure now)
unfolding compensate_on_payment_failure cancel
compensate_on_payment_failure-IsLawful now = record {
  id = λ b next es e. ground arith;
  held = λ b next es id e. ground arith;
  cancelled = λ b next es id e. ground arith;
  confirmed = λ b next es id e. ground arith;
  once = λ b next es id e. ground arith;
}

pub expire_hold-IsLawful : (now : Time) → IsLawful (expire_hold now)
unfolding expire_hold cancel
expire_hold-IsLawful now = record {
  id = λ b next es e. ground arith;
  held = λ b next es id e. ground arith;
  cancelled = λ b next es id e. ground arith;
  confirmed = λ b next es id e. ground arith;
  once = λ b next es id e. ground arith;
}

settle_not_found :
    (x : Error BookingError) (w : World (List Booking)) (s : Session (List Booking))
    → (settle (err x) w s).0 ≡ ok tt
    → x ≡ domain not_found
settle_not_found x w s h = ground arith

module _ (g : Engine) (w : World (List Booking)) (s : Session (List Booking))
    (h : IsConsistent g s.db) where
  -- Inside a transaction, a consumer's move keeps the database consistent when it succeeds.
  pub move_keeps :
      (id : String) (fn : Transition)
      → IsLawful fn
      → (move g id fn w s).0 ≡ ok tt
      → IsConsistent g (move g id fn w s).1.db
  unfolding move
  move_keeps id fn law r = elim (Result-cases (apply_tx g id fn w s).0) [
    | inl (out, e) ↦
        let kept = ApplyEffect-IsConsistent g s _ id fn out law (apply_tx-ok g w s id fn out e) h in
        ground (arith, kept)
    | inr (x, e) ↦
        let it = settle_not_found x w (apply_tx g id fn w s).1 (ground (arith, r, e)) in
        let same = apply_tx-domain g w s id fn not_found (ground (arith, e, it)) in
        ground (arith, e, it, same, h)
  ]

module _ (g : Engine) (w : World (List Booking)) (calm : Calm (IsConsistent g) w)
    (s : Session (List Booking)) (h : IsConsistent g s.db) where
  insert-db :
      (c : Claim) (b : Booking) → (insert g c b w s).1.db ≡ (within_tx (insert_tx g c b) w s).1.db
  unfolding insert
  insert-db c b = ground arith

  insert_keeps : (c : Claim) (b : Booking) → IsConsistent g (insert g c b w s).1.db
  insert_keeps c b = subst (IsConsistent g) (sym (insert-db c b)) (
      within_tx_keeps (insert_tx g c b) w s (IsConsistent g) calm
        (λ out p e.
          InsertEffect-IsConsistent g _ _ c b out (insert_tx-ok w (resumed w s) g c b out e) p)
        h)

  apply-db :
      (id : String) (fn : Transition)
      → (apply g id fn w s).1.db ≡ (within_tx (apply_tx g id fn) w s).1.db
  unfolding apply
  apply-db id fn = ground arith

  apply_keeps :
      (id : String) (fn : Transition) → IsLawful fn → IsConsistent g (apply g id fn w s).1.db
  apply_keeps id fn law = subst (IsConsistent g) (sym (apply-db id fn)) (
      within_tx_keeps (apply_tx g id fn) w s (IsConsistent g) calm
        (λ out p e.
          ApplyEffect-IsConsistent g _ _ id fn out law (apply_tx-ok g w (resumed w s) id fn out e)
            p)
        h)

  resumed_keeps : IsConsistent g (resumed w s).db
  resumed_keeps = calm s.step s.db h

  by_id-run : (id : String) → (by_id id w s).1 ≡ resumed w s
  unfolding by_id query
  by_id-run id = ground arith

  find_idempotent-run : (key : String) → (find_idempotent key w s).1 ≡ resumed w s
  unfolding find_idempotent query
  find_idempotent-run key = ground arith

  create_new_keeps :
      (remotes : Remotes) (now : Time) (new_id : Option String) (cmd : CreateCommand)
      (product : Product)
      → IsConsistent g (create_new g remotes now new_id cmd product w s).1.db
  unfolding create_new
  create_new_keeps remotes now new_id cmd product = elim (Result-cases (generated new_id)) [
    | inr (x, e) ↦ ground (arith, h)
    | inl (id, e) ↦ elim (Result-cases (remotes.hold (hold_request cmd product id))) [
      | inr (x, e') ↦ ground (arith, h)
      | inl (r, e') ↦ elim (Result-cases (new_booking_for cmd product now r)) [
        | inr (x, e'') ↦ ground (arith, h)
        | inl (b, e'') ↦ ground (arith, insert_keeps cmd.idempotency b)
      ]
    ]
  ]

  pub get_keeps : (id customer_id : String) → IsConsistent g (get id customer_id w s).1.db
  unfolding get
  get_keeps id customer_id = ground (arith, by_id-run id, resumed_keeps)

module _ (g : Engine) (w : World (List Booking)) (calm : Calm (IsConsistent g) w)
    (s : Session (List Booking)) (h : IsConsistent g s.db) where
  create_or_replay_keeps :
      (remotes : Remotes) (now : Time) (new_id : Option String) (cmd : CreateCommand)
      (product : Product) (found : Option KeyRow)
      → IsConsistent g (create_or_replay g remotes now new_id cmd product found w s).1.db
  create_or_replay_keeps remotes now new_id cmd product none =
      create_new_keeps g w calm s h remotes now new_id cmd product
  create_or_replay_keeps remotes now new_id cmd product (some k) =
      ground (arith, h, by_id-run g w calm s h k.resource_id, resumed_keeps g w calm s h)

module _ (g : Engine) (w : World (List Booking)) (calm : Calm (IsConsistent g) w)
    (s : Session (List Booking)) (h : IsConsistent g s.db) where
  pub create_keeps :
      (remotes : Remotes) (now now' : Time) (new_id : Option String) (cmd : CreateCommand)
      → IsConsistent g (create_booking g remotes now now' new_id cmd w s).1.db
  unfolding create_booking
  create_keeps remotes now now' new_id cmd =
      let key = cmd.idempotency.key in
      let s1 = (find_idempotent key w s).1 in
      let h1 : IsConsistent g s1.db =
        rw (find_idempotent-run g w calm s h key) (resumed_keeps g w calm s h) in
      elim (Result-cases (remotes.product cmd.product_id)) [
        | inr (x, e) ↦ ground (arith, h)
        | inl (p, e) ↦ elim (Result-cases (find_idempotent key w s).0) [
          | inr (x, e') ↦ ground (arith, h, h1)
          | inl (found, e') ↦
              ground
                (arith, h, create_or_replay_keeps g w calm s1 h1 remotes now' new_id cmd p found)
        ]
      ]

  pub cancel_keeps :
      (now : Time) (id customer_id : String) (remark : Option String)
      → IsConsistent g (cancel_booking g now id customer_id remark w s).1.db
  unfolding cancel_booking
  cancel_keeps now id customer_id remark =
      let s1 = (by_id id w s).1 in
      let h1 : IsConsistent g s1.db = rw (by_id-run g w calm s h id) (resumed_keeps g w calm s h) in
      let fn = cancel reason_customer_cancelled remark now in
      let done =
        apply_keeps g w calm s1 h1 id fn (cancel-IsLawful reason_customer_cancelled remark now) in
      ground (arith, h1, done)
