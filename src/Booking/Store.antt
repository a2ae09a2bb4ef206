-- ===== src/Booking/Store.antt =====
-- services/booking/internal/infra/store.go: bookings, their keys and their events are written in one
-- transaction. `List` and its cursors are not modelled.
use wakewake.Prelude.{
  String, ◌==◌, Bool, true, false, not, ◌||◌, ◌&&◌, Option, none, some, List, [], if◌then◌else◌,
  eqb,
}
use wakewake.Contracts.Events.{Time, Emission, BookingStatus, held, confirmed, cancelled}
use wakewake.Platform.Session.{
  Error, domain, no_rows, key_reuse, KeyRow, ok, err, Action, pure, fail, lift, catch, kick, ◌>>=◌,
  ◌>>◌, sql, query,
}
use wakewake.Platform.Tx.{within_tx}
use wakewake.Platform.Keyed.{Engine}
use wakewake.Platform.Idempotency.{claim, find_key}
use wakewake.Platform.Outbox.{stage_as, stage_all}
use wakewake.Booking.Lifecycle.{
  BookingError, not_found, idempotency_key_reuse, Booking, Transition, held_emission,
}
use wakewake.Booking.Table.{insert_row, select_row, update_row}

abbrev pub StoreAction : Type 0 → Type 0
StoreAction A = Action BookingError (List Booking) A

-- `domain.Claim`
pub record Claim : Type 0 where
  pub key : String
  pub fingerprint : String

abbrev pub aggregate_type : String
aggregate_type = "booking"

abbrev pub translate_read : Error BookingError → Error BookingError
translate_read no_rows = domain not_found
translate_read e = e

abbrev pub translate_claim : Error BookingError → Error BookingError
translate_claim key_reuse = domain idempotency_key_reuse
translate_claim e = e

abbrev pub same_status : BookingStatus → BookingStatus → Bool
same_status held held = true
same_status confirmed confirmed = true
same_status cancelled cancelled = true
same_status _ _ = false

abbrev pub same_time : Option Time → Option Time → Bool
same_time none none = true
same_time none (some b) = false
same_time (some a) none = false
same_time (some a) (some b) = eqb a b

-- `sameStr`, and `sameReason`, which does the same.
abbrev pub same_str : Option String → Option String → Bool
same_str none none = true
same_str none (some b) = false
same_str (some a) none = false
same_str (some a) (some b) = a == b

unfoldable pub state_changed : Booking → Booking → Bool
state_changed current next =
    not (same_status current.status next.status)
    || not (same_time current.hold_expires_at next.hold_expires_at)
    || not (same_str current.reservation_id next.reservation_id)
    || not (same_str current.cancel_reason next.cancel_reason)
    || not (same_str current.cancellation_reason next.cancellation_reason)

abbrev pub is_empty : List Emission → Bool
is_empty [] = true
is_empty _ = false

-- The relay is woken unless this was a replay.
abbrev pub kick_unless : Booking × Bool → StoreAction Booking
kick_unless (stored, true) = pure stored
kick_unless (stored, false) = kick >> pure stored

abbrev pub kick_if_changed : Booking × Bool → StoreAction (Booking × Bool)
kick_if_changed (b, true) = kick >> pure (b, true)
kick_if_changed (b, false) = pure (b, false)

module _ (g : Engine) where
  -- The body of `Insert`'s transaction after the claim.
  unfoldable pub insert_claimed : Booking → String × Bool → StoreAction (Booking × Bool)
  insert_claimed b (existing_id, true) = do
    stored ← sql (select_row existing_id)
    pure (stored, true)
  insert_claimed b (existing_id, false) = do
    stored ← sql (insert_row g b)
    stage_as aggregate_type (held_emission b)
    pure (stored, false)

  unfoldable pub insert_tx : Claim → Booking → StoreAction (Booking × Bool)
  insert_tx c b = do
    claimed ← catch (claim c.key c.fingerprint b.id) (λ e. fail (translate_claim e))
    insert_claimed b claimed

  -- `Insert`
  unfoldable pub insert : Claim → Booking → StoreAction Booking
  insert c b = do stored ← within_tx (insert_tx c b); kick_unless stored

  -- What the transition decided is written, unless it changed nothing.
  unfoldable pub persist : Booking → Booking × List Emission → StoreAction (Booking × Bool)
  persist current (next, emissions) =
      if not (state_changed current next) && is_empty emissions then pure (current, false) else (do
        updated ← sql (update_row g next)
        stage_all aggregate_type emissions
        pure (updated, true))

  -- `ApplyTx`, inside a transaction that the caller owns.
  unfoldable pub apply_tx : String → Transition → StoreAction (Booking × Bool)
  apply_tx id fn = do
    current ← catch (sql (select_row id)) (λ e. fail (translate_read e))
    decided ← lift (fn current)
    persist current decided

  -- `Apply`
  unfoldable pub apply : String → Transition → StoreAction (Booking × Bool)
  apply id fn = do result ← within_tx (apply_tx id fn); kick_if_changed result

-- `ByID`
unfoldable pub by_id : String → StoreAction Booking
by_id id =
    catch (query (λ now db. elim (select_row id now db) [ ok (b, _) ↦ ok b | err e ↦ err e ]))
      (λ e. fail (translate_read e))

-- `FindIdempotent`
unfoldable pub find_idempotent : String → StoreAction (Option KeyRow)
find_idempotent key = query (λ now db. ok (find_key key db.keys))
