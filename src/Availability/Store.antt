-- ===== src/Availability/Store.antt =====
-- services/availability/internal/infra/store.go: reservations, their keys and their events are
-- written in one transaction.
use wakewake.Prelude.{
  ℕ, String, ◌==◌, Bool, true, false, not, ◌||◌, ◌&&◌, Option, none, some, List, [], if◌then◌else◌,
  eqb,
}
use wakewake.Contracts.Events.{Time, Emission}
use wakewake.Platform.Session.{
  Error, domain, no_rows, key_reuse, ok, err, Action, pure, fail, lift, catch, kick, ◌>>=◌, ◌>>◌,
  sql, query,
}
use wakewake.Platform.Tx.{is, constraint_name, exclusion_violation, check_violation, within_tx}
use wakewake.Platform.Idempotency.{claim}
use wakewake.Platform.Outbox.{stage_as, stage_all}
use wakewake.Availability.Reservation.{
  DomainError, slot_unavailable, invalid_time_window, not_found, idempotency_key_reuse, Status,
  held, confirmed, released, Window, Reservation, Transition, created_emission,
}
use wakewake.Availability.Table.{insert_row, select_row, update_row, select_busy, select_expired}

abbrev pub StoreAction : Type 0 → Type 0
StoreAction A = Action DomainError (List Reservation) A

-- `domain.Claim`
pub record Claim : Type 0 where
  pub key : String
  pub fingerprint : String

abbrev pub aggregate_type : String
aggregate_type = "reservation"

unfoldable pub translate_insert : Error DomainError → Error DomainError
translate_insert e =
    if is e exclusion_violation
    then domain slot_unavailable
    else (if is e check_violation
          && (constraint_name e == "reservation_window_not_empty"
              || constraint_name e == "reservation_window_bounded")
        then domain invalid_time_window
        else e)

abbrev pub translate_read : Error DomainError → Error DomainError
translate_read no_rows = domain not_found
translate_read e = e

abbrev pub translate_claim : Error DomainError → Error DomainError
translate_claim key_reuse = domain idempotency_key_reuse
translate_claim e = e

-- The body of `Insert`'s transaction after the claim.
unfoldable pub insert_claimed : Reservation → ℕ → String × Bool → StoreAction (Reservation × Bool)
insert_claimed r ttl (existing_id, true) = do
  stored ← sql (select_row existing_id)
  pure (stored, true)
insert_claimed r ttl (existing_id, false) = do
  stored ← catch (sql (insert_row r ttl)) (λ e. fail (translate_insert e))
  stage_as aggregate_type (created_emission stored)
  pure (stored, false)

unfoldable pub insert_tx : Claim → Reservation → ℕ → StoreAction (Reservation × Bool)
insert_tx c r ttl = do
  claimed ← catch (claim c.key c.fingerprint r.id) (λ e. fail (translate_claim e))
  insert_claimed r ttl claimed

-- The relay is woken unless this was a replay.
abbrev pub kick_unless : Reservation × Bool → StoreAction Reservation
kick_unless (stored, true) = pure stored
kick_unless (stored, false) = kick >> pure stored

-- `Insert`
unfoldable pub insert : Claim → Reservation → ℕ → StoreAction Reservation
insert c r ttl = do stored ← within_tx (insert_tx c r ttl); kick_unless stored

-- `ByID`
unfoldable pub by_id : String → StoreAction Reservation
by_id id =
    catch (query (λ now db. elim (select_row id now db) [ ok (r, _) ↦ ok r | err e ↦ err e ]))
      (λ e. fail (translate_read e))

abbrev pub same_status : Status → Status → Bool
same_status held held = true
same_status confirmed confirmed = true
same_status released released = true
same_status _ _ = false

abbrev pub same_time : Option Time → Option Time → Bool
same_time none none = true
same_time none (some b) = false
same_time (some a) none = false
same_time (some a) (some b) = eqb a b

abbrev pub same_reason : Option String → Option String → Bool
same_reason none none = true
same_reason none (some b) = false
same_reason (some a) none = false
same_reason (some a) (some b) = a == b

unfoldable pub state_changed : Reservation → Reservation → Bool
state_changed current next =
    not (same_status current.status next.status)
    || not (same_time current.expires_at next.expires_at)
    || not (same_reason current.released_reason next.released_reason)

abbrev pub is_empty : List Emission → Bool
is_empty [] = true
is_empty _ = false

-- What the transition decided is written, unless it changed nothing.
unfoldable pub persist :
    Reservation → Reservation × List Emission → StoreAction (Reservation × Bool)
persist current (next, emissions) =
    if not (state_changed current next) && is_empty emissions then pure (current, false) else (do
      updated ← sql (update_row next)
      stage_all aggregate_type emissions
      pure (updated, true))

-- `ApplyTx`, inside a transaction that the caller owns.
unfoldable pub apply_tx : String → Transition → StoreAction (Reservation × Bool)
apply_tx id fn = do
  current ← catch (sql (select_row id)) (λ e. fail (translate_read e))
  decided ← lift (fn current)
  persist current decided

abbrev pub kick_if_changed : Reservation × Bool → StoreAction (Reservation × Bool)
kick_if_changed (r, true) = kick >> pure (r, true)
kick_if_changed (r, false) = pure (r, false)

-- `Apply`
unfoldable pub apply : String → Transition → StoreAction (Reservation × Bool)
apply id fn = do result ← within_tx (apply_tx id fn); kick_if_changed result

-- `Busy`
unfoldable pub busy : String → Time → Time → StoreAction (List Window)
busy resource_id from to = query (select_busy resource_id from to)

-- `Now`
unfoldable pub clock : StoreAction Time
clock = query (λ now db. ok now)

-- `ExpiredHolds`
unfoldable pub expired_holds : ℕ → StoreAction (List String)
expired_holds limit = query (select_expired limit)
