-- ===== src/Payment/Effects.antt =====
-- What the bodies of the payment store's transactions did when they succeeded.
use wakewake.Prelude.{◌≡◌, inl, inr, arith, String, Bool, none, some, ◌∷◌, Option-cases}
use wakewake.Platform.Session.{KeyRow, ok, World, Session, sql, fail, catch}
use wakewake.Platform.Rules.{>>=-ok, catch-ok}
use wakewake.Platform.Idempotency.{find_key, claim}
use wakewake.Platform.Keyed.{Engine, find_by}
use wakewake.Platform.Staging.{Claimed, entered, replayed, claim-ok}
use wakewake.Payment.Lifecycle.{PaymentError, Payment}
use wakewake.Payment.Table.{Own, payment_id, failed_check, taken, new_row, insert_row, select_row}
use wakewake.Payment.Store.{Claim, translate_claim, translate_insert, insert_claimed, insert_tx}

abbrev pub key_row : Claim → String → KeyRow
key_row c id = record { key = c.key; request_fingerprint = c.fingerprint; resource_id = id }

-- The two ways in which the body of `InsertPayment` succeeds.
pub data InsertEffect (g : Engine) (c : Claim) (p : Payment) (out : Payment) (s s' : Session Own)
    : Type 0 where
  made :
      out ≡ new_row p s.now
      → find_key c.key s.db.keys ≡ none
      → failed_check g (new_row p s.now) ≡ none
      → taken p s.db.own.payments ≡ none
      → s'.db.own.payments ≡ new_row p s.now ∷ s.db.own.payments
      → s'.db.keys ≡ key_row c p.id ∷ s.db.keys
      → s'.db.outbox ≡ s.db.outbox
      → InsertEffect g c p out s s'
  answered :
      (k : KeyRow)
      → find_key c.key s.db.keys ≡ some k
      → k.request_fingerprint ≡ c.fingerprint
      → find_by payment_id k.resource_id s.db.own.payments ≡ some out
      → s'.db ≡ s.db
      → InsertEffect g c p out s s'

module _ (w : World Own) (s : Session Own) where
  select-ok :
      (id : String) (p : Payment)
      → (sql (select_row payment_id id) w s).0 ≡ ok p
      → (find_by payment_id id s.db.own.payments ≡ some p)
        × ((sql (select_row payment_id id) w s).1.db ≡ s.db)
  unfolding sql select_row
  select-ok id p h = ground arith

  insert_row-ok :
      (g : Engine) (p stored : Payment)
      → (sql (insert_row g p) w s).0 ≡ ok stored
      → (failed_check g (new_row p s.now) ≡ none)
        × (taken p s.db.own.payments ≡ none)
        × (stored ≡ new_row p s.now)
        × ((sql (insert_row g p) w s).1.db ≡ record s.db {
          own = record s.db.own { payments = new_row p s.now ∷ s.db.own.payments };
        })
  unfolding sql insert_row
  insert_row-ok g p stored h = elim (Option-cases (taken p s.db.own.payments)) [
    | inl e ↦ ground (arith, e)
    | inr (x, e) ↦ absurd (ground (arith, e))
  ]

module _ (w : World Own) (s : Session Own) where
  insert_tx_how :
      (g : Engine) (c : Claim) (p out : Payment) (at : String × Bool) (s1 : Session Own)
      → Claimed c.key c.fingerprint p.id at s s1
      → s1.now ≡ s.now
      → (s' : Session Own) → s' ≡ (insert_claimed g p at w s1).1
      → (insert_claimed g p at w s1).0 ≡ ok out
      → InsertEffect g c p out s s'
  unfolding insert_claimed
  insert_tx_how g c p out at s1 (entered e fresh db) now s' run h =
      let (h', ran) = catch-ok (sql (insert_row g p)) translate_insert w s1 (rw e at h) in
      let (passed, free, same, own) = insert_row-ok w s1 g p out h' in
      made (ground (arith, same, now)) fresh (ground (arith, passed, now))
        (ground (arith, free, db)) (ground (arith, run, e, ran, own, db, now))
        (ground (arith, run, e, ran, own, db)) (ground (arith, run, e, ran, own, db))
  insert_tx_how g c p out at s1 (replayed row found same e db) now s' run h =
      let (there, kept) = select-ok w s1 row.resource_id out (rw e at h) in
      answered row found same (ground (arith, there, db)) (ground (arith, run, e, kept, db))

  pub insert_tx-ok :
      (g : Engine) (c : Claim) (p out : Payment)
      → (insert_tx g c p w s).0 ≡ ok out
      → InsertEffect g c p out s (insert_tx g c p w s).1
  unfolding insert_tx
  insert_tx-ok g c p out h =
      let m = catch (claim c.key c.fingerprint p.id) (λ e. fail (translate_claim e)) in
      let (at, e, run) = >>=-ok m (insert_claimed g p) w s h in
      let (e', ran) = catch-ok (claim c.key c.fingerprint p.id) translate_claim w s e in
      let (how, now) = claim-ok {D = PaymentError} w s c.key c.fingerprint p.id at e' in
      insert_tx_how g c p out at (claim {D = PaymentError} c.key c.fingerprint p.id w s).1 how now
        (insert_tx g c p w s).1 (ground (arith, run, ran)) (rw (← ran) (rw run at h))
