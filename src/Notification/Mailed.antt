-- ===== src/Notification/Mailed.antt =====
-- services/notification, `Handle`: a confirmation that nothing stands in the way of.
use wakewake.Prelude.{suc, ◌≡◌, arith, String, false, Option, some, List, [], ◌∷◌, ◌++◌, eq_iff}
use wakewake.Contracts.Events.{Envelope, BookingConfirmedPayload, booking_confirmed_event}
use wakewake.Platform.Session.{fine, ok, World, sql}
use wakewake.Platform.Relay.{confirmed}
use wakewake.Notification.Message.{SentRecord, Layout, compose_confirmation}
use wakewake.Notification.Sending.{mail_of, row_of}
use wakewake.Notification.Confirmation.{
  Post, PostState, has_record, insert_record, send, handle_confirmed,
}

-- Where the statement is carried out, the customer has an address and the mail server takes the
-- mail, a BookingConfirmed that has no record is handled: one mail more is out, sent to that address
-- with the event's booking, window and amount in it, and the transaction has its record, with that
-- address redacted.
pub confirmed_mailed :
    {Raw : Type 0} (l : Layout) (post : Post) (payload_of : Raw → Option BookingConfirmedPayload)
    (e : Envelope Raw) (w : World (List SentRecord)) (s : PostState) {p : BookingConfirmedPayload}
    {to : String}
    → e.event ≡ booking_confirmed_event
    → payload_of e.payload ≡ some p
    → post.resolve p.customer_id ≡ some to
    → has_record e.id s.session.db.own ≡ false
    → (w.calls s.session.step).outcome ≡ fine
    → post.takes (suc s.session.step) ≡ confirmed
    → ((handle_confirmed l post payload_of e w s).0 ≡ ok tt)
      × ((handle_confirmed l post payload_of e w s).1.mails ≡ s.mails ++ mail_of l p to ∷ [])
      × ((handle_confirmed l post payload_of e w s).1.session.db.own
          ≡ row_of l e.id e.correlation_id p to ∷ s.session.db.own)
unfolding handle_confirmed sql insert_record send compose_confirmation
confirmed_mailed l post payload_of e w s {p} {to} named good found new fine_ taken = (
  ground (arith, named, good, found, new, fine_, taken, eq_iff e.event booking_confirmed_event),
  ground (arith, named, good, found, new, fine_, taken, eq_iff e.event booking_confirmed_event),
  ground (arith, named, good, found, new, fine_, taken, eq_iff e.event booking_confirmed_event),
)
