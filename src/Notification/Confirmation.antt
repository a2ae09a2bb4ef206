-- ===== src/Notification/Confirmation.antt =====
-- services/notification/internal/events/confirmation.go, `Handle`, and the INSERT of
-- internal/infra/store.go on migrations/0001_sent_notification.sql. The mail leaves inside the
-- transaction, and stays sent whatever becomes of it.
use wakewake.Prelude.{
  ℕ, suc, String, ◌==◌, Bool, true, false, Option, none, some, List, [], ◌∷◌, ◌++◌, if◌then◌else◌,
  anyb,
}
use wakewake.Contracts.Events.{Time, Envelope, BookingConfirmedPayload, booking_confirmed_event}
use wakewake.Platform.Session.{other, Db, Result, ok, err, World, Session, sql}
use wakewake.Platform.Relay.{Confirm, confirmed, dropped, unanswered}
use wakewake.Notification.Message.{
  Details, Message, SentRecord, Layout, channel_email, compose_confirmation,
}

abbrev pub has_record : String → List SentRecord → Bool
has_record id = anyb (λ (r : SentRecord). r.event_id == id)

-- INSERT ... ON CONFLICT (event_id) DO NOTHING; the value is RowsAffected() = 1.
unfoldable pub insert_record :
    SentRecord → Time → Db (List SentRecord) → Result String (Bool × Db (List SentRecord))
insert_record r now db =
    if has_record r.event_id db.own
    then ok (false, db)
    else ok (true, record db { own = r ∷ db.own })

-- What the outside does: the address of a customer, none where it cannot be resolved, and how the
-- mail server answers the n-th call: it takes the message, or not, or takes it and its answer is lost.
pub record Post : Type 0 where
  pub resolve : String → Option String
  pub takes : ℕ → Confirm

pub record PostState : Type 0 where
  pub session : Session (List SentRecord)
  pub mails : List Message

abbrev pub Outcome : Type 0
Outcome = Result String (Unit {0}) × PostState

module _ (l : Layout) (post : Post) where
  -- `Send`
  abbrev pub send_as : Confirm → Message → PostState → Outcome
  send_as confirmed m s = (ok tt, record s { mails = s.mails ++ m ∷ [] })
  send_as dropped m s = (err other, s)
  send_as unanswered m s = (err other, record s { mails = s.mails ++ m ∷ [] })

  unfoldable pub send : Message → PostState → Outcome
  send m s =
      send_as (post.takes s.session.step) m
        (record s { session = record s.session { step = suc s.session.step } })

  -- After `RecordSent`: a row that was there before means that the mail is out.
  abbrev pub recorded :
      Message → Result String Bool × Session (List SentRecord) → PostState → Outcome
  recorded m (err e, t) s = (err e, record s { session = t })
  recorded m (ok false, t) s = (ok tt, record s { session = t })
  recorded m (ok true, t) s = send m (record s { session = t })

  abbrev pub details_of : BookingConfirmedPayload → Details
  details_of p = record {
    booking_id = p.booking_id;
    customer_id = p.customer_id;
    starts_at = p.starts_at;
    ends_at = p.ends_at;
    total_minor = p.total_minor;
    currency = p.currency;
  }

  abbrev pub record_of : String → String → BookingConfirmedPayload → String → SentRecord
  record_of event_id correlation_id p to = record {
    event_id = event_id;
    booking_id = p.booking_id;
    customer_id = p.customer_id;
    channel = channel_email;
    recipient_redacted = l.redact to;
    subject = (compose_confirmation l (details_of p) to).subject;
    correlation_id = correlation_id;
  }

  abbrev pub addressed :
      String
      → String
      → BookingConfirmedPayload
      → Option String
      → World (List SentRecord)
      → PostState
      → Outcome
  addressed event_id correlation_id p none w s = (err other, s)
  addressed event_id correlation_id p (some to) w s =
      recorded (compose_confirmation l (details_of p) to)
        (sql (insert_record (record_of event_id correlation_id p to)) w s.session) s

  abbrev pub decoded :
      String
      → String
      → Option BookingConfirmedPayload
      → World (List SentRecord)
      → PostState
      → Outcome
  decoded event_id correlation_id none w s = (err other, s)
  decoded event_id correlation_id (some p) w s =
      addressed event_id correlation_id p (post.resolve p.customer_id) w s

  -- `Handle`; `payload_of` is events.PayloadOf.
  unfoldable pub handle_confirmed :
      {Raw : Type 0}
      → (Raw → Option BookingConfirmedPayload)
      → Envelope Raw
      → World (List SentRecord)
      → PostState
      → Outcome
  handle_confirmed payload_of e w s =
      if e.event == booking_confirmed_event
      then decoded e.id e.correlation_id (payload_of e.payload) w s
      else (err other, s)
