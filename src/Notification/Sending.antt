-- ===== src/Notification/Sending.antt =====
-- services/notification, `Handle`: which mails go out.
use wakewake.Prelude.{
  suc, ◌≡◌, ◌⊎◌, inl, inr, arith, String, ◌==◌, false, Option, some, List, [], ◌∷◌, ◌++◌,
  Bool-cases, Option-cases,
}
use wakewake.Contracts.Events.{Envelope, BookingConfirmedPayload, booking_confirmed_event}
use wakewake.Platform.Session.{World, sql}
use wakewake.Platform.Rules.{Result-cases}
use wakewake.Platform.Passes.{Confirm-cases}
use wakewake.Notification.Message.{Message, SentRecord, Layout, compose_confirmation, format_minor}
use wakewake.Notification.Confirmation.{
  Post, PostState, has_record, insert_record, send, record_of, handle_confirmed,
}

-- The mail that a confirmation should be, and the row that should record it.
abbrev pub mail_of : Layout → BookingConfirmedPayload → String → Message
mail_of l p to = record {
  to = to;
  subject = "Your booking is confirmed";
  body =
      l.render p.booking_id (l.window p.starts_at p.ends_at)
        (format_minor p.total_minor p.currency);
}

abbrev pub row_of : Layout → String → String → BookingConfirmedPayload → String → SentRecord
row_of l event_id correlation_id p to = record {
  event_id = event_id;
  booking_id = p.booking_id;
  customer_id = p.customer_id;
  channel = "email";
  recipient_redacted = l.redact to;
  subject = "Your booking is confirmed";
  correlation_id = correlation_id;
}

module _ {Raw : Type 0} (l : Layout) (post : Post)
    (payload_of : Raw → Option BookingConfirmedPayload) (e : Envelope Raw)
    (w : World (List SentRecord)) (s : PostState) where
  abbrev row : BookingConfirmedPayload → String → SentRecord
  row p to = record_of l post e.id e.correlation_id p to

  -- A mail goes out only where the event had no record, and then it is one mail, sent to the address
  -- that the event's customer resolves to, with the event's booking, window and amount in it, and the
  -- transaction has its record, with that address redacted; in every other case no mail goes out.
  pub handle_confirmed_lem :
      ((p : BookingConfirmedPayload) × (to : String) × (payload_of e.payload ≡ some p)
        × (post.resolve p.customer_id ≡ some to)
        × (has_record e.id s.session.db.own ≡ false)
        × ((handle_confirmed l post payload_of e w s).1.mails ≡ s.mails ++ mail_of l p to ∷ [])
        × ((handle_confirmed l post payload_of e w s).1.session.db.own
            ≡ row_of l e.id e.correlation_id p to ∷ s.session.db.own))
      ⊎ ((handle_confirmed l post payload_of e w s).1.mails ≡ s.mails)
  unfolding handle_confirmed sql insert_record send compose_confirmation
  handle_confirmed_lem = elim (Option-cases (payload_of e.payload)) [
    | inl bad ↦ inr (ground (arith, bad))
    | inr (p, good) ↦ elim (Option-cases (post.resolve p.customer_id)) [
      | inl lost ↦ inr (ground (arith, good, lost))
      | inr (to, found) ↦ elim (Bool-cases (has_record e.id s.session.db.own)) [
        | inl old ↦ inr (ground (arith, good, found, old))
        | inr new ↦ elim (Bool-cases (e.event == booking_confirmed_event)) [
          | inr other ↦ inr (ground (arith, other))
          | inl right ↦ elim (Result-cases (sql (insert_record (row p to)) w s.session).0) [
            | inr (x, failed_) ↦ inr (ground (arith, good, found, new, right, failed_))
            | inl (b, fine_) ↦ elim (Confirm-cases (post.takes (suc s.session.step))) [
              | inl c ↦ inl (
                p,
                to,
                good,
                found,
                new,
                ground (arith, good, found, new, right, fine_, c),
                ground (arith, good, found, new, right, fine_, c),
              )
              | inr (inl c) ↦ inr (ground (arith, good, found, new, right, fine_, c))
              | inr (inr c) ↦ inl (
                p,
                to,
                good,
                found,
                new,
                ground (arith, good, found, new, right, fine_, c),
                ground (arith, good, found, new, right, fine_, c),
              )
            ]
          ]
        ]
      ]
    ]
  ]
