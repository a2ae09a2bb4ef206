-- ===== src/Contracts/Validity.antt =====
-- shared/contracts/events/envelope.go: `Validate`, `Parse`, `PayloadOf` and `New`. What encoding/json
-- and uuid.Parse make of a text are parameters.
use Prim.Native.String.{len}
use wakewake.Prelude.Int.{pos, ltb_ℤ}
use wakewake.Prelude.{String, ◌==◌, Bool, not, ◌||◌, Option, none, some, if◌then◌else◌, eqb, ltb}
use wakewake.Contracts.Events.{
  Time, Envelope, is_known, schema_version, max_correlation_id_len, zero_time,
}

-- `is_uuid`: uuid.Parse accepts it. `is_blank`: the raw JSON has no bytes. `unmarshal`: the envelope
-- of a body. `marshal`: the body of an envelope.
pub record Codec (Raw Body : Type 0) : Type 0 where
  pub is_uuid : String → Bool
  pub is_blank : Raw → Bool
  pub unmarshal : Body → Option (Envelope Raw)
  pub marshal : Envelope Raw → Option Body

module _ {Raw Body : Type 0} (codec : Codec Raw Body) where
  -- `Validate() == nil`: the checks in the code's order.
  unfoldable pub is_valid : Envelope Raw → Bool
  is_valid e = not (
      e.event == ""
      || (not (is_known e.event)
          || (ltb_ℤ e.version (pos 1)
              || (not (codec.is_uuid e.id)
                  || (eqb e.occurred_at zero_time
                      || (e.correlation_id == ""
                          || (ltb max_correlation_id_len (len e.correlation_id)
                              || codec.is_blank e.payload)))))))

  abbrev pub checked : Envelope Raw → Option (Envelope Raw)
  checked e = if is_valid e then some e else none

  unfoldable pub parse : Body → Option (Envelope Raw)
  parse body = elim (codec.unmarshal body) [ none ↦ none | some e ↦ checked e ]

  -- The payload is marshalled by the caller's `marshal_payload`.
  unfoldable pub new_envelope :
      {P : Type 0} → (P → Option Raw) → String → String → Time → String → P → Option (Envelope Raw)
  new_envelope marshal_payload event id occurred_at correlation_id payload =
      elim (marshal_payload payload) [
        | none ↦ none
        | some raw ↦ checked (record {
          event = event;
          version = pos schema_version;
          id = id;
          occurred_at = occurred_at;
          correlation_id = correlation_id;
          payload = raw;
        })
      ]
