-- ===== src/Catalog/Cursor.antt =====
-- services/catalog/internal/domain/cursor.go: the token of a page's boundary. Base64, the layout of
-- instants, the split at a bar and uuid.Parse are parameters.
use Prim.Native.String.{◌++◌}
use wakewake.Prelude.{
  String, ◌==◌, Bool, true, false, ◌≡◌, arith, Option, none, some, if◌then◌else◌,
}
use wakewake.Contracts.Events.{Time}
use wakewake.Catalog.Product.{Product, Cursor}

-- `encode` and `decode`: base64.RawURLEncoding. `format` and `parse`: time.RFC3339Nano. `split`:
-- strings.SplitN at the first bar, none where there is none.
pub record TokenCodec : Type 0 where
  pub encode : String → String
  pub decode : String → Option String
  pub format : Time → String
  pub parse : String → Option Time
  pub split : String → Option (String × String)
  pub is_uuid : String → Bool

-- What the Go library documents of them.
pub record Documented (c : TokenCodec) : Type 0 where
  pub decode-encode : (t : String) → c.decode (c.encode t) ≡ some t
  pub encode-ne_empty : (a b : String) → c.encode (a ++ ("|" ++ b)) == "" ≡ false
  pub parse-format : (t : Time) → c.parse (c.format t) ≡ some t
  pub split-format :
      (t : Time) (b : String) → c.split (c.format t ++ ("|" ++ b)) ≡ some (c.format t, b)

module _ (c : TokenCodec) where
  unfoldable pub encode_cursor : Product → String
  encode_cursor p = c.encode (c.format p.created_at ++ ("|" ++ p.id))

  abbrev pub cursor_of_parts : Option (String × String) → Option Cursor
  cursor_of_parts none = none
  cursor_of_parts (some (time, id)) = elim (c.parse time) [
    | none ↦ none
    | some t ↦ if c.is_uuid id then some (record { created_at = t; id = id }) else none
  ]

  -- None is ErrInvalidCursor.
  unfoldable pub decode_cursor : String → Option Cursor
  decode_cursor token =
      if token == ""
      then none
      else elim (c.decode token) [ none ↦ none | some raw ↦ cursor_of_parts (c.split raw) ]

abbrev pub cursor_at : Product → Cursor
cursor_at p = record { created_at = p.created_at; id = p.id }

-- The token of a product whose id is a uuid decodes to the product's place in the order.
pub decode_cursor-encode_cursor :
    (c : TokenCodec) (docs : Documented c) (p : Product)
    → c.is_uuid p.id ≡ true
    → decode_cursor c (encode_cursor c p) ≡ some (cursor_at p)
unfolding decode_cursor encode_cursor
decode_cursor-encode_cursor c docs p valid = ground (
  arith,
  docs.encode-ne_empty (c.format p.created_at) p.id,
  docs.decode-encode (c.format p.created_at ++ ("|" ++ p.id)),
  docs.split-format p.created_at p.id,
  docs.parse-format p.created_at,
  valid,
)
