-- ===== src/Runtime/Bridge/Json.antt =====
-- core/runtime/shell_bridge_presenter: the reader of a message's fields and the writer of an event's
-- fields. Wide texts and bytes are lists of codes; `none` is an empty result of the reader's loop.
use p2p_desktop_share_new.Base.{
  ℕ, ◌+◌, ◌/◌, ◌%◌, ◌==◌, leb, ltb, Bool, true, false, not, ◌&&◌, Option, none, some, [], ◌∷◌, ◌++◌,
  if◌then◌else◌,
}
use p2p_desktop_share_new.Base.Text.{Text, codes, find_after, skip_space}
use p2p_desktop_share_new.Base.Decimal.{is_digit, number_of, decimal}

-- `"key"`.
abbrev pub quoted : Text → Text
quoted key = b'"' ∷ (key ++ (b'"' ∷ []))

abbrev pub after_colon : Option Text → Option Text
after_colon none = none
after_colon (some text) = find_after (b':' ∷ []) text

-- The text behind the colon that follows the key.
abbrev pub field_at : Text → Text → Option Text
field_at body key = after_colon (find_after (quoted key) body)

-- The letter behind a backslash.
unfoldable pub unescape : ℕ → ℕ
unescape c =
    if c == b'b'
    then 8
    else if c == b'f'
    then 12
    else if c == b'n'
    then 10
    else if c == b'r'
    then 13
    else if c == b't'
    then 9
    else c

abbrev pub push_front : ℕ → Option Text → Option Text
push_front c none = none
push_front c (some text) = some (c ∷ text)

-- The loop of `JsonStringField`, from the opening quote on; `escaping` is set behind a backslash.
unfoldable pub read_string : Bool → Text → Option Text
read_string escaping [] = none
read_string escaping (c ∷ text) =
    let rest = read_string (not escaping && c == b'\\') text in
    if escaping
    then push_front (unescape c) rest
    else if c == b'\\'
    then rest
    else if c == b'"'
    then some []
    else push_front c rest

abbrev pub open_string : Text → Option Text
open_string [] = none
open_string (c ∷ text) = if c == b'"' then read_string false text else none

abbrev pub or_empty : Option Text → Text
or_empty none = []
or_empty (some text) = text

abbrev pub string_at : Option Text → Text
string_at none = []
string_at (some text) = or_empty (open_string (skip_space text))

-- `JsonStringField`.
unfoldable pub json_string_field : Text → Text → Text
json_string_field body key = string_at (field_at body key)

abbrev is_some : Option Text → Bool
is_some none = false
is_some (some text) = true

-- `JsonHasField`.
pub json_has_field : Text → Text → Bool
json_has_field body key = is_some (field_at body key)

unfoldable pub take_digits : Text → Text
take_digits [] = []
take_digits (c ∷ text) = let rest = take_digits text in if is_digit c then c ∷ rest else []

-- `wcstoul` on digits: a number above the largest unsigned long is read as that.
abbrev pub wcstoul : ℕ → Text → ℕ
wcstoul ulong_max text = let n = number_of 0 text in if leb n ulong_max then n else ulong_max

abbrev pub some_number : ℕ → Text → Option ℕ
some_number ulong_max [] = none
some_number ulong_max (c ∷ text) = some (wcstoul ulong_max (c ∷ text))

abbrev pub int_at : ℕ → Option Text → Option ℕ
int_at ulong_max none = none
int_at ulong_max (some text) = some_number ulong_max (take_digits (skip_space text))

-- `JsonIntField`; the platform's unsigned long has 32 or 64 bits.
unfoldable pub json_int_field : ℕ → Text → Text → Option ℕ
json_int_field ulong_max body key = int_at ulong_max (field_at body key)

-- A digit of `%x`.
unfoldable pub hex_digit : ℕ → ℕ
hex_digit n = if ltb n 10 then 48 + n else 87 + n

-- What the writer puts for a byte.
unfoldable pub escape_byte : ℕ → Text
escape_byte c =
    if c == b'\\'
    then codes "\\\\"
    else if c == b'"'
    then codes "\\\""
    else if c == 8
    then codes "\\b"
    else if c == 12
    then codes "\\f"
    else if c == 10
    then codes "\\n"
    else if c == 13
    then codes "\\r"
    else if c == 9
    then codes "\\t"
    else if ltb c 32
    then codes "\\u00" ++ (hex_digit (c / 16) ∷ hex_digit (c % 16) ∷ [])
    else c ∷ []

-- `JsonEscapeUtf8`.
unfoldable pub json_escape_utf8 : Text → Text
json_escape_utf8 [] = []
json_escape_utf8 (c ∷ bytes) = escape_byte c ++ json_escape_utf8 bytes

abbrev pub comma : Bool → Text
comma trailing = if trailing then b',' ∷ [] else []

-- `AppendJsonString`, `AppendJsonBool` and `AppendJsonInt`: what they add. The library's conversion
-- of a wide text to UTF-8 is a parameter.
unfoldable pub append_json_string : (Text → Text) → Text → Text → Bool → Text
append_json_string to_utf8 key value trailing =
    quoted key ++ (b':' ∷ b'"' ∷ (json_escape_utf8 (to_utf8 value) ++ (b'"' ∷ comma trailing)))

unfoldable pub append_json_bool : Text → Bool → Bool → Text
append_json_bool key value trailing =
    quoted key ++ (b':' ∷ ((if value then codes "true" else codes "false") ++ comma trailing))

unfoldable pub append_json_int : Text → ℕ → Bool → Text
append_json_int key value trailing = quoted key ++ (b':' ∷ (decimal value ++ comma trailing))
