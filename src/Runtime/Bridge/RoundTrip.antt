-- ===== src/Runtime/Bridge/RoundTrip.antt =====
-- Fields that the writer of shell_bridge_presenter.cpp makes, read by its reader.
use p2p_desktop_share_new.Base.{
  ℕ, ◌/◌, ◌%◌, ◌≤◌, ◌<◌, ◌==◌, ltb, Bool, true, false, not, ◌&&◌, Option, none, some, [], ◌∷◌, ◌++◌,
  if◌then◌else◌, All, ◌≡◌, ◌≢◌, refl, sym, ap, subst, ◌∙◌, arith, if-both, append_assoc, le→leb,
}
use p2p_desktop_share_new.Base.Text.{
  Text, codes, is_space, find_after, find_after-behind, starts_with, skip_space,
}
use p2p_desktop_share_new.Base.Decimal.{
  number_of, decimal, Digits, number_of-decimal, decimal-Digits, decimal-cons,
}
use p2p_desktop_share_new.Runtime.Bridge.Json.{
  quoted, field_at, push_front, unescape, read_string, or_empty, string_at, json_string_field,
  take_digits, wcstoul, int_at, json_int_field, hex_digit, escape_byte, json_escape_utf8, comma,
  append_json_string, append_json_int,
}

-- Control codes that have no letter of their own behind a backslash.
abbrev pub is_raw : ℕ → Bool
is_raw c =
    ltb c 32 && not (c == 8) && not (c == 12) && not (c == 10) && not (c == 13) && not (c == 9)

-- What the reader makes of a written byte: `\u` is no escape for it.
unfoldable shown : ℕ → Text
shown c = if is_raw c then codes "u00" ++ hex_digit (c / 16) ∷ hex_digit (c % 16) ∷ [] else c ∷ []

unfoldable pub read_back : Text → Text
unfolding shown
read_back [] = []
read_back (c ∷ bytes) = shown c ++ read_back bytes

abbrev prepend : Text → Option Text → Option Text
prepend front none = none
prepend front (some text) = some (front ++ text)

read_plain :
    (c : ℕ) (text : Text)
    → c ≢ b'\\'
    → c ≢ b'"'
    → read_string false (c ∷ text) ≡ push_front c (read_string false text)
unfolding read_string
read_plain c text no_backslash no_quote = ground (arith, no_backslash, no_quote)

read_escaped :
    (c : ℕ) (text : Text)
    → read_string false (b'\\' ∷ c ∷ text) ≡ push_front (unescape c) (read_string false text)
unfolding read_string
read_escaped c text = refl

pub hex_digit-Letter : (n : ℕ) → n ≤ 15 → (hex_digit n ≢ b'\\') × (hex_digit n ≢ b'"')
unfolding hex_digit
hex_digit-Letter n small = ground arith

prepend-one : (c : ℕ) (o : Option Text) → push_front c o ≡ prepend (c ∷ []) o
prepend-one c none = refl
prepend-one c (some text) = refl

-- One letter behind a backslash that stands for a byte.
read_letter :
    (letter c : ℕ) (text : Text)
    → unescape letter ≡ c
    → is_raw c ≡ false
    → read_string false (b'\\' ∷ letter ∷ text) ≡ prepend (shown c) (read_string false text)
unfolding shown
read_letter letter c text back fine =
    read_escaped letter text ∙ rw (back, fine) (prepend-one c (read_string false text))

push_front-prepend :
    (a b c d e : ℕ) (o : Option Text)
    → push_front a (push_front b (push_front c (push_front d (push_front e o))))
      ≡ prepend (a ∷ b ∷ c ∷ d ∷ e ∷ []) o
push_front-prepend a b c d e none = refl
push_front-prepend a b c d e (some text) = refl

read_raw :
    (c : ℕ) (text : Text)
    → c < 32
    → is_raw c ≡ true
    → read_string false ((codes "\\u00" ++ hex_digit (c / 16) ∷ hex_digit (c % 16) ∷ []) ++ text)
      ≡ prepend (shown c) (read_string false text)
unfolding shown unescape
read_raw c text small raw =
    let high = hex_digit-Letter (c / 16) (omega arith) in
    let low = hex_digit-Letter (c % 16) (omega arith) in
    let tail = hex_digit (c / 16) ∷ hex_digit (c % 16) ∷ text in
    read_escaped b'u' (48 ∷ 48 ∷ tail)
    ∙ rw
        (
          raw,
          read_plain 48 (48 ∷ tail) (omega arith) (omega arith),
          read_plain 48 tail (omega arith) (omega arith),
          read_plain (hex_digit (c / 16)) (hex_digit (c % 16) ∷ text) high.0 high.1,
          read_plain (hex_digit (c % 16)) text low.0 low.1,
        )
        (push_front-prepend b'u' 48 48 (hex_digit (c / 16)) (hex_digit (c % 16))
          (read_string false text))

shown-fine : (c : ℕ) → is_raw c ≡ false → shown c ≡ c ∷ []
unfolding shown
shown-fine c fine = rw fine refl

read_byte :
    (c : ℕ) (text : Text)
    → read_string false (escape_byte c ++ text) ≡ prepend (shown c) (read_string false text)
unfolding escape_byte unescape
read_byte c text =
    let Reads : Text → Type 0 =
      λ s. read_string false (s ++ text) ≡ prepend (shown c) (read_string false text) in
    if-both Reads (c == b'\\') _ _
      (λ e. read_letter b'\\' c text (ground (arith, e)) (ground (arith, e)))
      (λ n1.
        if-both Reads (c == b'"') _ _
          (λ e. read_letter b'"' c text (ground (arith, e)) (ground (arith, e)))
          (λ n2.
            if-both Reads (c == 8) _ _
              (λ e. read_letter b'b' c text (ground (arith, e)) (ground (arith, e)))
              (λ n3.
                if-both Reads (c == 12) _ _
                  (λ e. read_letter b'f' c text (ground (arith, e)) (ground (arith, e)))
                  (λ n4.
                    if-both Reads (c == 10) _ _
                      (λ e. read_letter b'n' c text (ground (arith, e)) (ground (arith, e)))
                      (λ n5.
                        if-both Reads (c == 13) _ _
                          (λ e. read_letter b'r' c text (ground (arith, e)) (ground (arith, e)))
                          (λ n6.
                            if-both Reads (c == 9) _ _
                              (λ e. read_letter b't' c text (ground (arith, e)) (ground (arith, e)))
                              (λ n7.
                                if-both Reads (ltb c 32) _ _
                                  (λ e. read_raw c text (ground arith) (ground (arith, e)))
                                  (λ large.
                                    let fine : is_raw c ≡ false = ground (arith, large) in
                                    read_plain c text (ground (arith, n1)) (ground (arith, n2))
                                    ∙ subst
                                        (λ s.
                                          push_front c (read_string false text)
                                          ≡ prepend s (read_string false text))
                                        (sym (shown-fine c fine))
                                        (prepend-one c (read_string false text))))))))))

-- A written text is read up to its closing quote, whatever follows.
read_string-json_escape_utf8 :
    (bytes rest : Text)
    → read_string false (json_escape_utf8 bytes ++ (b'"' ∷ rest)) ≡ some (read_back bytes)
unfolding json_escape_utf8 read_back read_string
read_string-json_escape_utf8 [] rest = refl
read_string-json_escape_utf8 (c ∷ bytes) rest =
    ap (read_string false) (append_assoc (escape_byte c) (json_escape_utf8 bytes) (b'"' ∷ rest))
    ∙ read_byte c (json_escape_utf8 bytes ++ (b'"' ∷ rest))
    ∙ ap (prepend (shown c)) (read_string-json_escape_utf8 bytes rest)

-- Behind the key stands the colon, and behind it the value.
field_at-key :
    (front key value : Text)
    → find_after (quoted key) (front ++ (b'"' ∷ key)) ≡ none
    → field_at (front ++ (quoted key ++ (b':' ∷ value))) key ≡ some value
unfolding find_after starts_with
field_at-key front key value fresh =
    rw (find_after-behind (b'"' ∷ key) b'"' front (b':' ∷ value) fresh) refl

-- The value's text and the comma, if there is one.
written_value : Text → Text → Bool → Text
written_value bytes rest trailing =
    b'"' ∷ (json_escape_utf8 bytes ++ (b'"' ∷ (comma trailing ++ rest)))

string_at-written :
    (bytes rest : Text) (trailing : Bool)
    → string_at (some (written_value bytes rest trailing)) ≡ read_back bytes
unfolding written_value skip_space
string_at-written bytes rest trailing =
    ap or_empty (read_string-json_escape_utf8 bytes (comma trailing ++ rest))

append_json_string-written :
    (to_utf8 : Text → Text) (key value rest : Text) (trailing : Bool)
    → append_json_string to_utf8 key value trailing ++ rest
      ≡ quoted key ++ (b':' ∷ written_value (to_utf8 value) rest trailing)
unfolding append_json_string written_value
append_json_string-written to_utf8 key value rest trailing =
    append_assoc (quoted key)
      (b':' ∷ b'"' ∷ (json_escape_utf8 (to_utf8 value) ++ (b'"' ∷ comma trailing))) rest
    ∙ ap (λ t. quoted key ++ (b':' ∷ b'"' ∷ t))
        (append_assoc (json_escape_utf8 (to_utf8 value)) (b'"' ∷ comma trailing) rest)

pub json_string_field-append :
    (to_utf8 : Text → Text) (front key value rest : Text) (trailing : Bool)
    → find_after (quoted key) (front ++ (b'"' ∷ key)) ≡ none
    → json_string_field (front ++ (append_json_string to_utf8 key value trailing ++ rest)) key
      ≡ read_back (to_utf8 value)
unfolding json_string_field
json_string_field-append to_utf8 front key value rest trailing fresh =
    ap (λ t. string_at (field_at (front ++ t) key))
      (append_json_string-written to_utf8 key value rest trailing)
    ∙ ap string_at (field_at-key front key (written_value (to_utf8 value) rest trailing) fresh)
    ∙ string_at-written (to_utf8 value) rest trailing

read_back-plain : (bytes : Text) → All (λ c. is_raw c ≡ false) bytes → read_back bytes ≡ bytes
unfolding read_back
read_back-plain [] none_left = refl
read_back-plain (c ∷ bytes) (fine, more) =
    rw (shown-fine c fine) (ap (λ t. c ∷ t) (read_back-plain bytes more))

-- A written string field is read back, whatever follows it, if its quoted key neither stands in
-- the text before the field nor begins in it, if the conversion to UTF-8 leaves the value as it
-- is, and if the value has no control code but \b, \f, \n, \r and \t.
pub json_string_field-plain :
    (to_utf8 : Text → Text) (front key value rest : Text) (trailing : Bool)
    → find_after (quoted key) (front ++ (b'"' ∷ key)) ≡ none
    → to_utf8 value ≡ value
    → All (λ c. is_raw c ≡ false) value
    → json_string_field (front ++ (append_json_string to_utf8 key value trailing ++ rest)) key
      ≡ value
json_string_field-plain to_utf8 front key value rest trailing fresh ascii fine =
    json_string_field-append to_utf8 front key value rest trailing fresh
    ∙ ap read_back ascii
    ∙ read_back-plain value fine

take_digits-append :
    (digits rest : Text)
    → Digits digits
    → take_digits rest ≡ []
    → take_digits (digits ++ rest) ≡ digits
unfolding take_digits
take_digits-append [] rest none_left stops = stops
take_digits-append (c ∷ digits) rest (digit, more) stops =
    rw digit (ap (λ t. c ∷ t) (take_digits-append digits rest more stops))

int_at-Digits :
    (ulong_max c : ℕ) (digits rest : Text)
    → Digits (c ∷ digits)
    → take_digits rest ≡ []
    → int_at ulong_max (some ((c ∷ digits) ++ rest)) ≡ some (wcstoul ulong_max (c ∷ digits))
unfolding skip_space take_digits
int_at-Digits ulong_max c digits rest (digit, more) stops =
    let no_space : is_space c ≡ false = ground (arith, digit) in
    rw (no_space, digit, take_digits-append digits rest more stops) refl

wcstoul-small :
    (ulong_max n : ℕ) (text : Text)
    → number_of 0 text ≡ n
    → n ≤ ulong_max
    → wcstoul ulong_max text ≡ n
wcstoul-small ulong_max n text same small = rw (same, le→leb n ulong_max small) refl

int_at-decimal :
    (ulong_max n : ℕ) (rest : Text)
    → n ≤ ulong_max
    → take_digits rest ≡ []
    → int_at ulong_max (some (decimal n ++ rest)) ≡ some n
int_at-decimal ulong_max n rest small stops =
    let (c, digits, same) = decimal-cons n in
    ap (λ t. int_at ulong_max (some (t ++ rest))) same
    ∙ int_at-Digits ulong_max c digits rest (subst Digits same (decimal-Digits n)) stops
    ∙ ap some (
        wcstoul-small ulong_max n (c ∷ digits) (ap (number_of 0) (sym same) ∙ number_of-decimal n)
          small)

-- A written number field is read back, whatever follows its comma, if its quoted key neither
-- stands in the text before the field nor begins in it, and the number fits into an unsigned long.
pub json_int_field-append :
    (ulong_max : ℕ) (front key : Text) (n : ℕ) (rest : Text)
    → find_after (quoted key) (front ++ (b'"' ∷ key)) ≡ none
    → n ≤ ulong_max
    → json_int_field ulong_max (front ++ (append_json_int key n true ++ rest)) key ≡ some n
unfolding json_int_field append_json_int take_digits
json_int_field-append ulong_max front key n rest fresh small =
    ap (λ t. int_at ulong_max (field_at (front ++ t) key))
      (append_assoc (quoted key) (b':' ∷ (decimal n ++ comma true)) rest
        ∙ ap (λ t. quoted key ++ (b':' ∷ t)) (append_assoc (decimal n) (comma true) rest))
    ∙ ap (int_at ulong_max) (field_at-key front key (decimal n ++ (b',' ∷ rest)) fresh)
    ∙ int_at-decimal ulong_max n (b',' ∷ rest) small refl
