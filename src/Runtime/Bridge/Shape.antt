-- ===== src/Runtime/Bridge/Shape.antt =====
-- What stands outside the strings of the snapshot event (shell_bridge_presenter.cpp).
use p2p_desktop_share_new.Base.{
  ℕ, ◌/◌, ◌%◌, ◌==◌, ltb, Bool, true, false, List, [], ◌∷◌, ◌++◌, if◌then◌else◌, All, All-map, ◌≡◌,
  ◌≢◌, refl, sym, ap, ◌∙◌, arith, if-both,
}
use p2p_desktop_share_new.Base.Text.{Text, codes}
use p2p_desktop_share_new.Base.Decimal.{is_digit, decimal, decimal-Digits}
use p2p_desktop_share_new.Runtime.Bridge.Json.{
  quoted, hex_digit, escape_byte, json_escape_utf8, comma, append_json_string, append_json_bool,
  append_json_int,
}
use p2p_desktop_share_new.Runtime.Bridge.RoundTrip.{hex_digit-Letter}
use p2p_desktop_share_new.Runtime.Bridge.Snapshot.{
  SnapshotMember, text_member, flag_member, number_member, write_member, write_members,
}

-- Where a reader of JSON is: outside strings, in one, or behind a backslash in one.
pub data Mode : Type 0 where
  outside inside escaped : Mode

abbrev pub advance : Mode → ℕ → Mode
advance outside c = if c == b'"' then inside else outside
advance inside c = if c == b'"' then outside else if c == b'\\' then escaped else inside
advance escaped c = inside

unfoldable pub scan : Mode → Text → Mode
scan m [] = m
scan m (c ∷ text) = scan (advance m c) text

-- The codes outside strings, with the quotes that open them.
unfoldable pub shape : Mode → Text → Text
shape m [] = []
shape outside (c ∷ text) = c ∷ shape (advance outside c) text
shape inside (c ∷ text) = shape (advance inside c) text
shape escaped (c ∷ text) = shape inside text

scan-append : (m : Mode) (x y : Text) → scan m (x ++ y) ≡ scan (scan m x) y
unfolding scan
scan-append m [] y = refl
scan-append m (c ∷ x) y = scan-append (advance m c) x y

shape-append : (m : Mode) (x y : Text) → shape m (x ++ y) ≡ shape m x ++ shape (scan m x) y
unfolding scan shape
shape-append m [] y = refl
shape-append outside (c ∷ x) y = ap (λ t. c ∷ t) (shape-append (advance outside c) x y)
shape-append inside (c ∷ x) y = shape-append (advance inside c) x y
shape-append escaped (c ∷ x) y = shape-append inside x y

-- A text that stays within its string.
abbrev Kept : Text → Type 0
Kept text = (scan inside text ≡ inside) × (shape inside text ≡ [])

Kept-append : (x y : Text) → Kept x → Kept y → Kept (x ++ y)
Kept-append x y (x_scan, x_shape) (y_scan, y_shape) = (
  scan-append inside x y ∙ rw x_scan y_scan,
  shape-append inside x y ∙ rw (x_shape, x_scan) y_shape,
)

advance-plain : (c : ℕ) → c ≢ b'\\' → c ≢ b'"' → advance inside c ≡ inside
advance-plain c no_backslash no_quote = ground (arith, no_backslash, no_quote)

plain-Kept : (c : ℕ) → c ≢ b'\\' → c ≢ b'"' → Kept (c ∷ [])
unfolding scan shape
plain-Kept c no_backslash no_quote =
    let stays = advance-plain c no_backslash no_quote in (stays, refl)

escape_byte-Kept : (c : ℕ) → Kept (escape_byte c)
unfolding escape_byte scan shape
escape_byte-Kept c =
    if-both Kept (c == b'\\') _ _ (λ e. (refl, refl))
      (λ n1.
        if-both Kept (c == b'"') _ _ (λ e. (refl, refl))
          (λ n2.
            if-both Kept (c == 8) _ _ (λ e. (refl, refl))
              (λ n3.
                if-both Kept (c == 12) _ _ (λ e. (refl, refl))
                  (λ n4.
                    if-both Kept (c == 10) _ _ (λ e. (refl, refl))
                      (λ n5.
                        if-both Kept (c == 13) _ _ (λ e. (refl, refl))
                          (λ n6.
                            if-both Kept (c == 9) _ _ (λ e. (refl, refl))
                              (λ n7.
                                if-both Kept (ltb c 32) _ _
                                  (λ small.
                                    let high = hex_digit-Letter (c / 16) (ground (arith, small)) in
                                    let low = hex_digit-Letter (c % 16) (omega arith) in
                                    Kept-append (codes "\\u00")
                                      (hex_digit (c / 16) ∷ hex_digit (c % 16) ∷ []) (refl, refl)
                                      (Kept-append (hex_digit (c / 16) ∷ [])
                                        (hex_digit (c % 16) ∷ [])
                                        (plain-Kept (hex_digit (c / 16)) high.0 high.1)
                                        (plain-Kept (hex_digit (c % 16)) low.0 low.1)))
                                  (λ large.
                                    plain-Kept c (ground (arith, n1)) (ground (arith, n2))))))))))

json_escape_utf8-Kept : (bytes : Text) → Kept (json_escape_utf8 bytes)
unfolding json_escape_utf8 scan shape
json_escape_utf8-Kept [] = (refl, refl)
json_escape_utf8-Kept (c ∷ bytes) =
    Kept-append (escape_byte c) (json_escape_utf8 bytes) (escape_byte-Kept c)
      (json_escape_utf8-Kept bytes)

-- Two texts with the same codes outside their strings, all of which are closed.
pub record Alike (x y : Text) : Type 0 where
  pub left : scan outside x ≡ outside
  pub right : scan outside y ≡ outside
  pub same : shape outside x ≡ shape outside y

pub Alike-append : (x y u v : Text) → Alike x y → Alike u v → Alike (x ++ u) (y ++ v)
Alike-append x y u v xy uv = record {
  left = scan-append outside x u ∙ rw xy.left uv.left;
  right = scan-append outside y v ∙ rw xy.right uv.right;
  same =
      shape-append outside x u
      ∙ rw (xy.left, xy.same, uv.same) (sym (shape-append outside y v ∙ rw xy.right refl));
}

pub Alike-refl : (x : Text) → scan outside x ≡ outside → Alike x x
Alike-refl x closed = record { left = closed; right = closed; same = refl }

comma-closed : (trailing : Bool) → scan outside (comma trailing) ≡ outside
unfolding scan
comma-closed true = refl
comma-closed false = refl

-- A string of which all codes stay within it.
string-scan :
    (bytes : Text) (trailing : Bool)
    → Kept bytes
    → scan inside (bytes ++ (b'"' ∷ comma trailing)) ≡ outside
unfolding scan
string-scan bytes trailing (kept, none_out) =
    scan-append inside bytes (b'"' ∷ comma trailing) ∙ rw kept (comma-closed trailing)

string-shape :
    (bytes : Text) (trailing : Bool)
    → Kept bytes
    → shape inside (bytes ++ (b'"' ∷ comma trailing)) ≡ shape outside (comma trailing)
unfolding shape
string-shape bytes trailing (kept, none_out) =
    shape-append inside bytes (b'"' ∷ comma trailing) ∙ rw (none_out, kept) refl

append_json_string-Alike :
    (f g : Text → Text) (key value : Text) (trailing : Bool)
    → scan outside (quoted key) ≡ outside
    → Alike (append_json_string f key value trailing) (append_json_string g key value trailing)
unfolding append_json_string scan shape
append_json_string-Alike f g key value trailing plain =
    let f_kept = json_escape_utf8-Kept (f value) in
    let g_kept = json_escape_utf8-Kept (g value) in
    Alike-append (quoted key) (quoted key)
      (b':' ∷ b'"' ∷ (json_escape_utf8 (f value) ++ (b'"' ∷ comma trailing)))
      (b':' ∷ b'"' ∷ (json_escape_utf8 (g value) ++ (b'"' ∷ comma trailing)))
      (Alike-refl (quoted key) plain)
      (record {
        left = string-scan (json_escape_utf8 (f value)) trailing f_kept;
        right = string-scan (json_escape_utf8 (g value)) trailing g_kept;
        same =
            ap (λ t. b':' ∷ b'"' ∷ t)
              (string-shape (json_escape_utf8 (f value)) trailing f_kept
                ∙ sym (string-shape (json_escape_utf8 (g value)) trailing g_kept));
      })

quoteless-closed : (text : Text) → All (λ c. c ≢ b'"') text → scan outside text ≡ outside
unfolding scan
quoteless-closed [] none_left = refl
quoteless-closed (c ∷ text) (other, more) =
    let differs : (c == b'"') ≡ false = ground (arith, other) in
    rw differs (quoteless-closed text more)

decimal-closed : (n : ℕ) → scan outside (decimal n) ≡ outside
decimal-closed n = quoteless-closed (decimal n) (
    All-map (λ c. is_digit c ≡ true) (λ c. c ≢ b'"') (λ c digit. ground (arith, digit)) (decimal n)
      (decimal-Digits n))

-- A value without quotes behind its key.
bare-closed :
    (key value : Text) (trailing : Bool)
    → scan outside (quoted key) ≡ outside
    → scan outside value ≡ outside
    → scan outside (quoted key ++ (b':' ∷ (value ++ comma trailing))) ≡ outside
unfolding scan
bare-closed key value trailing plain closed =
    scan-append outside (quoted key) (b':' ∷ (value ++ comma trailing))
    ∙ rw plain (scan-append outside value (comma trailing) ∙ rw closed (comma-closed trailing))

abbrev pub key_of : SnapshotMember → Text
key_of (text_member key value) = codes key
key_of (flag_member key value) = codes key
key_of (number_member key value) = codes key

abbrev pub Plain : SnapshotMember → Type 0
Plain m = scan outside (quoted (key_of m)) ≡ outside

flag-closed :
    (value : Bool) → scan outside (if value then codes "true" else codes "false") ≡ outside
unfolding scan
flag-closed true = refl
flag-closed false = refl

module _ (f g : Text → Text) where
  pub write_member-Alike :
      (m : SnapshotMember) (trailing : Bool)
      → Plain m
      → Alike (write_member f m trailing) (write_member g m trailing)
  unfolding write_member append_json_bool append_json_int
  write_member-Alike (text_member key value) trailing plain =
      append_json_string-Alike f g (codes key) value trailing plain
  write_member-Alike (flag_member key value) trailing plain =
      Alike-refl _ (bare-closed (codes key) _ trailing plain (flag-closed value))
  write_member-Alike (number_member key value) trailing plain =
      Alike-refl _ (bare-closed (codes key) (decimal value) trailing plain (decimal-closed value))

  pub write_members-Alike :
      (ms : List SnapshotMember) → All Plain ms → Alike (write_members f ms) (write_members g ms)
  unfolding write_members scan
  write_members-Alike [] none_left = Alike-refl [] refl
  write_members-Alike (m ∷ ms) (plain, more) =
      Alike-append (write_member f m true) (write_member g m true) (write_members f ms)
        (write_members g ms) (write_member-Alike m true plain) (write_members-Alike ms more)
