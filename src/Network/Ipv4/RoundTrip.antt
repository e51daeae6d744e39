-- ===== src/Network/Ipv4/RoundTrip.antt =====
-- `ParseIpv4` on addresses that are written in decimal.
use p2p_desktop_share_new.Base.{
  ℕ, ◌+◌, ◌/◌, ◌%◌, ◌≤◌, ◌==◌, leb, ltb, true, false, ◌&&◌, ◌||◌, none, some, List, [], ◌∷◌, ◌++◌,
  if◌then◌else◌, length, ◌≡◌, refl, sym, subst, ◌∙◌, arith, if-both, append-nil, ltb→lt, le→leb,
}
use p2p_desktop_share_new.Base.Text.{Text}
use p2p_desktop_share_new.Base.Decimal.{is_digit, number_of}
use p2p_desktop_share_new.Network.Ipv4.{
  parse_octet, end_segment, parse_loop, parse_ipv4, looks_like_private_ipv4, looks_like_apipa,
  digits, dotted,
}

digit-step :
    (d : ℕ) (rest : Text) (octets : List ℕ) (current : Text)
    → d ≤ 9
    → parse_loop ((48 + d) ∷ rest) octets current
      ≡ parse_loop rest octets (current ++ (48 + d) ∷ [])
unfolding parse_loop
digit-step d rest octets current small =
    let no_dot : ((48 + d) == b'.') ≡ false = ground arith in
    let digit : is_digit (48 + d) ≡ true = ground arith in rw (no_dot, digit) refl

ltb-not : (a b : ℕ) → ltb a b ≡ false → b ≤ a
ltb-not a b h = ground arith

digits-steps :
    (n : ℕ) (rest : Text) (octets : List ℕ)
    → n ≤ 255
    → parse_loop (digits n ++ rest) octets [] ≡ parse_loop rest octets (digits n)
digits-steps n rest octets small =
    if-both (λ x. parse_loop (x ++ rest) octets [] ≡ parse_loop rest octets x) (ltb n 10) _ _
      (λ y. digit-step n rest octets [] (let h = ltb→lt n 10 y in omega arith))
      (λ m.
        if-both (λ x. parse_loop (x ++ rest) octets [] ≡ parse_loop rest octets x) (ltb n 100) _ _
          (λ y.
            let h = ltb→lt n 100 y in
            digit-step (n / 10) ((48 + n % 10) ∷ rest) octets [] (omega arith)
            ∙ digit-step (n % 10) rest octets ((48 + n / 10) ∷ []) (omega arith))
          (λ k.
            digit-step (n / 100) ((48 + n / 10 % 10) ∷ (48 + n % 10) ∷ rest) octets [] (omega arith)
            ∙ digit-step (n / 10 % 10) ((48 + n % 10) ∷ rest) octets ((48 + n / 100) ∷ [])
                (omega arith)
            ∙ digit-step (n % 10) rest octets ((48 + n / 100) ∷ (48 + n / 10 % 10) ∷ [])
                (omega arith)))

parse_octet-some : (s : Text) (n : ℕ) → n ≤ 255 → number_of 0 s ≡ n → parse_octet s ≡ some n
parse_octet-some s n small e =
    subst (λ m. (if leb m 255 then some m else none) ≡ some n) (sym e)
      (rw (le→leb n 255 small) refl)

ends :
    (c : ℕ) (s : Text) (n : ℕ) (octets : List ℕ)
    → n ≤ 255
    → number_of 0 (c ∷ s) ≡ n
    → end_segment octets (c ∷ s) ≡ some (octets ++ n ∷ [])
unfolding end_segment
ends c s n octets small e = rw (parse_octet-some (c ∷ s) n small e, end_segment) refl

dot :
    (rest : Text) (octets : List ℕ) (current : Text) (octets' : List ℕ)
    → length octets ≤ 3
    → end_segment octets current ≡ some octets'
    → parse_loop (b'.' ∷ rest) octets current ≡ parse_loop rest octets' []
unfolding parse_loop
dot rest octets current octets' few e =
    let room : leb 4 (length octets) ≡ false = ground arith in rw (room, e) refl

-- A segment that holds a decimal gives its octet.
digits-end :
    (n : ℕ) (octets : List ℕ) → n ≤ 255 → end_segment octets (digits n) ≡ some (octets ++ n ∷ [])
unfolding end_segment number_of
digits-end n octets small =
    if-both (λ x. end_segment octets x ≡ some (octets ++ n ∷ [])) (ltb n 10) _ _
      (λ y. ends (48 + n) [] n octets small (omega arith))
      (λ m.
        if-both (λ x. end_segment octets x ≡ some (octets ++ n ∷ [])) (ltb n 100) _ _
          (λ y. ends (48 + n / 10) ((48 + n % 10) ∷ []) n octets small (omega arith))
          (λ k.
            ends (48 + n / 100) ((48 + n / 10 % 10) ∷ (48 + n % 10) ∷ []) n octets small
              (omega arith)))

finish :
    (octets : List ℕ) (current : Text) (octets' : List ℕ)
    → length octets ≡ 3
    → end_segment octets current ≡ some octets'
    → parse_loop [] octets current ≡ some octets'
unfolding parse_loop
finish octets current octets' three e =
    let last : (length octets == 3) ≡ true = ground arith in rw (last, e) refl

segment :
    (n : ℕ) (rest : Text) (octets : List ℕ)
    → n ≤ 255
    → length octets ≤ 3
    → parse_loop (digits n ++ (b'.' ∷ rest)) octets [] ≡ parse_loop rest (octets ++ n ∷ []) []
segment n rest octets small few =
    digits-steps n (b'.' ∷ rest) octets small
    ∙ dot rest octets (digits n) (octets ++ n ∷ []) few (digits-end n octets small)

last_segment :
    (n : ℕ) (octets : List ℕ)
    → n ≤ 255
    → length octets ≡ 3
    → parse_loop (digits n) octets [] ≡ some (octets ++ n ∷ [])
last_segment n octets small three =
    subst (λ x. parse_loop x octets [] ≡ some (octets ++ n ∷ [])) (append-nil (digits n))
      (digits-steps n [] octets small
        ∙ finish octets (digits n) (octets ++ n ∷ []) three (digits-end n octets small))

-- An address that is written in decimal, of four octets up to 255, is parsed to these octets.
pub parse_ipv4-dotted :
    (a b c d : ℕ)
    → a ≤ 255
    → b ≤ 255
    → c ≤ 255
    → d ≤ 255
    → parse_ipv4 (dotted a b c d) ≡ some (a ∷ b ∷ c ∷ d ∷ [])
unfolding parse_ipv4
parse_ipv4-dotted a b c d ha hb hc hd =
    segment a (digits b ++ (b'.' ∷ (digits c ++ (b'.' ∷ digits d)))) [] ha (omega arith)
    ∙ segment b (digits c ++ (b'.' ∷ digits d)) (a ∷ []) hb (omega arith)
    ∙ segment c (digits d) (a ∷ b ∷ []) hc (omega arith)
    ∙ last_segment d (a ∷ b ∷ c ∷ []) hd refl

-- An address that is written in decimal, of four octets up to 255, counts as private in the
-- three private ranges, and as APIPA in 169.254.
pub private-dotted :
    (a b c d : ℕ)
    → a ≤ 255
    → b ≤ 255
    → c ≤ 255
    → d ≤ 255
    → (looks_like_private_ipv4 (dotted a b c d)
        ≡ (a == 10 || (a == 172 && leb 16 b && leb b 31) || (a == 192 && b == 168)))
      × (looks_like_apipa (dotted a b c d) ≡ (a == 169 && b == 254))
unfolding looks_like_private_ipv4 looks_like_apipa
private-dotted a b c d ha hb hc hd = rw (parse_ipv4-dotted a b c d ha hb hc hd) (refl, refl)
