-- ===== src/Network/Ipv4.antt =====
-- core/network/endpoint_selection: the parser of dotted addresses. Texts are lists of codes.
pub mod RoundTrip
use p2p_desktop_share_new.Base.{
  ℕ, zero, suc, ◌+◌, ◌-◌, ◌*◌, ◌/◌, ◌%◌, ◌≤◌, ◌<◌, ◌==◌, leb, ltb, Bool, true, false, not, ◌&&◌,
  ◌||◌, Option, none, some, List, [], ◌∷◌, ◌++◌, if◌then◌else◌, length, ◌≡◌, refl, sym, ap, subst,
  ◌∙◌, arith, All, All-append,
}
use p2p_desktop_share_new.Base.Text.{Text}
use p2p_desktop_share_new.Base.Decimal.{is_digit, number_of}

-- `parse_octet` reads a number with `std::stoul`; one that does not fit into an unsigned long is
-- above 255 as well, so that its exception and the test have one result.
abbrev pub parse_octet : Text → Option ℕ
parse_octet segment = let n = number_of 0 segment in if leb n 255 then some n else none

-- The end of a segment: `none` where the loop returns early.
pub end_segment : List ℕ → Text → Option (List ℕ)
end_segment octets [] = none
end_segment octets (c ∷ current) = elim (parse_octet (c ∷ current)) [
  | none ↦ none
  | some n ↦ some (octets ++ n ∷ [])
]

-- The loop of `ParseIpv4`; the length of `octets` is the index. At the end the index must be 3.
pub parse_loop : Text → List ℕ → Text → Option (List ℕ)
parse_loop [] octets current = if length octets == 3 then end_segment octets current else none
parse_loop (c ∷ value) octets current =
    let more = parse_loop value octets (current ++ c ∷ []) in
    if c == b'.'
    then (if leb 4 (length octets) then none else elim (end_segment octets current) [
      | none ↦ none
      | some octets' ↦ parse_loop value octets' []
    ])
    else if is_digit c
    then more
    else none

pub parse_ipv4 : Text → Option (List ℕ)
parse_ipv4 value = parse_loop value [] []

abbrev pub in_private : List ℕ → Bool
in_private (a ∷ b ∷ rest) = a == 10 || (a == 172 && leb 16 b && leb b 31) || (a == 192 && b == 168)
in_private octets = false

abbrev pub in_apipa : List ℕ → Bool
in_apipa (a ∷ b ∷ rest) = a == 169 && b == 254
in_apipa octets = false

abbrev pub holds_of : (List ℕ → Bool) → Option (List ℕ) → Bool
holds_of test none = false
holds_of test (some octets) = test octets

pub looks_like_private_ipv4 : Text → Bool
looks_like_private_ipv4 value = holds_of in_private (parse_ipv4 value)

pub looks_like_apipa : Text → Bool
looks_like_apipa value = holds_of in_apipa (parse_ipv4 value)

-- An octet in decimal.
abbrev pub digits : ℕ → Text
digits n =
    if ltb n 10
    then (48 + n) ∷ []
    else if ltb n 100
    then (48 + n / 10) ∷ (48 + n % 10) ∷ []
    else (48 + n / 100) ∷ (48 + n / 10 % 10) ∷ (48 + n % 10) ∷ []

abbrev pub dotted : ℕ → ℕ → ℕ → ℕ → Text
dotted a b c d = digits a ++ (b'.' ∷ (digits b ++ (b'.' ∷ (digits c ++ (b'.' ∷ digits d)))))
