-- ===== src/Network/Entries.antt =====
-- core/network/endpoint_selection: trimming, and the entries of an address list.
use p2p_desktop_share_new.Base.{
  ℕ, ◌+◌, ◌==◌, leb, Bool, false, ◌&&◌, ◌||◌, List, [], ◌∷◌, ◌++◌, if◌then◌else◌, map, ◌≡◌, All,
  All-append, if-both,
}
use p2p_desktop_share_new.Base.Text.{Text, codes, text_eq}

-- `std::isspace` and `std::tolower` of the "C" locale.
abbrev pub is_space : ℕ → Bool
is_space c = c == 32 || (leb 9 c && leb c 13)

abbrev pub lower : ℕ → ℕ
lower c = if leb 65 c && leb c 90 then c + 32 else c

unfoldable pub to_lower : Text → Text
to_lower s = map lower s

-- The loop on `back()`: what is left when the blanks at the end are gone.
unfoldable pub trim_end : Text → Text
trim_end [] = []
trim_end (c ∷ s) = let rest = trim_end s in if text_eq rest [] && is_space c then [] else c ∷ rest

unfoldable pub trim_start : Text → Text
trim_start [] = []
trim_start (c ∷ s) = if is_space c then trim_start s else c ∷ s

-- `TrimNetworkText`.
unfoldable pub trim_network_text : Text → Text
trim_network_text value = trim_start (trim_end value)

-- `IsAutoEndpointValue`.
unfoldable pub is_auto_endpoint_value : Text → Bool
is_auto_endpoint_value value =
    text_eq (to_lower (trim_network_text value)) (codes "auto")
    || text_eq (trim_network_text value) []

abbrev pub is_separator : ℕ → Bool
is_separator c = c == b',' || c == b';' || c == 10 || c == 13 || c == 9

abbrev pub flush : List Text → Text → List Text
flush entries current =
    let trimmed = trim_network_text current in
    if text_eq trimmed [] then entries else entries ++ trimmed ∷ []

-- The loop of `SplitEndpointEntries`.
pub split_loop : Text → List Text → Text → List Text
split_loop [] entries current = flush entries current
split_loop (c ∷ value) entries current =
    let flushed = split_loop value (flush entries current) [] in
    let kept = split_loop value entries (current ++ c ∷ []) in
    if is_separator c then flushed else kept

unfoldable pub split_endpoint_entries : Text → List Text
split_endpoint_entries value = split_loop value [] []

-- `FirstEndpointEntryOr`.
abbrev pub first_or : List Text → Text → Text
first_or [] fallback = fallback
first_or (e ∷ entries) fallback = e

unfoldable pub first_endpoint_entry_or : Text → Text → Text
first_endpoint_entry_or value fallback = first_or (split_endpoint_entries value) fallback

flush-All :
    (entries : List Text) (current : Text)
    → All (λ e. text_eq e [] ≡ false) entries
    → All (λ e. text_eq e [] ≡ false) (flush entries current)
flush-All entries current all =
    let trimmed = trim_network_text current in
    if-both (All (λ e. text_eq e [] ≡ false)) (text_eq trimmed []) _ _ (λ y. all)
      (λ n. All-append (λ e. text_eq e [] ≡ false) entries (trimmed ∷ []) all (n, tt))

split_loop-All :
    (value : Text) (entries : List Text) (current : Text)
    → All (λ e. text_eq e [] ≡ false) entries
    → All (λ e. text_eq e [] ≡ false) (split_loop value entries current)
unfolding split_loop
split_loop-All [] entries current all = flush-All entries current all
split_loop-All (c ∷ value) entries current all =
    if-both (All (λ e. text_eq e [] ≡ false)) (is_separator c) _ _
      (λ y. split_loop-All value (flush entries current) [] (flush-All entries current all))
      (λ n. split_loop-All value entries (current ++ c ∷ []) all)

-- No entry is empty.
pub split-All : (value : Text) → All (λ e. text_eq e [] ≡ false) (split_endpoint_entries value)
unfolding split_endpoint_entries
split-All value = split_loop-All value [] [] tt

pub first_entry-full :
    (value fallback : Text)
    → text_eq fallback [] ≡ false
    → text_eq (first_endpoint_entry_or value fallback) [] ≡ false
unfolding first_endpoint_entry_or
first_entry-full value fallback full = by_entries (split_endpoint_entries value) (split-All value)
  where
    by_entries :
        (entries : List Text)
        → All (λ e. text_eq e [] ≡ false) entries
        → text_eq (first_or entries fallback) [] ≡ false
    by_entries [] all = full
    by_entries (e ∷ entries) all = all.0
