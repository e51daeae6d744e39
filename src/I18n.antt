-- ===== src/I18n.antt =====
-- core/i18n/localization.h: the codes of the locales and the `lang` parameter of a URL. Texts are
-- lists of codes.
pub mod Codes
pub mod Parts
pub mod Query
mod Tests
use p2p_desktop_share_new.Base.{
  ℕ, ◌+◌, ◌==◌, leb, Bool, true, false, not, ◌&&◌, ◌||◌, List, [], ◌∷◌, ◌++◌, map, if◌then◌else◌,
}
use p2p_desktop_share_new.Base.Text.{Text, codes, text_eq, starts_with}

-- `ToLowerAscii`.
abbrev pub lower_code : ℕ → ℕ
lower_code c = if leb b'A' c && leb c b'Z' then c + 32 else if c == b'_' then b'-' else c

unfoldable pub to_lower_ascii : Text → Text
to_lower_ascii value = map lower_code value

abbrev pub any_of : (Text → Bool) → List Text → Bool
any_of test [] = false
any_of test (t ∷ ts) = test t || any_of test ts

-- `lower == a || ... || lower.rfind(b, 0) == 0 || ...`.
abbrev pub one_of : Text → List Text → List Text → Bool
one_of lower names prefixes =
    any_of (text_eq lower) names || any_of (λ p. starts_with p lower) prefixes

-- The code of the first test that holds.
abbrev pub first_code : List (Bool × Text) → Text → Text
first_code [] otherwise = otherwise
first_code ((holds, code) ∷ rows) otherwise = if holds then code else first_code rows otherwise

-- The `if`s of `NormalizeLocaleCode`.
abbrev pub locale_rows : Text → List (Bool × Text)
locale_rows lower =
    (text_eq lower [], codes "en")
    ∷ (one_of lower (codes "en" ∷ []) (codes "en-" ∷ []), codes "en")
    ∷ (
      one_of lower (codes "zh" ∷ codes "zh-cn" ∷ codes "zh-sg" ∷ codes "zh-hans" ∷ [])
          (codes "zh-cn-" ∷ codes "zh-sg-" ∷ codes "zh-hans-" ∷ []),
      codes "zh-CN",
    )
    ∷ (
      one_of lower (codes "zh-tw" ∷ codes "zh-hk" ∷ codes "zh-mo" ∷ codes "zh-hant" ∷ [])
          (codes "zh-tw-" ∷ codes "zh-hk-" ∷ codes "zh-mo-" ∷ codes "zh-hant-" ∷ []),
      codes "zh-TW",
    )
    ∷ (one_of lower (codes "ko" ∷ []) (codes "ko-" ∷ []), codes "ko")
    ∷ (one_of lower (codes "ja" ∷ []) (codes "ja-" ∷ []), codes "ja")
    ∷ (one_of lower (codes "de" ∷ []) (codes "de-" ∷ []), codes "de")
    ∷ (one_of lower (codes "ru" ∷ []) (codes "ru-" ∷ []), codes "ru")
    ∷ []

-- `NormalizeLocaleCode`.
unfoldable pub normalize_locale_code : Text → Text
normalize_locale_code raw = first_code (locale_rows (to_lower_ascii raw)) (codes "en")

-- `SupportedLocales`.
abbrev pub supported_locales : List Text
supported_locales =
    codes "en"
    ∷ codes "zh-CN"
    ∷ codes "zh-TW"
    ∷ codes "ko"
    ∷ codes "ja"
    ∷ codes "de"
    ∷ codes "ru"
    ∷ []

-- `IsSupportedLocale`, whose comparisons are with the codes of `SupportedLocales` in their order.
unfoldable pub is_supported_locale : Text → Bool
is_supported_locale value = any_of (text_eq (normalize_locale_code value)) supported_locales

-- `substr` up to and from the first place of a code; without it, the whole text and nothing.
unfoldable pub before : ℕ → Text → Text
before stop [] = []
before stop (c ∷ text) = let rest = before stop text in if c == stop then [] else c ∷ rest

unfoldable pub from : ℕ → Text → Text
from start [] = []
from start (c ∷ text) = let rest = from start text in if c == start then c ∷ text else rest

-- The parts of a query between the ampersands.
abbrev pub onto_first : ℕ → List Text → List Text
onto_first c [] = (c ∷ []) ∷ []
onto_first c (part ∷ parts) = (c ∷ part) ∷ parts

unfoldable pub parts_of : Text → List Text
parts_of [] = [] ∷ []
parts_of (c ∷ query) =
    let rest = parts_of query in if c == b'&' then [] ∷ rest else onto_first c rest

abbrev pub is_kept : Text → Bool
is_kept part = not (text_eq part []) && not (starts_with (codes "lang=") part)

unfoldable pub kept_parts : List Text → List Text
kept_parts [] = []
kept_parts (part ∷ parts) =
    let rest = kept_parts parts in if is_kept part then part ∷ rest else rest

-- The parts with ampersands between them.
abbrev pub more_parts : List Text → Text
more_parts [] = []
more_parts (part ∷ parts) = b'&' ∷ (part ++ more_parts parts)

abbrev pub join_parts : List Text → Text
join_parts [] = []
join_parts (part ∷ parts) = part ++ more_parts parts

-- `if (back() == '?') pop_back()`.
unfoldable pub drop_question : Text → Text
drop_question [] = []
drop_question (c ∷ []) = if c == b'?' then [] else c ∷ []
drop_question (c ∷ d ∷ text) = c ∷ drop_question (d ∷ text)

abbrev pub rebuilt : Text → Text → Text
rebuilt value [] = value
rebuilt value (question ∷ query) =
    drop_question (before b'?' value ++ (b'?' ∷ join_parts (kept_parts (parts_of query))))

-- The lambda `removeExisting`.
unfoldable pub remove_existing : Text → Text
remove_existing value = rebuilt value (from b'?' value)

abbrev pub separator : Text → Text
separator [] = b'?' ∷ []
separator (question ∷ query) = b'&' ∷ []

-- `AppendLocaleQuery`.
unfoldable pub append_locale_query : Text → Text → Text
append_locale_query url locale =
    let base = remove_existing (before b'#' url) in
    let with_locale =
      base ++ (separator (from b'?' base) ++ (codes "lang=" ++ normalize_locale_code locale)) in
    if not (is_supported_locale (normalize_locale_code locale)) || text_eq url []
    then url
    else with_locale ++ from b'#' url
