-- ===== src/I18n/Codes.antt =====
-- The codes that normalising gives (localization.h).
use p2p_desktop_share_new.Base.{Bool, true, List, [], ◌∷◌, All, ◌≡◌, refl, if-both}
use p2p_desktop_share_new.Base.Text.{Text, codes, text_eq, starts_with}
use p2p_desktop_share_new.I18n.{
  first_code, locale_rows, to_lower_ascii, any_of, normalize_locale_code, supported_locales,
  is_supported_locale,
}

first_code-cases {κ} :
    (P : Text → Type κ) (rows : List (Bool × Text)) (otherwise : Text)
    → All (λ row. P row.1) rows
    → P otherwise
    → P (first_code rows otherwise)
first_code-cases P [] otherwise none_left last = last
first_code-cases P ((holds, code) ∷ rows) otherwise (here, more) last =
    if-both P holds code (first_code rows otherwise) (λ e. here)
      (λ e. first_code-cases P rows otherwise more last)

-- What holds of the seven codes holds of what normalising gives.
pub normalize-cases {κ} :
    (P : Text → Type κ) (raw : Text) → All P supported_locales → P (normalize_locale_code raw)
unfolding normalize_locale_code
normalize-cases P raw (en, (zh_cn, (zh_tw, (ko, (ja, (de, (ru, none_left))))))) =
    first_code-cases P (locale_rows (to_lower_ascii raw)) (codes "en")
      (en, (en, (zh_cn, (zh_tw, (ko, (ja, (de, (ru, tt)))))))) en

-- Normalising a code that was normalised changes nothing, and every text counts as a supported
-- locale, since the test normalises it first.
pub normalize-fixed_and_supported :
    (raw : Text)
    → (normalize_locale_code (normalize_locale_code raw) ≡ normalize_locale_code raw)
      × (is_supported_locale raw ≡ true)
unfolding is_supported_locale normalize_locale_code to_lower_ascii text_eq starts_with
normalize-fixed_and_supported raw = (
  normalize-cases (λ code. normalize_locale_code code ≡ code) raw fixed,
  normalize-cases (λ code. any_of (text_eq code) supported_locales ≡ true) raw listed,
)
  where
    fixed : All (λ code. normalize_locale_code code ≡ code) supported_locales
    fixed = (refl, (refl, (refl, (refl, (refl, (refl, (refl, tt)))))))

    listed : All (λ code. any_of (text_eq code) supported_locales ≡ true) supported_locales
    listed = (refl, (refl, (refl, (refl, (refl, (refl, (refl, tt)))))))
