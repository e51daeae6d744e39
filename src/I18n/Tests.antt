-- ===== src/I18n/Tests.antt =====
-- Locale codes and the `lang` parameter on small texts.
use p2p_desktop_share_new.Base.{◌≡◌, refl}
use p2p_desktop_share_new.Base.Text.{codes, text_eq, starts_with}
use p2p_desktop_share_new.I18n.{
  normalize_locale_code, to_lower_ascii, append_locale_query, is_supported_locale, before, from,
  remove_existing, parts_of, kept_parts, drop_question,
}

traditional : normalize_locale_code (codes "zh_HK-x") ≡ codes "zh-TW"
unfolding normalize_locale_code to_lower_ascii text_eq starts_with
traditional = refl

-- The question mark at the end of a value is lost.
question_lost :
    append_locale_query (codes "http://h/?q=a?") (codes "de") ≡ codes "http://h/?q=a&lang=de"
unfolding append_locale_query is_supported_locale normalize_locale_code to_lower_ascii text_eq
    starts_with before from remove_existing parts_of kept_parts drop_question
question_lost = refl
