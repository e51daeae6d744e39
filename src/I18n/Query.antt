-- ===== src/I18n/Query.antt =====
-- The `lang` parameter of URLs whose query is a list of parts (localization.h).
use p2p_desktop_share_new.Base.{
  ℕ, true, false, List, [], ◌∷◌, ◌++◌, All, All-append, append-nil, ◌≡◌, ◌≢◌, refl, sym, ap, ◌∙◌,
  arith,
}
use p2p_desktop_share_new.Base.Text.{Text, codes, text_eq, starts_with}
use p2p_desktop_share_new.I18n.{
  normalize_locale_code, supported_locales, parts_of, is_kept, kept_parts, more_parts, join_parts,
  drop_question, rebuilt, remove_existing, separator, append_locale_query,
}
use p2p_desktop_share_new.I18n.Codes.{normalize-cases, normalize-fixed_and_supported}
use p2p_desktop_share_new.I18n.Parts.{
  free_of, free_of-Without, Without, before-append, from-append, before-Without, from-Without, Part,
  parts_of-more, join_parts-Without, drop_question-query, append-some, url_of, lang_part,
  parts-Without, text_eq-some, url_of-snoc,
}

module _ (path : Text) (no_question : Without b'?' path) (no_fragment : Without b'#' path) where
  url_of-Without : (parts : List Text) → All Part parts → Without b'#' (url_of path parts)
  url_of-Without parts clean =
      All-append (λ d. d ≢ b'#') path (b'?' ∷ join_parts parts) no_fragment
        (
          omega arith,
          join_parts-Without b'#' parts (omega arith) (parts-Without b'#' parts (λ p h. h.3) clean),
        )

  -- What is left of a query with the parts that are kept.
  remove_existing-url_of :
      (first : Text) (more : List Text) (kept : Text) (others : List Text)
      → All Part (first ∷ more)
      → All Part (kept ∷ others)
      → kept_parts (first ∷ more) ≡ kept ∷ others
      → remove_existing (url_of path (first ∷ more)) ≡ url_of path (kept ∷ others)
  unfolding remove_existing
  remove_existing-url_of first more kept others clean kept_clean keeps =
      let query = join_parts (first ∷ more) in
      let split =
        parts_of-more first more clean.0.1 (parts-Without b'&' more (λ p h. h.1) clean.1) in
      ap (rebuilt (url_of path (first ∷ more))) (from-append b'?' path query no_question)
      ∙ ap (λ front. drop_question (front ++ (b'?' ∷ join_parts (kept_parts (parts_of query)))))
          (before-append b'?' path query no_question)
      ∙ ap (λ ps. drop_question (path ++ (b'?' ∷ join_parts ps))) (ap kept_parts split ∙ keeps)
      ∙ drop_question-query path (join_parts (kept ∷ others))
          (append-some kept (more_parts others) kept_clean.0.0)
          (join_parts-Without b'?' (kept ∷ others) (omega arith)
            (parts-Without b'?' (kept ∷ others) (λ p h. h.2) kept_clean))

  append_locale_query-url_of :
      (first : Text) (more : List Text) (kept : Text) (others : List Text) (locale : Text)
      → All Part (first ∷ more)
      → All Part (kept ∷ others)
      → kept_parts (first ∷ more) ≡ kept ∷ others
      → append_locale_query (url_of path (first ∷ more)) locale
        ≡ url_of path ((kept ∷ others) ++ lang_part locale ∷ [])
  unfolding append_locale_query
  append_locale_query-url_of first more kept others locale clean kept_clean keeps =
      let url = url_of path (first ∷ more) in
      let base_url = url_of path (kept ∷ others) in
      let whole = url_of-Without (first ∷ more) clean in
      let base =
        ap remove_existing (before-Without b'#' url whole)
        ∙ remove_existing-url_of first more kept others clean kept_clean keeps in
      let supported = (normalize-fixed_and_supported (normalize_locale_code locale)).1 in
      let some_url : text_eq url [] ≡ false = text_eq-some path b'?' (join_parts (first ∷ more)) in
      rw (supported, some_url, from-Without b'#' url whole, base)
        (append-nil _
          ∙ ap (λ t. base_url ++ (separator t ++ lang_part locale))
              (from-append b'?' path (join_parts (kept ∷ others)) no_question)
          ∙ url_of-snoc path kept others (lang_part locale))

code-Without :
    (c : ℕ) (raw : Text)
    → All (λ code. free_of c (codes "lang=" ++ code) ≡ true) supported_locales
    → Without c (lang_part raw)
code-Without c raw free =
    free_of-Without c (lang_part raw)
      (normalize-cases (λ code. free_of c (codes "lang=" ++ code) ≡ true) raw free)

code-Part : (raw : Text) → Part (lang_part raw)
unfolding free_of
code-Part raw =
    let each : All (λ (code : Text). true ≡ true) supported_locales =
      (refl, (refl, (refl, (refl, (refl, (refl, (refl, tt))))))) in
    (λ e. cc, code-Without b'&' raw each, code-Without b'?' raw each, code-Without b'#' raw each)

kept_parts-keeps :
    (parts : List Text) (dropped : Text)
    → All (λ p. is_kept p ≡ true) parts
    → is_kept dropped ≡ false
    → kept_parts (parts ++ dropped ∷ []) ≡ parts
unfolding kept_parts
kept_parts-keeps [] dropped none_left gone = rw gone refl
kept_parts-keeps (part ∷ parts) dropped (here, more) gone =
    rw here (ap (λ ps. part ∷ ps) (kept_parts-keeps parts dropped more gone))

kept_parts-same : (parts : List Text) → All (λ p. is_kept p ≡ true) parts → kept_parts parts ≡ parts
unfolding kept_parts
kept_parts-same [] none_left = refl
kept_parts-same (part ∷ parts) (here, more) =
    rw here (ap (λ ps. part ∷ ps) (kept_parts-same parts more))

lang_part-dropped : (locale : Text) → is_kept (lang_part locale) ≡ false
unfolding starts_with text_eq
lang_part-dropped locale = refl

-- For a URL of a path without `?` and `#` and a query of one or more parts that are not empty,
-- have none of `&`, `?` and `#` and do not begin with `lang=`: a first locale adds one part
-- `lang=` with its code, and a second one replaces that part, so that the result is the same as
-- if the first had not been added.
pub append_locale_query-replaces :
    (path first : Text) (more : List Text) (locale other : Text)
    → Without b'?' path
    → Without b'#' path
    → All Part (first ∷ more)
    → All (λ p. is_kept p ≡ true) (first ∷ more)
    → let url = url_of path (first ∷ more) in
      (append_locale_query url locale ≡ url_of path ((first ∷ more) ++ lang_part locale ∷ []))
      × (append_locale_query (append_locale_query url locale) other ≡ append_locale_query url other)
append_locale_query-replaces path first more locale other no_question no_fragment clean kept =
    let once : (l : Text)
        → append_locale_query (url_of path (first ∷ more)) l
          ≡ url_of path ((first ∷ more) ++ lang_part l ∷ []) =
      λ l.
        append_locale_query-url_of path no_question no_fragment first more first more l clean clean
          (kept_parts-same (first ∷ more) kept) in
    let longer =
      All-append Part (first ∷ more) (lang_part locale ∷ []) clean (code-Part locale, tt) in
    let twice =
      append_locale_query-url_of path no_question no_fragment first (more ++ lang_part locale ∷ [])
        first more other longer clean
        (kept_parts-keeps (first ∷ more) (lang_part locale) kept (lang_part-dropped locale)) in
    (once locale, ap (λ u. append_locale_query u other) (once locale) ∙ twice ∙ sym (once other))
