-- ===== src/I18n/Parts.antt =====
-- Queries as lists of parts, for the functions of localization.h on URLs.
use p2p_desktop_share_new.Base.{
  Bool, true, not, ◌&&◌, ◌==◌, ℕ, ◌==◌, true, false, List, [], ◌∷◌, ◌++◌, All, All-append, All-map,
  append_assoc, append-nil, ◌≡◌, ◌≢◌, refl, sym, ap, ◌∙◌, arith,
}
use p2p_desktop_share_new.Base.Text.{Text, codes, text_eq}
use p2p_desktop_share_new.I18n.{
  normalize_locale_code, before, from, onto_first, parts_of, more_parts, join_parts, drop_question,
}

-- No code of the text is the given one.
abbrev pub Without : ℕ → Text → Type 0
Without c text = All (λ d. d ≢ c) text

pub before-append :
    (c : ℕ) (front back : Text) → Without c front → before c (front ++ (c ∷ back)) ≡ front
unfolding before
before-append c [] back none_left = ground arith
before-append c (d ∷ front) back (other, more) =
    let differs : (d == c) ≡ false = ground (arith, other) in
    rw differs (ap (λ t. d ∷ t) (before-append c front back more))

pub from-append :
    (c : ℕ) (front back : Text) → Without c front → from c (front ++ (c ∷ back)) ≡ c ∷ back
unfolding from
from-append c [] back none_left = let same : (c == c) ≡ true = ground arith in rw same refl
from-append c (d ∷ front) back (other, more) =
    let differs : (d == c) ≡ false = ground (arith, other) in
    rw differs (from-append c front back more)

pub before-Without : (c : ℕ) (text : Text) → Without c text → before c text ≡ text
unfolding before
before-Without c [] none_left = refl
before-Without c (d ∷ text) (other, more) =
    let differs : (d == c) ≡ false = ground (arith, other) in
    rw differs (ap (λ t. d ∷ t) (before-Without c text more))

pub from-Without : (c : ℕ) (text : Text) → Without c text → from c text ≡ []
unfolding from
from-Without c [] none_left = refl
from-Without c (d ∷ text) (other, more) =
    let differs : (d == c) ≡ false = ground (arith, other) in rw differs (from-Without c text more)

-- A part of a query: without the codes that end it, and not empty.
abbrev pub Part : Text → Type 0
Part text = (text ≢ []) × Without b'&' text × Without b'?' text × Without b'#' text

pub parts_of-more :
    (part : Text) (parts : List Text)
    → Without b'&' part
    → All (Without b'&') parts
    → parts_of (part ++ more_parts parts) ≡ part ∷ parts
unfolding parts_of
parts_of-more [] [] clean none_left = refl
parts_of-more [] (next ∷ parts) clean (next_clean, more) =
    ap (λ ps. [] ∷ ps) (parts_of-more next parts next_clean more)
parts_of-more (c ∷ part) parts (other, clean) cleans =
    let differs : (c == b'&') ≡ false = ground (arith, other) in
    rw differs (ap (onto_first c) (parts_of-more part parts clean cleans))

more_parts-Without :
    (c : ℕ) (parts : List Text) → b'&' ≢ c → All (Without c) parts → Without c (more_parts parts)
more_parts-Without c [] other none_left = tt
more_parts-Without c (part ∷ parts) other (clean, more) = (
  other,
  All-append (λ d. d ≢ c) part (more_parts parts) clean (more_parts-Without c parts other more),
)

pub join_parts-Without :
    (c : ℕ) (parts : List Text) → b'&' ≢ c → All (Without c) parts → Without c (join_parts parts)
join_parts-Without c [] other none_left = tt
join_parts-Without c (part ∷ parts) other (clean, more) =
    All-append (λ d. d ≢ c) part (more_parts parts) clean (more_parts-Without c parts other more)

more_parts-snoc :
    (parts : List Text) (last : Text)
    → more_parts (parts ++ last ∷ []) ≡ more_parts parts ++ (b'&' ∷ last)
more_parts-snoc [] last = ap (λ t. b'&' ∷ t) (append-nil last)
more_parts-snoc (part ∷ parts) last =
    ap (λ t. b'&' ∷ (part ++ t)) (more_parts-snoc parts last)
    ∙ ap (λ t. b'&' ∷ t) (sym (append_assoc part (more_parts parts) (b'&' ∷ last)))

drop_question-clean : (text : Text) → Without b'?' text → drop_question text ≡ text
unfolding drop_question
drop_question-clean [] clean = refl
drop_question-clean (c ∷ []) (other, clean) =
    let differs : (c == b'?') ≡ false = ground (arith, other) in rw differs refl
drop_question-clean (c ∷ d ∷ text) (other, clean) =
    ap (λ t. c ∷ t) (drop_question-clean (d ∷ text) clean)

drop_question-append :
    (front : Text) (c : ℕ) (back : Text)
    → Without b'?' (c ∷ back)
    → drop_question (front ++ (c ∷ back)) ≡ front ++ (c ∷ back)
unfolding drop_question
drop_question-append [] c back clean = drop_question-clean (c ∷ back) clean
drop_question-append (d ∷ []) c back clean = ap (λ t. d ∷ t) (drop_question-clean (c ∷ back) clean)
drop_question-append (d ∷ e ∷ front) c back clean =
    ap (λ t. d ∷ t) (drop_question-append (e ∷ front) c back clean)

pub drop_question-query :
    (front query : Text)
    → query ≢ []
    → Without b'?' query
    → drop_question (front ++ (b'?' ∷ query)) ≡ front ++ (b'?' ∷ query)
drop_question-query front [] some_query clean = absurd (some_query refl)
drop_question-query front (c ∷ query) some_query clean =
    let same = append_assoc front (b'?' ∷ []) (c ∷ query) in
    ap drop_question (sym same) ∙ drop_question-append (front ++ b'?' ∷ []) c query clean ∙ same

pub append-some : (front back : Text) → front ≢ [] → front ++ back ≢ []
append-some [] back some_front = absurd (some_front refl)
append-some (c ∷ front) back some_front = λ e. cc

-- A path, a question mark and the parts of the query.
abbrev pub url_of : Text → List Text → Text
url_of path parts = path ++ (b'?' ∷ join_parts parts)

abbrev pub lang_part : Text → Text
lang_part locale = codes "lang=" ++ normalize_locale_code locale

pub parts-Without :
    (c : ℕ) (parts : List Text)
    → ((part : Text) → Part part → Without c part)
    → All Part parts
    → All (Without c) parts
parts-Without c parts take clean = All-map Part (Without c) take parts clean

pub text_eq-some : (front : Text) (c : ℕ) (back : Text) → text_eq (front ++ (c ∷ back)) [] ≡ false
unfolding text_eq
text_eq-some [] c back = refl
text_eq-some (d ∷ front) c back = refl

-- One more part at the end of a query.
pub url_of-snoc :
    (path kept : Text) (others : List Text) (last : Text)
    → url_of path (kept ∷ others) ++ (b'&' ∷ last) ≡ url_of path ((kept ∷ others) ++ last ∷ [])
url_of-snoc path kept others last =
    append_assoc path (b'?' ∷ join_parts (kept ∷ others)) (b'&' ∷ last)
    ∙ ap (λ t. path ++ (b'?' ∷ t))
        (append_assoc kept (more_parts others) (b'&' ∷ last)
          ∙ ap (λ t. kept ++ t) (sym (more_parts-snoc others last)))

unfoldable pub free_of : ℕ → Text → Bool
free_of c [] = true
free_of c (d ∷ text) = not (d == c) && free_of c text

-- A test that a literal passes by computation.
pub free_of-Without : (c : ℕ) (text : Text) → free_of c text ≡ true → Without c text
unfolding free_of
free_of-Without c [] free = tt
free_of-Without c (d ∷ text) free = (ground arith, free_of-Without c text (ground arith))
