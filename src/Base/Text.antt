-- ===== src/Base/Text.antt =====
-- Text that the program walks: a list of character codes, with `std::string`'s searches.
use Prim.Native.Char.{code}
use Prim.Native.Nat.{ℕ, ◌+◌, ◌≤◌}
use Prim.Native.String.{String}
use mathlib.Core.Path.{◌≡◌, refl, sym, ap, ◌∙◌}
use mathlib.Core.Logic.{◌≢◌, inl, inr}
use mathlib.Core.Option.{Option, none, some}
use mathlib.Core.Bool.{Bool, true, false, ◌&&◌, ◌||◌}
use mathlib.Core.List.{List, [], ◌∷◌, ◌++◌}
use native.Mathlib.Omega.{arith}
use p2p_desktop_share_new.Base.Tests.{◌==◌, leb, if◌then◌else◌, Bool-cases}
use p2p_desktop_share_new.Base.Lists.{All, length, length-append, append_assoc}

abbrev pub Text : Type 0
Text = List ℕ

-- The codes of a literal; `String` has its own `[]` and `∷`.
abbrev pub codes : String → Text
codes String.[] = []
codes (String.◌∷◌ c s) = code c ∷ codes s

unfoldable pub text_eq : Text → Text → Bool
text_eq [] [] = true
text_eq [] (d ∷ t) = false
text_eq (c ∷ s) [] = false
text_eq (c ∷ s) (d ∷ t) = c == d && text_eq s t

pub text_eq_sound : (s t : Text) → text_eq s t ≡ true → s ≡ t
unfolding text_eq
text_eq_sound [] [] e = refl
text_eq_sound [] (d ∷ t) e = cc
text_eq_sound (c ∷ s) [] e = cc
text_eq_sound (c ∷ s) (d ∷ t) e = ground (arith, text_eq_sound s t)

pub text_eq_refl : (s : Text) → text_eq s s ≡ true
unfolding text_eq
text_eq_refl [] = refl
text_eq_refl (c ∷ s) = ground (arith, text_eq_refl s)

-- `t.rfind(p, 0) == 0`.
unfoldable pub starts_with : Text → Text → Bool
starts_with [] t = true
starts_with (c ∷ p) [] = false
starts_with (c ∷ p) (d ∷ t) = c == d && starts_with p t

pub starts_with_sound : (p t : Text) → starts_with p t ≡ true → (rest : Text) × (t ≡ p ++ rest)
unfolding starts_with
starts_with_sound [] t e = (t, refl)
starts_with_sound (c ∷ p) [] e = cc
starts_with_sound (c ∷ p) (d ∷ t) e =
    let (rest, same) = starts_with_sound p t (ground arith) in (rest, ground (arith, same))

pub starts_with-append : (p rest : Text) → starts_with p (p ++ rest) ≡ true
unfolding starts_with
starts_with-append [] rest = refl
starts_with-append (c ∷ p) rest = ground (arith, starts_with-append p rest)

-- A prefix of a prefix.
pub starts_with_trans :
    (p q t : Text) → starts_with p q ≡ true → starts_with q t ≡ true → starts_with p t ≡ true
unfolding starts_with
starts_with_trans [] q t a b = refl
starts_with_trans (c ∷ p) [] t a b = cc
starts_with_trans (c ∷ p) (d ∷ q) [] a b = cc
starts_with_trans (c ∷ p) (d ∷ q) (e ∷ t) a b = ground (arith, starts_with_trans p q t)

-- `t.find(p) != npos`.
unfoldable pub contains : Text → Text → Bool
contains p [] = starts_with p []
contains p (c ∷ t) = starts_with p (c ∷ t) || contains p t

-- What a text does not contain, none of its ends contains.
pub contains-drop : (p s t : Text) → contains p (s ++ t) ≡ false → contains p t ≡ false
unfolding contains
contains-drop p [] t e = e
contains-drop p (c ∷ s) t e = contains-drop p s t (ground arith)

unfoldable pub ends_with : Text → Text → Bool
ends_with s [] = text_eq s []
ends_with s (c ∷ t) = text_eq s (c ∷ t) || ends_with s t

-- The text without as many codes as the pattern has.
abbrev pub drop : Text → Text → Text
drop [] t = t
drop (c ∷ p) [] = []
drop (c ∷ p) (d ∷ t) = drop p t

-- The part of the text behind the first place where the pattern stands; `find` with `npos` as `none`.
unfoldable pub find_after : Text → Text → Option Text
find_after p [] = if starts_with p [] then some [] else none
find_after p (c ∷ t) =
    let later = find_after p t in if starts_with p (c ∷ t) then some (drop p (c ∷ t)) else later

drop-append : (p t : Text) → drop p (p ++ t) ≡ t
drop-append [] t = refl
drop-append (c ∷ p) t = drop-append p t

starts_with-other :
    (c : ℕ) (p : Text) (d : ℕ) (t : Text) → d ≢ c → starts_with (c ∷ p) (d ∷ t) ≡ false
unfolding starts_with
starts_with-other c p d t other = ground (arith, other)

-- A pattern is found behind a text that does not have its first code.
pub find_after-append :
    (c : ℕ) (p front rest : Text)
    → All (λ d. d ≢ c) front
    → find_after (c ∷ p) (front ++ ((c ∷ p) ++ rest)) ≡ some rest
unfolding find_after
find_after-append c p [] rest none_left =
    rw (starts_with-append (c ∷ p) rest, drop-append p rest) refl
find_after-append c p (d ∷ front) rest (other, more) =
    rw (starts_with-other c p d (front ++ ((c ∷ p) ++ rest)) other)
      (find_after-append c p front rest more)

-- Whether a text of at least the pattern's length starts with it does not depend on what follows.
starts_with-longer : (p s t : Text) → length p ≤ length s → starts_with p (s ++ t) ≡ starts_with p s
unfolding starts_with
starts_with-longer [] s t enough = refl
starts_with-longer (c ∷ p) [] t enough = absurd (omega arith)
starts_with-longer (c ∷ p) (d ∷ s) t enough =
    ap (λ b. c == d && b) (starts_with-longer p s t (omega arith))

find_after-none :
    (p : Text) (c : ℕ) (t : Text)
    → find_after p (c ∷ t) ≡ none
    → (starts_with p (c ∷ t) ≡ false) × (find_after p t ≡ none)
unfolding find_after
find_after-none p c t e = elim (Bool-cases (starts_with p (c ∷ t))) [
  | inl found ↦ let bad : some (drop p (c ∷ t)) ≡ none = rw found at e in cc
  | inr other ↦ (other, rw other at e)
]

-- A pattern of a body and a last code is found behind a front, if it does not stand in the front
-- or begin in it, which is: if it does not stand in the front with its body behind.
pub find_after-behind :
    (body : Text) (last : ℕ) (front rest : Text)
    → find_after (body ++ (last ∷ [])) (front ++ body) ≡ none
    → find_after (body ++ (last ∷ [])) (front ++ ((body ++ (last ∷ [])) ++ rest)) ≡ some rest
unfolding find_after
find_after-behind [] last [] rest e = find_after-append last [] [] rest tt
find_after-behind (b ∷ body) last [] rest e = find_after-append b (body ++ (last ∷ [])) [] rest tt
find_after-behind body last (c ∷ front) rest e =
    let (other, later) = find_after-none (body ++ (last ∷ [])) c (front ++ body) e in
    let same =
      ap (λ t. front ++ t) (append_assoc body (last ∷ []) rest)
      ∙ sym (append_assoc front body (last ∷ rest)) in
    let size = length-append body (last ∷ []) in
    let sizes = length-append front body in
    let not_here =
      ap (λ t. starts_with (body ++ (last ∷ [])) (c ∷ t)) same
      ∙ starts_with-longer (body ++ (last ∷ [])) (c ∷ (front ++ body)) (last ∷ rest) (omega arith)
      ∙ other in
    rw not_here (find_after-behind body last front rest later)

-- Blanks at the front are skipped; `iswspace` in the "C" locale.
abbrev pub is_space : ℕ → Bool
is_space c = c == 32 || (leb 9 c && leb c 13)

unfoldable pub skip_space : Text → Text
skip_space [] = []
skip_space (c ∷ t) = let rest = skip_space t in if is_space c then rest else c ∷ t

-- `towlower` in the "C" locale.
abbrev pub fold_case : ℕ → ℕ
fold_case c = if leb 65 c && leb c 90 then c + 32 else c
