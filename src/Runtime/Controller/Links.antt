-- ===== src/Runtime/Controller/Links.antt =====
-- The locale of a session's links (runtime_controller.cpp).
use p2p_desktop_share_new.Base.{
  ℕ, suc, true, ◌≤◌, ◌⊎◌, inl, inr, All-map, [], ◌∷◌, ◌++◌, All-append, append_assoc, append-nil,
  ◌≡◌, ◌≢◌, refl, sym, ap, ◌∙◌, arith, if-both,
}
use p2p_desktop_share_new.Base.Text.{Text, codes, text_eq, starts_with}
use p2p_desktop_share_new.Base.Int.{ℤ, pos, negsuc}
use p2p_desktop_share_new.Base.Decimal.{is_digit, decimal, decimal-Digits, print_int}
use p2p_desktop_share_new.I18n.{append_locale_query, is_kept}
use p2p_desktop_share_new.I18n.Parts.{Part, Without, url_of, free_of, free_of-Without, append-some}
use p2p_desktop_share_new.I18n.Query.{append_locale_query-replaces}
use p2p_desktop_share_new.Runtime.Controller.{
  RuntimeSessionState, viewer_host_or_loopback, link, build_viewer_url,
}

-- The link as a path and two parts.
link-url_of :
    (host page : Text) (session : RuntimeSessionState)
    → link host page session
      ≡ url_of
          (codes "http://" ++ (host ++ (b':' ∷ (print_int session.port ++ page))))
          ((codes "room=" ++ session.room) ∷ (codes "token=" ++ session.token) ∷ [])
link-url_of host page session =
    let front = codes "http://" in
    let middle = b':' ∷ (print_int session.port ++ page) in
    let query = codes "?room=" ++ (session.room ++ (codes "&token=" ++ (session.token ++ []))) in
    ap
      (λ t.
        front
        ++ (host
            ++ (b':'
                ∷ (print_int session.port
                    ++ (page ++ (codes "?room=" ++ (session.room ++ (codes "&token=" ++ t))))))))
      (sym (append-nil session.token))
    ∙ ap (λ t. front ++ (host ++ (b':' ∷ t)))
        (sym (append_assoc (print_int session.port) page query))
    ∙ ap (λ t. front ++ t) (sym (append_assoc host middle query))

digit-Without : (c : ℕ) (n : ℕ) → (c ≤ 44) ⊎ (58 ≤ c) → Without c (decimal n)
digit-Without c n out =
    All-map (λ d. is_digit d ≡ true) (λ d. d ≢ c) (λ d digit. differs d digit) (decimal n)
      (decimal-Digits n)
  where
    differs : (d : ℕ) → is_digit d ≡ true → d ≢ c
    differs d digit = elim out [ inl low ↦ ground arith | inr high ↦ ground arith ]

print_int-Without : (c : ℕ) (port : ℤ) → (c ≤ 44) ⊎ (58 ≤ c) → Without c (print_int port)
print_int-Without c (pos n) out = digit-Without c n out
print_int-Without c (negsuc n) out =
    (elim out [ inl low ↦ omega arith | inr high ↦ omega arith ], digit-Without c (suc n) out)

-- None of the codes that end a part of a query or the query.
abbrev pub Clean : Text → Type 0
Clean text = Without b'&' text × Without b'?' text × Without b'#' text

room_kept : (room : Text) → is_kept (codes "room=" ++ room) ≡ true
unfolding starts_with text_eq
room_kept room = refl

token_kept : (token : Text) → is_kept (codes "token=" ++ token) ≡ true
unfolding starts_with text_eq
token_kept token = refl

-- A part that is a name and a value.
named-Part :
    (name value : Text)
    → name ≢ []
    → free_of b'&' name ≡ true
    → free_of b'?' name ≡ true
    → free_of b'#' name ≡ true
    → Clean value
    → Part (name ++ value)
named-Part name value some_name amp question fragment (v_amp, v_question, v_fragment) = (
  append-some name value some_name,
  All-append (λ d. d ≢ b'&') name value (free_of-Without b'&' name amp) v_amp,
  All-append (λ d. d ≢ b'?') name value (free_of-Without b'?' name question) v_question,
  All-append (λ d. d ≢ b'#') name value (free_of-Without b'#' name fragment) v_fragment,
)

abbrev path_of : Text → Text → ℤ → Text
path_of host page port = codes "http://" ++ (host ++ (b':' ∷ (print_int port ++ page)))

path_of-Without :
    (c : ℕ) (host page : Text) (port : ℤ)
    → (c ≤ 44) ⊎ (58 ≤ c)
    → free_of c (codes "http://") ≡ true
    → free_of c page ≡ true
    → b':' ≢ c
    → Without c host
    → Without c (path_of host page port)
path_of-Without c host page port out http_free page_free colon host_free =
    All-append (λ d. d ≢ c) (codes "http://") (host ++ (b':' ∷ (print_int port ++ page)))
      (free_of-Without c (codes "http://") http_free)
      (All-append (λ d. d ≢ c) host (b':' ∷ (print_int port ++ page)) host_free
        (
          colon,
          All-append (λ d. d ≢ c) (print_int port) page (print_int-Without c port out)
              (free_of-Without c page page_free),
        ))

viewer_host-Without :
    (c : ℕ) (session : RuntimeSessionState)
    → free_of c (codes "127.0.0.1") ≡ true
    → Without c session.host_ip
    → Without c (viewer_host_or_loopback session)
viewer_host-Without c session loopback host =
    if-both (Without c) (text_eq session.host_ip []) _ _
      (λ e. free_of-Without c (codes "127.0.0.1") loopback) (λ e. host)

-- For a session whose room and token have none of `&`, `?` and `#` and whose address has neither
-- `?` nor `#`: putting another locale on the viewer link gives the viewer link of the session in
-- that locale.
pub build_viewer_url-relocales :
    (session : RuntimeSessionState) (locale : Text)
    → Without b'?' session.host_ip
    → Without b'#' session.host_ip
    → Clean session.room
    → Clean session.token
    → append_locale_query (build_viewer_url session) locale
      ≡ build_viewer_url (record session { locale_code = locale })
unfolding build_viewer_url free_of
build_viewer_url-relocales session locale no_question no_fragment room token =
    let host = viewer_host_or_loopback session in
    let path = path_of host (codes "/view") session.port in
    let same = link-url_of host (codes "/view") session in
    let replaces =
      append_locale_query-replaces path (codes "room=" ++ session.room)
        ((codes "token=" ++ session.token) ∷ []) session.locale_code locale
        (path_of-Without b'?' host (codes "/view") session.port (inr (omega arith)) refl refl
          (omega arith) (viewer_host-Without b'?' session refl no_question))
        (path_of-Without b'#' host (codes "/view") session.port (inl (omega arith)) refl refl
          (omega arith) (viewer_host-Without b'#' session refl no_fragment))
        (
          named-Part (codes "room=") session.room (λ e. cc) refl refl refl room,
          (named-Part (codes "token=") session.token (λ e. cc) refl refl refl token, tt),
        )
        (room_kept session.room, (token_kept session.token, tt)) in
    ap (λ u. append_locale_query (append_locale_query u session.locale_code) locale) same
    ∙ replaces.1
    ∙ ap (λ u. append_locale_query u locale) (sym same)
