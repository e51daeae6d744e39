-- ===== src/Server/Router/Routes.antt =====
-- The tests of `HttpRouter::MapPath` for the web manifests and the service workers.
use p2p_desktop_share_new.Base.{
  true, false, [], ◌++◌, if◌then◌else◌, ◌≡◌, inl, inr, refl, Bool-cases, sym, subst, ◌∙◌,
}
use p2p_desktop_share_new.Base.Text.{Text, codes, text_eq, starts_with, text_eq_sound}
use p2p_desktop_share_new.Server.Router.{HttpRouter, map_www}

-- A target with another start is not the literal.
other_text : (p l t : Text) → starts_with p l ≡ true → starts_with p t ≡ false → text_eq t l ≡ false
other_text p l t a b = elim (Bool-cases (text_eq t l)) [
  | inl e ↦
      let bad : true ≡ false =
        sym a ∙ subst (λ x. starts_with p x ≡ false) (text_eq_sound t l e) b in
      cc
  | inr n ↦ n
]

-- What is left of `map_www` without the tests for "/host-app.webmanifest", "/host-sw.js",
-- "/viewer-app.webmanifest" and "/viewer-sw.js".
abbrev pub pages_and_assets : HttpRouter → Text → Text
pages_and_assets r t =
    if starts_with (codes "/host") t
    then r.www_root ++ codes "/host.html"
    else if starts_with (codes "/view") t
    then r.www_root ++ codes "/viewer.html"
    else if starts_with (codes "/assets/") t
    then r.www_root ++ t
    else []

-- Every target is mapped as it would be without the four tests for the web manifests and the
-- service workers, which are never reached: each of their targets begins with "/host" or
-- "/view".
pub map_www-pages : (r : HttpRouter) (t : Text) → map_www r t ≡ pages_and_assets r t
unfolding map_www starts_with
map_www-pages r t = elim (Bool-cases (starts_with (codes "/host") t)) [
  | inl y ↦ rw y refl
  | inr n ↦ elim (Bool-cases (starts_with (codes "/view") t)) [
    | inl y ↦ rw (n, y) refl
    | inr m ↦
        rw
          (
            n,
            m,
            other_text (codes "/host") (codes "/host-app.webmanifest") t refl n,
            other_text (codes "/host") (codes "/host-sw.js") t refl n,
            other_text (codes "/view") (codes "/viewer-app.webmanifest") t refl m,
            other_text (codes "/view") (codes "/viewer-sw.js") t refl m,
          )
          refl
  ]
]
