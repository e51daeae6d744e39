-- ===== src/Server/Router/Confined.antt =====
-- Where the files lie that `HttpRouter` reads (core/server/http_router.cpp).
use p2p_desktop_share_new.Base.{
  true, false, Option, some, [], ◌++◌, if◌then◌else◌, ◌||◌, ◌≡◌, ◌⊎◌, inl, inr, refl, Bool-cases,
  Option-cases, subst,
}
use p2p_desktop_share_new.Base.Text.{
  Text, codes, text_eq, starts_with, contains, starts_with_sound, contains-drop, starts_with_trans,
}
use p2p_desktop_share_new.Protocol.{JsonLib}
use p2p_desktop_share_new.Server.Hub.{HubStats}
use p2p_desktop_share_new.Server.Router.{
  HttpRouter, strip_query, map_path, map_www, handle_request, Request, file, after_admin, not_found,
  read_response,
}

-- A file below a root: the root, then a path that begins with a slash and holds no "..".
pub record Below (root path : Text) : Type 0 where
  pub rest : Text
  pub joined : path ≡ root ++ rest
  pub slash : starts_with (codes "/") rest ≡ true
  pub no_dots : contains (codes "..") rest ≡ false

abbrev pub Confined : HttpRouter → Text → Type 0
Confined r path = (path ≡ []) ⊎ Below r.www_root path ⊎ Below r.admin_root path

below :
    (root rest : Text)
    → starts_with (codes "/") rest ≡ true
    → contains (codes "..") rest ≡ false
    → Below root (root ++ rest)
below root rest s d = record { rest = rest; joined = refl; slash = s; no_dots = d }

module _ (r : HttpRouter) (t : Text) (plain : contains (codes "..") t ≡ false) where
  map_www-Confined : Confined r (map_www r t)
  unfolding map_www starts_with contains
  map_www-Confined = elim (Bool-cases (starts_with (codes "/host") t)) [
    | inl y0 ↦ rw (y0) (inr (inl (below r.www_root (codes "/host.html") refl refl)))
    | inr n0 ↦ elim (Bool-cases (starts_with (codes "/view") t)) [
      | inl y1 ↦ rw (n0, y1) (inr (inl (below r.www_root (codes "/viewer.html") refl refl)))
      | inr n1 ↦ elim (Bool-cases (text_eq t (codes "/host-app.webmanifest"))) [
        | inl y2 ↦
            rw (n0, n1, y2) (inr (inl (below r.www_root (codes "/host-app.webmanifest") refl refl)))
        | inr n2 ↦ elim (Bool-cases (text_eq t (codes "/host-sw.js"))) [
          | inl y3 ↦
              rw (n0, n1, n2, y3) (inr (inl (below r.www_root (codes "/host-sw.js") refl refl)))
          | inr n3 ↦ elim (Bool-cases (text_eq t (codes "/viewer-app.webmanifest"))) [
            | inl y4 ↦
                rw (n0, n1, n2, n3, y4)
                  (inr (inl (below r.www_root (codes "/viewer-app.webmanifest") refl refl)))
            | inr n4 ↦ elim (Bool-cases (text_eq t (codes "/viewer-sw.js"))) [
              | inl y5 ↦
                  rw (n0, n1, n2, n3, n4, y5)
                    (inr (inl (below r.www_root (codes "/viewer-sw.js") refl refl)))
              | inr n5 ↦ elim (Bool-cases (starts_with (codes "/assets/") t)) [
                | inl y6 ↦
                    rw (n0, n1, n2, n3, n4, n5, y6)
                      (inr (
                        inl (
                          below r.www_root t
                            (starts_with_trans (codes "/") (codes "/assets/") t refl y6) plain)))
                | inr n6 ↦ rw (n0, n1, n2, n3, n4, n5, n6) (inl refl)
              ]
            ]
          ]
        ]
      ]
    ]
  ]

  admin_rest :
      starts_with (codes "/admin/") t ≡ true
      → (starts_with (codes "/") (after_admin t) ≡ true)
        × (contains (codes "..") (after_admin t) ≡ false)
  unfolding starts_with
  admin_rest e =
      let (rest, same) = starts_with_sound (codes "/admin/") t e in
      rw same (
        refl,
        contains-drop (codes "..") (codes "/admin") (codes "/" ++ rest)
            (subst (λ x. contains (codes "..") x ≡ false) same plain),
      )

-- Whatever the target, the mapped path is empty, or it lies below the www root or the admin root
-- and holds no ".." behind the root.
pub map_path-Confined : (r : HttpRouter) (target : Text) → Confined r (map_path r target)
unfolding map_path starts_with contains
map_path-Confined r target =
    let t = strip_query target in
    elim (Bool-cases (contains (codes "..") t)) [
      | inl dots ↦ rw dots (inl refl)
      | inr plain ↦
          elim (Bool-cases (
            text_eq t (codes "/admin")
            || text_eq t (codes "/admin/")
            || text_eq t (codes "/admin/index.html"))) [
              | inl y ↦
                  rw (plain, y) (inr (inr (below r.admin_root (codes "/index.html") refl refl)))
              | inr n ↦ elim (Bool-cases (starts_with (codes "/admin/") t)) [
                | inl y ↦
                    let (slash, no_dots) = admin_rest r t plain y in
                    rw (plain, n, y) (inr (inr (below r.admin_root (after_admin t) slash no_dots)))
                | inr n' ↦ rw (plain, n, n') (map_www-Confined r t plain)
              ]
            ]
    ]

Below-root :
    (r : HttpRouter) (p : Text)
    → text_eq p [] ≡ false
    → Confined r p
    → Below r.www_root p ⊎ Below r.admin_root p
unfolding text_eq
Below-root r p n (inl e) = let bad : true ≡ false = subst (λ q. text_eq q [] ≡ false) e n in cc
Below-root r p n (inr b) = b

-- What a response says of the path it was read from.
Confined-file :
    (r : HttpRouter) (read : Text → Option Text) (p path content : Text)
    → Confined r p
    → (if text_eq p [] then not_found else read_response p (read p)).body ≡ file path content
    → (read path ≡ some content) × (Below r.www_root path ⊎ Below r.admin_root path)
unfolding text_eq
Confined-file r read p path content c e = elim (Bool-cases (text_eq p [])) [
  | inl y ↦
      let e' : not_found.body ≡ file path content =
        subst (λ b. (if b then not_found else read_response p (read p)).body ≡ file path content) y
          e in
      cc
  | inr n ↦
      let e' : (read_response p (read p)).body ≡ file path content =
        subst (λ b. (if b then not_found else read_response p (read p)).body ≡ file path content) n
          e in
      elim (Option-cases (read p)) [
        | inl gone ↦
            let f : not_found.body ≡ file path content =
              subst (λ o. (read_response p o).body ≡ file path content) gone e' in
            cc
        | inr (x, found) ↦
            let f : file p x ≡ file path content =
              subst (λ o. (read_response p o).body ≡ file path content) found e' in
            let same : p ≡ path = cc in
            let read_it : read path ≡ some content = cc in
            (
              read_it,
              subst (λ q. Below r.www_root q ⊎ Below r.admin_root q) same (Below-root r p n c),
            )
      ]
]

-- Every file that a response carries was read from a path below one of the roots, without "..".
pub handle_request-Confined :
    (json : JsonLib) (r : HttpRouter) (read : Text → Option Text) (stats : HubStats) (req : Request)
    (path content : Text)
    → (handle_request json r read stats req).body ≡ file path content
    → (read path ≡ some content) × (Below r.www_root path ⊎ Below r.admin_root path)
unfolding handle_request
handle_request-Confined json r read stats req path content = elim (Bool-cases req.is_get) [
  | inr post ↦ rw post (λ e. cc)
  | inl get ↦ elim (Bool-cases (text_eq (strip_query req.target) (codes "/health"))) [
    | inl y ↦ rw (get, y) (λ e. cc)
    | inr n ↦ elim (Bool-cases (text_eq (strip_query req.target) (codes "/api/status"))) [
      | inl y ↦ rw (get, n, y) (λ e. cc)
      | inr m ↦
          rw (get, n, m)
            (Confined-file r read (map_path r (strip_query req.target)) path content
              (map_path-Confined r (strip_query req.target)))
    ]
  ]
]
