-- ===== src/Server/Router.antt =====
-- core/server/http_router: the target of a request is mapped to a file below one of two roots.
-- Targets and paths are lists of bytes. The file system is the argument `read`, which is `none` for
-- a file that cannot be opened; what `MakeText` copies from the request is left out.
pub mod Confined
pub mod Routes
mod Tests
use p2p_desktop_share_new.Base.{
  ℕ, ◌==◌, String, Bool, true, false, not, Option, none, some, List, [], ◌∷◌, ◌++◌, if◌then◌else◌,
  ◌||◌,
}
use p2p_desktop_share_new.Base.Text.{Text, codes, text_eq, starts_with, contains, ends_with}
use p2p_desktop_share_new.Protocol.{JsonLib, api_status}
use p2p_desktop_share_new.Server.Hub.{HubStats}

pub record HttpRouter : Type 0 where
  pub www_root : Text
  pub admin_root : Text

-- The part of a target before the first '?'.
unfoldable pub strip_query : Text → Text
strip_query [] = []
strip_query (c ∷ t) = if c == b'?' then [] else c ∷ strip_query t

-- `t.substr(6)`, for a `t` that is longer.
abbrev pub after_admin : Text → Text
after_admin (_ ∷ _ ∷ _ ∷ _ ∷ _ ∷ _ ∷ rest) = rest
after_admin t = []

module _ (r : HttpRouter) where
  -- The tests of `MapPath` behind the two for the admin pages.
  pub map_www : Text → Text
  map_www t =
      if starts_with (codes "/host") t
      then r.www_root ++ codes "/host.html"
      else if starts_with (codes "/view") t
      then r.www_root ++ codes "/viewer.html"
      else if text_eq t (codes "/host-app.webmanifest")
      then r.www_root ++ codes "/host-app.webmanifest"
      else if text_eq t (codes "/host-sw.js")
      then r.www_root ++ codes "/host-sw.js"
      else if text_eq t (codes "/viewer-app.webmanifest")
      then r.www_root ++ codes "/viewer-app.webmanifest"
      else if text_eq t (codes "/viewer-sw.js")
      then r.www_root ++ codes "/viewer-sw.js"
      else if starts_with (codes "/assets/") t
      then r.www_root ++ t
      else []

  -- `MapPath`; the empty path stands for no file.
  pub map_path : Text → Text
  map_path target =
      let t = strip_query target in
      if contains (codes "..") t
      then []
      else if text_eq t (codes "/admin")
          || text_eq t (codes "/admin/")
          || text_eq t (codes "/admin/index.html")
      then r.admin_root ++ codes "/index.html"
      else if starts_with (codes "/admin/") t
      then r.admin_root ++ after_admin t
      else map_www t

unfoldable pub guess_mime : Text → Text
guess_mime path =
    if ends_with (codes ".html") path
    then codes "text/html; charset=utf-8"
    else if ends_with (codes ".js") path
    then codes "application/javascript; charset=utf-8"
    else if ends_with (codes ".webmanifest") path
    then codes "application/manifest+json; charset=utf-8"
    else if ends_with (codes ".json") path
    then codes "application/json; charset=utf-8"
    else if ends_with (codes ".css") path
    then codes "text/css; charset=utf-8"
    else if ends_with (codes ".svg") path
    then codes "image/svg+xml"
    else codes "application/octet-stream"

pub record Request : Type 0 where
  pub is_get : Bool
  pub target : Text

pub data Body : Type 0 where
  fixed : String → Body
  status_json : String → Body
  file : Text → Text → Body

pub record Response : Type 0 where
  pub status : ℕ
  pub content_type : Text
  pub body : Body

abbrev pub make_text : ℕ → Text → Body → Response
make_text status content_type body = record {
  status = status;
  content_type = content_type;
  body = body;
}

abbrev pub plain_text : Text
plain_text = codes "text/plain; charset=utf-8"

abbrev pub not_found : Response
not_found = make_text 404 plain_text (fixed "Not Found")

abbrev pub read_response : Text → Option Text → Response
read_response path none = not_found
read_response path (some content) = make_text 200 (guess_mime path) (file path content)

-- `HandleRequest`, for a router that has its hub: `stats` is what `GetStats` returns.
pub handle_request : JsonLib → HttpRouter → (Text → Option Text) → HubStats → Request → Response
handle_request json r read stats req =
    if not req.is_get
    then make_text 405 plain_text (fixed "Method Not Allowed")
    else let target = strip_query req.target in
      if text_eq target (codes "/health")
      then make_text 200 plain_text (fixed "ok")
      else if text_eq target (codes "/api/status")
      then make_text 200 (codes "application/json; charset=utf-8")
          (status_json (api_status json true stats.rooms stats.viewers))
      else let path = map_path r target in
        if text_eq path [] then not_found else read_response path (read path)
