-- ===== src/Server/Router/Tests.antt =====
-- The router on small examples.
use p2p_desktop_share_new.Base.{true, Option, some, ◌≡◌, ◌⊎◌, refl}
use p2p_desktop_share_new.Base.Text.{Text, codes, text_eq, starts_with, contains}
use p2p_desktop_share_new.Protocol.Plain.{plain}
use p2p_desktop_share_new.Server.Hub.{HubStats}
use p2p_desktop_share_new.Server.Router.{HttpRouter, strip_query, map_path, map_www, handle_request}
use p2p_desktop_share_new.Server.Router.Confined.{Below, handle_request-Confined}
use p2p_desktop_share_new.Server.Router.Routes.{pages_and_assets, map_www-pages}

abbrev router : HttpRouter
router = record { www_root = codes "/srv/www"; admin_root = codes "/srv/admin" }

abbrev read : Text → Option Text
read path = some (codes "hello")

abbrev no_stats : HubStats
no_stats = record { rooms = 0; viewers = 0 }

handle_request-Confined_example :
    (read (codes "/srv/www/host.html") ≡ some (codes "hello"))
    × (Below (codes "/srv/www") (codes "/srv/www/host.html")
        ⊎ Below (codes "/srv/admin") (codes "/srv/www/host.html"))
unfolding handle_request strip_query map_path map_www text_eq starts_with contains
handle_request-Confined_example =
    handle_request-Confined plain router read no_stats
      (record { is_get = true; target = codes "/host" }) (codes "/srv/www/host.html")
      (codes "hello") refl

map_www-pages_example :
    map_www router (codes "/host-sw.js") ≡ pages_and_assets router (codes "/host-sw.js")
map_www-pages_example = map_www-pages router (codes "/host-sw.js")
