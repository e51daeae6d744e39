-- ===== src/Runtime/Controller/Tests.antt =====
-- The links of a small session.
use p2p_desktop_share_new.Base.{false, ◌≡◌, refl}
use p2p_desktop_share_new.Base.Int.{pos}
use p2p_desktop_share_new.Base.Text.{codes}
use p2p_desktop_share_new.I18n.{append_locale_query}
use p2p_desktop_share_new.I18n.Parts.{free_of, free_of-Without}
use p2p_desktop_share_new.Runtime.Controller.{RuntimeSessionState, build_viewer_url}
use p2p_desktop_share_new.Runtime.Controller.Links.{Clean, build_viewer_url-relocales}

abbrev demo : RuntimeSessionState
demo = record {
  locale_code = codes "de-AT";
  host_ip = codes "10.0.0.2";
  port = pos 9443;
  room = codes "demo";
  token = codes "t0ken";
  host_page_state = codes "ready";
  viewer_url_copied = false;
  share_card_exported = false;
  share_wizard_opened = false;
  handoff_started = false;
  handoff_delivered = false;
  last_viewers = 0;
}

demo_room : Clean (codes "demo")
unfolding free_of
demo_room = (
  free_of-Without b'&' (codes "demo") refl,
  free_of-Without b'?' (codes "demo") refl,
  free_of-Without b'#' (codes "demo") refl,
)

demo_token : Clean (codes "t0ken")
unfolding free_of
demo_token = (
  free_of-Without b'&' (codes "t0ken") refl,
  free_of-Without b'?' (codes "t0ken") refl,
  free_of-Without b'#' (codes "t0ken") refl,
)

build_viewer_url-relocales_example :
    append_locale_query (build_viewer_url demo) (codes "ja")
    ≡ build_viewer_url (record demo { locale_code = codes "ja" })
unfolding free_of
build_viewer_url-relocales_example =
    build_viewer_url-relocales demo (codes "ja") (free_of-Without b'?' (codes "10.0.0.2") refl)
      (free_of-Without b'#' (codes "10.0.0.2") refl) demo_room demo_token
