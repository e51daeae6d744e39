-- ===== src/Server/HttpSession/Tests.antt =====
-- A page request, its answer, and an upgrade.
use p2p_desktop_share_new.Base.{true, false, Bool, List, [], ◌∷◌}
use p2p_desktop_share_new.Base.Text.{Text, codes}
use p2p_desktop_share_new.Server.HttpSession.{
  HttpRequest, HttpEvent, read_done, write_done, reading, http_run,
}
use p2p_desktop_share_new.Server.HttpSession.Conversation.{Conversation, run-Conversation}

abbrev page : HttpRequest
page = record { target = codes "/host"; is_upgrade = false }

abbrev socket : HttpRequest
socket = record { target = codes "/ws"; is_upgrade = true }

-- The answer to a request is its target.
abbrev echo : HttpRequest → Text
echo request = request.target

abbrev keeps_alive : Text → Bool
keeps_alive response = false

abbrev events : List HttpEvent
events = read_done page ∷ write_done ∷ read_done socket ∷ []

run-Conversation_example :
    Conversation echo keeps_alive events (http_run echo keeps_alive events reading)
run-Conversation_example = run-Conversation echo keeps_alive events
