-- ===== src/Runtime/AdminShell/Tests.antt =====
-- Messages of the admin page on small texts.
use p2p_desktop_share_new.Base.{true, [], ◌∷◌, inl, ◌≡◌, refl}
use p2p_desktop_share_new.Base.Text.{Text, codes, find_after, starts_with, skip_space}
use p2p_desktop_share_new.Runtime.Bridge.Json.{json_string_field, read_string, unescape}
use p2p_desktop_share_new.Runtime.Bridge.Inbound.{parse_shell_bridge_inbound_message}
use p2p_desktop_share_new.Runtime.AdminShell.{
  HooksSet, plain_call, refresh_runtime_hook, handle_admin_shell_message,
}
use p2p_desktop_share_new.Runtime.AdminShell.Handled.{Handled, handle-Handled}
use p2p_desktop_share_new.Runtime.AdminShell.Served.{served-called}

abbrev refresh_text : Text
refresh_text =
    codes "{\"source\":\"admin-shell\",\"kind\":\"command\",\"command\":\"refresh-network\"}"

abbrev all_set : HooksSet
all_set hook = true

handle-Handled_example : Handled all_set (
    handle_admin_shell_message all_set (parse_shell_bridge_inbound_message 4294967295 refresh_text))
handle-Handled_example = handle-Handled all_set 4294967295 refresh_text

served-called_example :
    (handle_admin_shell_message all_set
      (parse_shell_bridge_inbound_message 4294967295 refresh_text)).calls
    ≡ plain_call refresh_runtime_hook ∷ []
unfolding json_string_field find_after starts_with skip_space read_string unescape
served-called_example =
    served-called all_set 4294967295 refresh_text (codes "refresh-network")
      (plain_call refresh_runtime_hook) (inl refl) refl refl refl
