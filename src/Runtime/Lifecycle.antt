-- ===== src/Runtime/Lifecycle.antt =====
-- core/runtime/host_shell_lifecycle_coordinator: what the desktop shell does when it starts, is shown,
-- hidden, closed or left.
pub mod Window
pub mod Exits
mod Tests
use p2p_desktop_share_new.Base.{zero, suc, Bool, true, false, if◌then◌else◌}
use p2p_desktop_share_new.Base.Int.{ℤ, pos, negsuc}

pub data HostShellLifecycleEvent : Type 0 where
  startup_ready : HostShellLifecycleEvent
  show_requested : HostShellLifecycleEvent
  restore_requested : HostShellLifecycleEvent
  minimize_requested : HostShellLifecycleEvent
  close_requested : HostShellLifecycleEvent
  destroy_requested : HostShellLifecycleEvent
  tray_exit_requested : HostShellLifecycleEvent

pub record HostShellLifecycleInput : Type 0 where
  pub event : HostShellLifecycleEvent
  pub exit_requested : Bool
  pub show_balloon : Bool
  pub timer_interval_ms : ℤ

pub record HostShellLifecyclePlan : Type 0 where
  pub refresh_host_runtime : Bool
  pub create_runtime_timer : Bool
  pub timer_interval_ms : ℤ
  pub create_tray_icon : Bool
  pub append_ui_created_log : Bool
  pub refresh_share_info : Bool
  pub refresh_dashboard : Bool
  pub set_dashboard_page : Bool
  pub update_ui_state : Bool
  pub show_window : Bool
  pub restore_window : Bool
  pub update_window : Bool
  pub set_foreground : Bool
  pub ensure_webview_initialized : Bool
  pub relayout_window : Bool
  pub refresh_html_admin_preview : Bool
  pub refresh_shell_fallback : Bool
  pub apply_native_command_button_policy : Bool
  pub update_tray_icon : Bool
  pub hide_window : Bool
  pub mark_tray_balloon_pending : Bool
  pub kill_timer : Bool
  pub remove_tray_icon : Bool
  pub stop_server : Bool
  pub mark_exit_requested : Bool
  pub destroy_window : Bool

-- A plan that does nothing.
abbrev pub no_plan : HostShellLifecyclePlan
no_plan = record {
  refresh_host_runtime = false;
  create_runtime_timer = false;
  timer_interval_ms = pos 0;
  create_tray_icon = false;
  append_ui_created_log = false;
  refresh_share_info = false;
  refresh_dashboard = false;
  set_dashboard_page = false;
  update_ui_state = false;
  show_window = false;
  restore_window = false;
  update_window = false;
  set_foreground = false;
  ensure_webview_initialized = false;
  relayout_window = false;
  refresh_html_admin_preview = false;
  refresh_shell_fallback = false;
  apply_native_command_button_policy = false;
  update_tray_icon = false;
  hide_window = false;
  mark_tray_balloon_pending = false;
  kill_timer = false;
  remove_tray_icon = false;
  stop_server = false;
  mark_exit_requested = false;
  destroy_window = false;
}

-- `interval > 0 ? interval : 1000`.
unfoldable pub or_second : ℤ → ℤ
or_second (pos zero) = pos 1000
or_second (pos (suc n)) = pos (suc n)
or_second (negsuc n) = pos 1000

-- The plan for each event of the switch.
unfoldable pub plan_for : HostShellLifecycleInput → HostShellLifecycleEvent → HostShellLifecyclePlan
plan_for input startup_ready = record no_plan {
  refresh_host_runtime = true;
  create_runtime_timer = true;
  timer_interval_ms = or_second input.timer_interval_ms;
  create_tray_icon = true;
  append_ui_created_log = true;
  refresh_share_info = true;
  refresh_dashboard = true;
  set_dashboard_page = true;
  update_ui_state = true;
}
plan_for input show_requested = record no_plan {
  show_window = true;
  update_window = true;
  ensure_webview_initialized = true;
  relayout_window = true;
  refresh_html_admin_preview = true;
  refresh_shell_fallback = true;
  apply_native_command_button_policy = true;
  update_tray_icon = true;
}
plan_for input restore_requested = record no_plan {
  set_dashboard_page = true;
  restore_window = true;
  set_foreground = true;
  ensure_webview_initialized = true;
  relayout_window = true;
  refresh_html_admin_preview = true;
  refresh_shell_fallback = true;
  apply_native_command_button_policy = true;
  update_tray_icon = true;
}
plan_for input minimize_requested = record no_plan {
  hide_window = true;
  mark_tray_balloon_pending = input.show_balloon;
  update_tray_icon = input.show_balloon;
}
plan_for input close_requested =
    if input.exit_requested then record no_plan { destroy_window = true } else record no_plan {
      hide_window = true;
      mark_tray_balloon_pending = true;
      update_tray_icon = true;
    }
plan_for input destroy_requested = record no_plan {
  kill_timer = true;
  remove_tray_icon = true;
  stop_server = true;
}
plan_for input tray_exit_requested = record no_plan {
  mark_exit_requested = true;
  destroy_window = true;
}

-- `CoordinateHostShellLifecycle`.
abbrev pub coordinate_host_shell_lifecycle : HostShellLifecycleInput → HostShellLifecyclePlan
coordinate_host_shell_lifecycle input = plan_for input input.event
