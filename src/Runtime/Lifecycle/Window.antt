-- ===== src/Runtime/Lifecycle/Window.antt =====
-- desktop_host/ShellEffectExecutor and MainWindow: what a lifecycle plan does to the window.
use p2p_desktop_share_new.Base.{Bool, not, ◌||◌, List, [], ◌∷◌, if◌then◌else◌}
use p2p_desktop_share_new.Base.Int.{ℤ, pos}
use p2p_desktop_share_new.Runtime.Schedule.{default_host_runtime_scheduler_config}
use p2p_desktop_share_new.Runtime.Lifecycle.{
  HostShellLifecycleEvent, HostShellLifecyclePlan, or_second, coordinate_host_shell_lifecycle,
}

-- What the executor calls, or sets outside of the lifecycle.
pub data ShellEffect : Type 0 where
  marks_balloon_pending : ShellEffect
  sets_dashboard_page : ShellEffect
  shows_window : ShellEffect
  restores_window : ShellEffect
  updates_window : ShellEffect
  sets_foreground : ShellEffect
  hides_window : ShellEffect
  restores_webview : ShellEffect
  relayouts_window : ShellEffect
  refreshes_host_runtime : ShellEffect
  sets_timer : ℤ → ShellEffect
  creates_tray_icon : ShellEffect
  logs_ui_created : ShellEffect
  refreshes_share_info : ShellEffect
  refreshes_dashboard : ShellEffect
  updates_ui_state : ShellEffect
  refreshes_admin_preview : ShellEffect
  refreshes_shell_fallback : ShellEffect
  applies_button_policy : ShellEffect
  updates_tray_icon : ShellEffect
  kills_timer : ShellEffect
  removes_tray_icon : ShellEffect
  stops_server : ShellEffect
  destroys_window : ShellEffect

abbrev pub effect_if : Bool → ShellEffect → List ShellEffect → List ShellEffect
effect_if flag effect rest = if flag then effect ∷ rest else rest

-- The effects of a plan in their order.
unfoldable pub effects_of : HostShellLifecyclePlan → List ShellEffect
effects_of plan = effect_if plan.mark_tray_balloon_pending marks_balloon_pending (
    effect_if plan.set_dashboard_page sets_dashboard_page (
      effect_if plan.show_window shows_window (
        effect_if plan.restore_window restores_window (
          effect_if plan.update_window updates_window (
            effect_if plan.set_foreground sets_foreground (
              effect_if plan.hide_window hides_window (
                effect_if plan.ensure_webview_initialized restores_webview (
                  effect_if plan.relayout_window relayouts_window (
                    effect_if plan.refresh_host_runtime refreshes_host_runtime (
                      effect_if plan.create_runtime_timer
                        (sets_timer (or_second plan.timer_interval_ms))
                        (effect_if plan.create_tray_icon creates_tray_icon (
                          effect_if plan.append_ui_created_log logs_ui_created (
                            effect_if plan.refresh_share_info refreshes_share_info (
                              effect_if plan.refresh_dashboard refreshes_dashboard (
                                effect_if plan.update_ui_state updates_ui_state (
                                  effect_if plan.refresh_html_admin_preview refreshes_admin_preview
                                    (effect_if plan.refresh_shell_fallback refreshes_shell_fallback
                                      (effect_if plan.apply_native_command_button_policy
                                        applies_button_policy
                                        (effect_if plan.update_tray_icon updates_tray_icon (
                                          effect_if plan.kill_timer kills_timer (
                                            effect_if plan.remove_tray_icon removes_tray_icon (
                                              effect_if plan.stop_server stops_server (
                                                effect_if plan.destroy_window destroys_window
                                                  [])))))))))))))))))))))))

-- `m_hwnd` (whether it is set) and `m_exitRequested` of the window.
pub record HostShellWindow : Type 0 where
  pub has_window : Bool
  pub exit_requested : Bool

unfoldable pub apply_host_shell_lifecycle_plan :
    HostShellWindow → HostShellLifecyclePlan → HostShellWindow × List ShellEffect
apply_host_shell_lifecycle_plan window plan = if not window.has_window then (window, []) else (
  record window { exit_requested = plan.mark_exit_requested || window.exit_requested },
  effects_of plan,
)

-- `BuildHostShellLifecycleInput`, the plan for it, and its effects.
unfoldable pub lifecycle_event :
    HostShellWindow → HostShellLifecycleEvent → Bool → HostShellWindow × List ShellEffect
lifecycle_event window event show_balloon = apply_host_shell_lifecycle_plan window (
    coordinate_host_shell_lifecycle record {
      event = event;
      exit_requested = window.exit_requested;
      show_balloon = show_balloon;
      timer_interval_ms = pos default_host_runtime_scheduler_config.tick_interval_ms;
    })
