-- ===== src/Runtime/Actions.antt =====
-- core/runtime/host_action_coordinator: the actions that the desktop shell offers. A hook is a
-- function on the world outside; a hook that was not set is `none`. Paths are texts.
mod Types
pub mod Failures
pub mod Sequences
mod Tests
use p2p_desktop_share_new.Base.{
  String, Bool, true, false, not, ◌&&◌, ◌||◌, Option, none, some, List, [], ◌∷◌, ◌++◌,
  if◌then◌else◌, str_eq,
}
use p2p_desktop_share_new.Base.Int.{or_text}
unfoldable pub use Types.*

module _ {W : Type 0} (hooks : HostActionHooks W) where
  pub execute_start_server : W → HostActionResult × W
  execute_start_server =
      run_hook "Start action is unavailable"
        (reported (λ op. record no_effects { refresh_share_info = true }) "Server started"
          "Service started" "Start failed")
        hooks.start_server_hook

  pub execute_stop_server : W → HostActionResult × W
  execute_stop_server =
      run_hook "Stop action is unavailable"
        (reported
          (λ op. record no_effects {
            refresh_share_info = true;
            clear_handoff_delivered = op.ok && op.performed;
          })
          "Server stopped" "Service stopped" "Stop failed")
        hooks.stop_server_hook

  pub execute_open_host_page : W → HostActionResult × W
  execute_open_host_page =
      run_hook "Open Host page action is unavailable"
        (reported (λ op. no_effects) "Opened Host page" "Host page opened" "Open Host page failed")
        hooks.open_host_page_hook

  pub execute_open_viewer_page : W → HostActionResult × W
  execute_open_viewer_page =
      run_hook "Open Viewer page action is unavailable"
        (reported (λ op. record no_effects { handoff_started = true }) "Opened Viewer page"
          "Viewer page opened" "Open Viewer page failed")
        hooks.open_viewer_page_hook

  pub execute_ensure_artifacts :
      HostActionArtifactRequest
      → HostActionArtifactPaths
      → String
      → W
      → HostActionResult × HostActionArtifactPaths × W
  execute_ensure_artifacts request paths failure_message =
      ensure_with request paths failure_message hooks.ensure_artifacts_hook

  pub execute_open_path : String → String → W → HostActionResult × W
  execute_open_path path failure_message =
      run_hook failure_message (path_reported failure_message) (at_path path hooks.open_path_hook)

  -- A step, then another when the first is ok.
  pub and_then : (W → HostActionResult × W) → (W → HostActionResult × W) → W → HostActionResult × W
  and_then first second w =
      let (a, w1) = first w in
      let result = append_from empty_result a in
      let (b, w2) = second w1 in if not result.ok then (result, w1) else (append_from result b, w2)

  -- Artifacts, then the path that `target` picks, then what `finish` adds to a success.
  pub artifacts_then_open :
      HostActionEffects
      → HostActionArtifactRequest
      → (HostActionArtifactPaths → String)
      → String
      → String
      → (HostActionArtifactPaths → HostActionResult → HostActionResult)
      → W
      → HostActionResult × W
  artifacts_then_open effects request target ensure_failed open_failed finish w =
      let start = record empty_result { effects = effects } in
      let (a, paths, w1) = execute_ensure_artifacts request no_paths ensure_failed w in
      let result = append_from start a in
      let (b, w2) = execute_open_path (target paths) open_failed w1 in
      let opened = append_from result b in
      if not result.ok
      then (result, w1)
      else if opened.ok
      then (finish paths opened, w2)
      else (opened, w2)

  pub execute_show_qr : W → HostActionResult × W
  execute_show_qr =
      artifacts_then_open (record no_effects { handoff_started = true })
        (record no_request { share_card = true }) (λ p. p.share_card_path) "Open share card failed"
        "Open share card failed"
        (λ p r. with_log (says "Opened share card") (record r {
          effects = record r.effects { share_card_exported = true; refresh_dashboard = true };
        }))

  pub execute_show_share_wizard : W → HostActionResult × W
  execute_show_share_wizard =
      artifacts_then_open
        (record no_effects {
          handoff_started = true;
          share_wizard_opened = true;
          refresh_share_info = true;
        })
        (record no_request { share_wizard = true }) (λ p. p.share_wizard_path)
        "Open share wizard failed" "Open share wizard failed"
        (λ p r. with_log (says "Opened share wizard") (with_event (says "Share Wizard opened") r))

  pub execute_export_share_bundle : HostActionContext → W → HostActionResult × W
  execute_export_share_bundle context =
      artifacts_then_open
        (record no_effects {
          handoff_started = true;
          share_card_exported = true;
          refresh_dashboard = true;
        })
        (record no_request { bundle_json = true }) (λ p. context.output_dir)
        "Export share bundle failed" "Open bundle folder failed"
        (λ p r.
          with_event (says "Diagnostics bundle generated")
            (with_log (says "Exported local share bundle") r))

  pub execute_run_desktop_self_check : W → HostActionResult × W
  execute_run_desktop_self_check =
      artifacts_then_open no_effects (record no_request { desktop_self_check = true })
        (λ p. p.desktop_self_check_path) "Open desktop self-check failed"
        "Open desktop self-check failed"
        (λ p r. with_log (says_path "Opened desktop self-check: " p.desktop_self_check_path) r)

  pub execute_refresh_diagnostics_bundle : W → HostActionResult × W
  execute_refresh_diagnostics_bundle w =
      let (a, paths, w1) =
        execute_ensure_artifacts no_request no_paths
          "Re-run checks failed while exporting diagnostics bundle" w in
      let result = append_from empty_result a in
      if result.ok
      then (with_log (says "Re-ran exported self-check and diagnostics bundle") result, w1)
      else (result, w1)

  -- The report exists: it is opened as it is.
  pub execute_open_report : HostActionContext → HostActionResult → W → HostActionResult × W
  execute_open_report context before w =
      let (b, w1) =
        execute_open_path context.diagnostics_report_path "Open diagnostics report failed" w in
      let result = append_from before b in
      if result.ok
      then (
        with_log (says_path "Opened diagnostics report: " context.diagnostics_report_path) result,
        w1,
      )
      else (result, w1)

  pub execute_open_diagnostics_report : HostActionContext → W → HostActionResult × W
  execute_open_diagnostics_report context w =
      let (a, paths, w1) =
        execute_ensure_artifacts no_request no_paths "Diagnostics report missing" w in
      let made = append_from empty_result a in
      if context.diagnostics_report_exists
      then execute_open_report context empty_result w
      else if not made.ok
      then (made, w1)
      else execute_open_report context made w1

  -- `ExecuteHostAction`.
  pub execute_host_action : HostActionKind → HostActionContext → W → HostActionResult × W
  execute_host_action start_server context = execute_start_server
  execute_host_action start_service_only context = execute_start_server
  execute_host_action stop_server context = execute_stop_server
  execute_host_action restart_server context = and_then execute_stop_server execute_start_server
  execute_host_action start_and_open_host context =
      and_then execute_start_server execute_open_host_page
  execute_host_action open_host_page context = execute_open_host_page
  execute_host_action open_viewer_page context = execute_open_viewer_page
  execute_host_action show_qr context = execute_show_qr
  execute_host_action show_share_wizard context = execute_show_share_wizard
  execute_host_action export_share_bundle context = execute_export_share_bundle context
  execute_host_action run_desktop_self_check context = execute_run_desktop_self_check
  execute_host_action refresh_diagnostics_bundle context = execute_refresh_diagnostics_bundle
  execute_host_action open_diagnostics_report context = execute_open_diagnostics_report context
  execute_host_action open_output_folder context =
      execute_open_path context.output_dir "Open bundle folder failed"
