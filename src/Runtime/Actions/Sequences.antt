-- ===== src/Runtime/Actions/Sequences.antt =====
-- Actions of two steps, and which of them may forget that the page was handed over.
use p2p_desktop_share_new.Base.{
  String, Bool, true, false, ◌&&◌, Option, none, some, ◌++◌, ◌≡◌, ◌⊎◌, inl, inr, refl, ◌∙◌, if-both,
  if_not-both,
}
use p2p_desktop_share_new.Runtime.Actions.{
  HostActionKind, start_server, stop_server, restart_server, start_service_only,
  start_and_open_host, open_host_page, open_viewer_page, show_qr, show_share_wizard,
  export_share_bundle, run_desktop_self_check, refresh_diagnostics_bundle, open_diagnostics_report,
  open_output_folder, HostActionOperation, HostActionArtifactRequest, HostActionArtifactPaths,
  HostActionContext, HostActionEffects, HostActionResult, HostActionHooks, empty_result,
  append_from, reported, run_hook, at_path, ensure_with, EnsureHook, path_reported, no_paths,
  no_request, execute_start_server, execute_stop_server, execute_open_host_page,
  execute_open_viewer_page, execute_ensure_artifacts, execute_open_path, and_then,
  artifacts_then_open, execute_open_report, execute_open_diagnostics_report,
  execute_refresh_diagnostics_bundle, execute_show_qr, execute_show_share_wizard,
  execute_export_share_bundle, execute_run_desktop_self_check, execute_host_action,
}

-- How a second step follows a first one.
abbrev pub Follows :
    {W : Type 0} → HostActionResult × W → HostActionResult × W → HostActionResult × W → Type 0
Follows a b both =
    ((a.0.ok ≡ false) × (both.0.ok ≡ false) × (both.0.logs ≡ a.0.logs) × (both.1 ≡ a.1))
    ⊎ ((a.0.ok ≡ true)
        × (both.0.ok ≡ b.0.ok)
        × (both.0.logs ≡ a.0.logs ++ b.0.logs)
        × (both.0.timeline_events ≡ a.0.timeline_events ++ b.0.timeline_events)
        × (both.1 ≡ b.1))

module _ {W : Type 0} (hooks : HostActionHooks W) where
  and_then-Follows :
      (first second : W → HostActionResult × W) (w : W)
      → Follows (first w) (second (first w).1) (and_then hooks first second w)
  unfolding and_then append_from
  and_then-Follows first second w =
      if_not-both (λ (r : HostActionResult × W). Follows (first w) (second (first w).1) r)
        (first w).0.ok _ _ (λ n. inl (n, n, refl, refl)) (λ y. inr (y, refl, refl, refl, refl))

  -- A restart is a stop and, only when the stop is ok, a start in the world that the stop left;
  -- starting with the host page is a start and, only when it is ok, the opening of the page.
  pub execute-Follows :
      (context : HostActionContext) (w : W)
      → Follows
          (execute_stop_server hooks w)
          (execute_start_server hooks (execute_stop_server hooks w).1)
          (execute_host_action hooks restart_server context w)
        × Follows
            (execute_start_server hooks w)
            (execute_open_host_page hooks (execute_start_server hooks w).1)
            (execute_host_action hooks start_and_open_host context w)
  unfolding execute_host_action
  execute-Follows context w = (
    and_then-Follows (execute_stop_server hooks) (execute_start_server hooks) w,
    and_then-Follows (execute_start_server hooks) (execute_open_host_page hooks) w,
  )

abbrev pub Kept : HostActionResult → Type 0
Kept r = r.effects.clear_handoff_delivered ≡ false

append-Kept : (a b : HostActionResult) → Kept a → Kept b → Kept (append_from a b)
unfolding append_from
append-Kept a b e f = rw (e, f) refl

module _ {W : Type 0} where
  run_hook-Kept :
      (message : String) (report : HostActionOperation → HostActionResult)
      (hook : Option (W → HostActionOperation × W)) (w : W)
      → ((op : HostActionOperation) → Kept (report op))
      → Kept (run_hook message report hook w).0
  unfolding run_hook
  run_hook-Kept message report none w h = refl
  run_hook-Kept message report (some hook) w h = h (hook w).0

  ensure_with-Kept :
      (request : HostActionArtifactRequest) (paths : HostActionArtifactPaths) (message : String)
      (hook : Option (EnsureHook W)) (w : W)
      → Kept (ensure_with request paths message hook w).0
  unfolding ensure_with
  ensure_with-Kept request paths message none w = refl
  ensure_with-Kept request paths message (some hook) w = refl

module _ {W : Type 0} (hooks : HostActionHooks W) where
  start-Kept : (w : W) → Kept (execute_start_server hooks w).0
  unfolding execute_start_server reported
  start-Kept w = run_hook-Kept _ _ hooks.start_server_hook w (λ op. refl)

  host_page-Kept : (w : W) → Kept (execute_open_host_page hooks w).0
  unfolding execute_open_host_page reported
  host_page-Kept w = run_hook-Kept _ _ hooks.open_host_page_hook w (λ op. refl)

  viewer_page-Kept : (w : W) → Kept (execute_open_viewer_page hooks w).0
  unfolding execute_open_viewer_page reported
  viewer_page-Kept w = run_hook-Kept _ _ hooks.open_viewer_page_hook w (λ op. refl)

  open_path-Kept : (path message : String) (w : W) → Kept (execute_open_path hooks path message w).0
  unfolding execute_open_path path_reported
  open_path-Kept path message w =
      run_hook-Kept _ _ (at_path path hooks.open_path_hook) w (λ op. refl)

  ensure-Kept :
      (request : HostActionArtifactRequest) (paths : HostActionArtifactPaths) (message : String)
      (w : W)
      → Kept (execute_ensure_artifacts hooks request paths message w).0
  unfolding execute_ensure_artifacts
  ensure-Kept request paths message w =
      ensure_with-Kept request paths message hooks.ensure_artifacts_hook w

  artifacts-Kept :
      (effects : HostActionEffects) (request : HostActionArtifactRequest)
      (target : HostActionArtifactPaths → String) (a b : String)
      (finish : HostActionArtifactPaths → HostActionResult → HostActionResult)
      → effects.clear_handoff_delivered ≡ false
      → ((p : HostActionArtifactPaths) (r : HostActionResult) → Kept r → Kept (finish p r))
      → (w : W) → Kept (artifacts_then_open hooks effects request target a b finish w).0
  unfolding artifacts_then_open
  artifacts-Kept effects request target a b finish none_yet keeps w =
      let start = record empty_result { effects = effects } in
      let made = execute_ensure_artifacts hooks request no_paths a w in
      let result = append_from start made.0 in
      let opened = append_from result (execute_open_path hooks (target made.1) b made.2).0 in
      let kept = append-Kept start made.0 none_yet (ensure-Kept request no_paths a w) in
      let kept_open =
        append-Kept result (execute_open_path hooks (target made.1) b made.2).0 kept
          (open_path-Kept (target made.1) b made.2) in
      if_not-both (λ (r : HostActionResult × W). Kept r.0) result.ok _ _ (λ n. kept)
        (λ y.
          if-both (λ (r : HostActionResult × W). Kept r.0) opened.ok _ _
            (λ z. keeps made.1 opened kept_open) (λ n. kept_open))

  report-Kept :
      (context : HostActionContext) (before : HostActionResult) (w : W)
      → Kept before
      → Kept (execute_open_report hooks context before w).0
  unfolding execute_open_report
  report-Kept context before w kept =
      let message : String = "Open diagnostics report failed" in
      let opened = execute_open_path hooks context.diagnostics_report_path message w in
      let both =
        append-Kept before opened.0 kept
          (open_path-Kept context.diagnostics_report_path message w) in
      if-both (λ (r : HostActionResult × W). Kept r.0) (append_from before opened.0).ok _ _
        (λ y. both) (λ n. both)

  -- The stop hook was set, and it said that it stopped the server.
  abbrev pub Stopped : W → Type 0
  Stopped w =
      (hook : W → HostActionOperation × W) × (hooks.stop_server_hook ≡ some hook)
      × ((hook w).0.ok ≡ true)
      × ((hook w).0.performed ≡ true)

  and-cases : (a b : Bool) → ((a && b) ≡ false) ⊎ ((a ≡ true) × (b ≡ true))
  and-cases true true = inr (refl, refl)
  and-cases true false = inl refl
  and-cases false b = inl refl

  by_stop_hook :
      (effects : HostActionOperation → HostActionEffects) (a b c d : String) (w : W)
      (o : Option (W → HostActionOperation × W))
      → ((op : HostActionOperation)
          → (effects op).clear_handoff_delivered ≡ (op.ok && op.performed))
      → Kept (run_hook a (reported effects b c d) o w).0
        ⊎ ((hook : W → HostActionOperation × W) × (o ≡ some hook)
            × ((hook w).0.ok ≡ true)
            × ((hook w).0.performed ≡ true))
  unfolding reported run_hook
  by_stop_hook effects a b c d w none same = inl refl
  by_stop_hook effects a b c d w (some hook) same =
      elim (and-cases (hook w).0.ok (hook w).0.performed) [
        | inl n ↦ inl (same (hook w).0 ∙ n)
        | inr (y, z) ↦ inr (hook, refl, y, z)
      ]

  stop-Stopped : (w : W) → Kept (execute_stop_server hooks w).0 ⊎ Stopped w
  unfolding execute_stop_server
  stop-Stopped w = by_stop_hook _ _ _ _ _ w hooks.stop_server_hook (λ op. refl)

  restart-Stopped :
      (w : W)
      → Kept (and_then hooks (execute_stop_server hooks) (execute_start_server hooks) w).0
        ⊎ Stopped w
  unfolding and_then
  restart-Stopped w = elim (stop-Stopped w) [
    | inr stopped ↦ inr stopped
    | inl kept ↦
        let stop = execute_stop_server hooks w in
        let first = append-Kept empty_result stop.0 refl kept in
        inl (
          if_not-both (λ (r : HostActionResult × W). Kept r.0) (append_from empty_result stop.0).ok
            _ _ (λ n. first)
            (λ y.
              append-Kept (append_from empty_result stop.0) (execute_start_server hooks stop.1).0
                first (start-Kept stop.1)))
  ]

  open_host-Kept :
      (w : W)
      → Kept (and_then hooks (execute_start_server hooks) (execute_open_host_page hooks) w).0
  unfolding and_then
  open_host-Kept w =
      let start = execute_start_server hooks w in
      let first = append-Kept empty_result start.0 refl (start-Kept w) in
      if_not-both (λ (r : HostActionResult × W). Kept r.0) (append_from empty_result start.0).ok _ _
        (λ n. first)
        (λ y.
          append-Kept (append_from empty_result start.0) (execute_open_host_page hooks start.1).0
            first (host_page-Kept start.1))

  diagnostics-Kept :
      (context : HostActionContext) (w : W)
      → Kept (execute_open_diagnostics_report hooks context w).0
  unfolding execute_open_diagnostics_report
  diagnostics-Kept context w =
      let made =
        execute_ensure_artifacts hooks no_request no_paths "Diagnostics report missing" w in
      let result = append_from empty_result made.0 in
      let kept =
        append-Kept empty_result made.0 refl
          (ensure-Kept no_request no_paths "Diagnostics report missing" w) in
      if-both (λ (r : HostActionResult × W). Kept r.0) context.diagnostics_report_exists _ _
        (λ y. report-Kept context empty_result w refl)
        (λ n.
          if_not-both (λ (r : HostActionResult × W). Kept r.0) result.ok _ _ (λ m. kept)
            (λ y. report-Kept context result made.2 kept))

  bundle-Kept : (w : W) → Kept (execute_refresh_diagnostics_bundle hooks w).0
  unfolding execute_refresh_diagnostics_bundle
  bundle-Kept w =
      let message : String = "Re-run checks failed while exporting diagnostics bundle" in
      let made = execute_ensure_artifacts hooks no_request no_paths message w in
      let kept = append-Kept empty_result made.0 refl (ensure-Kept no_request no_paths message w) in
      if-both (λ (r : HostActionResult × W). Kept r.0) (append_from empty_result made.0).ok _ _
        (λ y. kept) (λ n. kept)

  -- An action asks to forget the delivered handoff only when the stop hook was set and said that
  -- it stopped the server.
  pub execute-Stopped :
      (kind : HostActionKind) (context : HostActionContext) (w : W)
      → Kept (execute_host_action hooks kind context w).0 ⊎ Stopped w
  unfolding execute_host_action execute_show_qr execute_show_share_wizard
      execute_export_share_bundle execute_run_desktop_self_check
  execute-Stopped start_server context w = inl (start-Kept w)
  execute-Stopped start_service_only context w = inl (start-Kept w)
  execute-Stopped stop_server context w = stop-Stopped w
  execute-Stopped restart_server context w = restart-Stopped w
  execute-Stopped start_and_open_host context w = inl (open_host-Kept w)
  execute-Stopped open_host_page context w = inl (host_page-Kept w)
  execute-Stopped open_viewer_page context w = inl (viewer_page-Kept w)
  execute-Stopped show_qr context w = inl (artifacts-Kept _ _ _ _ _ _ refl (λ p r k. k) w)
  execute-Stopped show_share_wizard context w = inl (artifacts-Kept _ _ _ _ _ _ refl (λ p r k. k) w)
  execute-Stopped export_share_bundle context w =
      inl (artifacts-Kept _ _ _ _ _ _ refl (λ p r k. k) w)
  execute-Stopped run_desktop_self_check context w =
      inl (artifacts-Kept _ _ _ _ _ _ refl (λ p r k. k) w)
  execute-Stopped refresh_diagnostics_bundle context w = inl (bundle-Kept w)
  execute-Stopped open_diagnostics_report context w = inl (diagnostics-Kept context w)
  execute-Stopped open_output_folder context w =
      inl (open_path-Kept context.output_dir "Open bundle folder failed" w)
