-- ===== src/Runtime/Actions/Failures.antt =====
-- The logs of the host actions that are not ok.
use p2p_desktop_share_new.Base.{
  ◌≤◌, String, true, Option, none, some, List, ◌++◌, ◌≡◌, ◌⊎◌, inl, inr, arith, refl, ◌∙◌,
  Bool-cases, if-both, if_not-both, length, length-append,
}
use p2p_desktop_share_new.Runtime.Actions.{
  HostActionKind, start_server, stop_server, restart_server, start_service_only,
  start_and_open_host, open_host_page, open_viewer_page, show_qr, show_share_wizard,
  export_share_bundle, run_desktop_self_check, refresh_diagnostics_bundle, open_diagnostics_report,
  open_output_folder, HostActionOperation, HostActionArtifactRequest, HostActionArtifactPaths,
  HostActionContext, HostActionEffects, HostActionResult, HostActionHooks, Line, empty_result,
  run_hook, at_path, ensure_with, EnsureHook, path_reported, append_from, reported, no_effects,
  no_paths, no_request, execute_start_server, execute_stop_server, execute_open_host_page,
  execute_open_viewer_page, execute_ensure_artifacts, execute_open_path, and_then,
  artifacts_then_open, execute_open_report, execute_open_diagnostics_report,
  execute_refresh_diagnostics_bundle, execute_show_qr, execute_show_share_wizard,
  execute_export_share_bundle, execute_run_desktop_self_check, execute_host_action,
}

-- A result that is ok, or whose log is not empty.
abbrev pub Explained : HostActionResult → Type 0
Explained r = (r.ok ≡ true) ⊎ (1 ≤ length r.logs)

longer : (xs ys : List Line) → 1 ≤ length ys → 1 ≤ length (xs ++ ys)
longer xs ys h = omega (arith, length-append xs ys)

reported-Explained :
    (effects : HostActionOperation → HostActionEffects) (done event failed : String)
    (op : HostActionOperation)
    → Explained (reported effects done event failed op)
unfolding reported
reported-Explained effects done event failed op = elim (Bool-cases op.ok) [
  | inl y ↦ inl y
  | inr n ↦ rw n (inr (omega arith))
]

path_reported-Explained :
    (failed : String) (op : HostActionOperation) → Explained (path_reported failed op)
unfolding path_reported
path_reported-Explained failed op = elim (Bool-cases op.ok) [
  | inl y ↦ inl y
  | inr n ↦ rw n (inr (omega arith))
]

append-Explained : (a b : HostActionResult) → Explained b → Explained (append_from a b)
unfolding append_from
append-Explained a b (inl y) = inl y
append-Explained a b (inr h) = inr (longer a.logs b.logs h)

abbrev Said : {W : Type 0} → (W → HostActionResult × W) → Type 0
Said {W} f = (w : W) → Explained (f w).0

module _ {W : Type 0} where
  run_hook-Said :
      (message : String) (report : HostActionOperation → HostActionResult)
      (hook : Option (W → HostActionOperation × W))
      → ((op : HostActionOperation) → Explained (report op))
      → Said (run_hook message report hook)
  unfolding run_hook
  run_hook-Said message report none h w = inr (omega arith)
  run_hook-Said message report (some hook) h w = h (hook w).0

  ensure_with-Explained :
      (request : HostActionArtifactRequest) (paths : HostActionArtifactPaths) (message : String)
      (hook : Option (EnsureHook W)) (w : W)
      → Explained (ensure_with request paths message hook w).0
  unfolding ensure_with
  ensure_with-Explained request paths message none w = inr (omega arith)
  ensure_with-Explained request paths message (some hook) w =
      elim (Bool-cases (hook request paths w).0.ok) [
        | inl y ↦ inl y
        | inr n ↦ rw n (inr (omega arith))
      ]

module _ {W : Type 0} (hooks : HostActionHooks W) where
  start_server-Said : Said (execute_start_server hooks)
  unfolding execute_start_server
  start_server-Said =
      run_hook-Said "Start action is unavailable"
        (reported (λ op. record no_effects { refresh_share_info = true }) "Server started"
          "Service started" "Start failed")
        hooks.start_server_hook
        (reported-Explained (λ op. record no_effects { refresh_share_info = true }) "Server started"
          "Service started" "Start failed")

  stop_server-Said : Said (execute_stop_server hooks)
  unfolding execute_stop_server
  stop_server-Said w = run_hook-Said _ _ hooks.stop_server_hook (reported-Explained _ _ _ _) w

  open_host_page-Said : Said (execute_open_host_page hooks)
  unfolding execute_open_host_page
  open_host_page-Said w = run_hook-Said _ _ hooks.open_host_page_hook (reported-Explained _ _ _ _) w

  open_viewer_page-Said : Said (execute_open_viewer_page hooks)
  unfolding execute_open_viewer_page
  open_viewer_page-Said w =
      run_hook-Said _ _ hooks.open_viewer_page_hook (reported-Explained _ _ _ _) w

  open_path-Said : (path message : String) → Said (execute_open_path hooks path message)
  unfolding execute_open_path
  open_path-Said path message w =
      run_hook-Said _ _ (at_path path hooks.open_path_hook) (path_reported-Explained message) w

  and_then-Said :
      (first second : W → HostActionResult × W)
      → Said first
      → Said second
      → Said (and_then hooks first second)
  unfolding and_then
  and_then-Said first second f s w =
      let result = append_from empty_result (first w).0 in
      if_not-both (λ (r : HostActionResult × W). Explained r.0) result.ok _ _
        (λ n. append-Explained empty_result (first w).0 (f w))
        (λ y. append-Explained result (second (first w).1).0 (s (first w).1))

  ensure_artifacts-Explained :
      (request : HostActionArtifactRequest) (paths : HostActionArtifactPaths) (message : String)
      (w : W)
      → Explained (execute_ensure_artifacts hooks request paths message w).0
  unfolding execute_ensure_artifacts
  ensure_artifacts-Explained request paths message w =
      ensure_with-Explained request paths message hooks.ensure_artifacts_hook w

  artifacts_then_open-Said :
      (effects : HostActionEffects) (request : HostActionArtifactRequest)
      (target : HostActionArtifactPaths → String) (a b : String)
      (finish : HostActionArtifactPaths → HostActionResult → HostActionResult)
      → ((p : HostActionArtifactPaths) (r : HostActionResult) → (finish p r).ok ≡ r.ok)
      → Said (artifacts_then_open hooks effects request target a b finish)
  unfolding artifacts_then_open
  artifacts_then_open-Said effects request target a b finish same w =
      let start = record empty_result { effects = effects } in
      let made = execute_ensure_artifacts hooks request no_paths a w in
      let result = append_from start made.0 in
      let opened = append_from result (execute_open_path hooks (target made.1) b made.2).0 in
      if_not-both (λ (r : HostActionResult × W). Explained r.0) result.ok _ _
        (λ n. append-Explained start made.0 (ensure_artifacts-Explained request no_paths a w))
        (λ y.
          if-both (λ (r : HostActionResult × W). Explained r.0) opened.ok _ _
            (λ z. inl (same made.1 opened ∙ z))
            (λ n.
              append-Explained result (execute_open_path hooks (target made.1) b made.2).0
                (open_path-Said (target made.1) b made.2)))

  open_report-Said :
      (context : HostActionContext) (before : HostActionResult)
      → Said (execute_open_report hooks context before)
  unfolding execute_open_report
  open_report-Said context before w =
      let opened =
        execute_open_path hooks context.diagnostics_report_path "Open diagnostics report failed"
          w in
      if-both (λ (r : HostActionResult × W). Explained r.0) (append_from before opened.0).ok _ _
        (λ y. inl y)
        (λ n.
          append-Explained before opened.0
            (open_path-Said context.diagnostics_report_path "Open diagnostics report failed" w))

  diagnostics_report-Said :
      (context : HostActionContext) → Said (execute_open_diagnostics_report hooks context)
  unfolding execute_open_diagnostics_report
  diagnostics_report-Said context w =
      let made =
        execute_ensure_artifacts hooks no_request no_paths "Diagnostics report missing" w in
      let result = append_from empty_result made.0 in
      if-both (λ (r : HostActionResult × W). Explained r.0) context.diagnostics_report_exists _ _
        (λ y. open_report-Said context empty_result w)
        (λ n.
          if_not-both (λ (r : HostActionResult × W). Explained r.0) result.ok _ _
            (λ m.
              append-Explained empty_result made.0
                (ensure_artifacts-Explained no_request no_paths "Diagnostics report missing" w))
            (λ y. open_report-Said context result made.2))

  refresh_bundle-Said : Said (execute_refresh_diagnostics_bundle hooks)
  unfolding execute_refresh_diagnostics_bundle
  refresh_bundle-Said w =
      let message : String = "Re-run checks failed while exporting diagnostics bundle" in
      let made = execute_ensure_artifacts hooks no_request no_paths message w in
      let result = append_from empty_result made.0 in
      if-both (λ (r : HostActionResult × W). Explained r.0) result.ok _ _ (λ y. inl y)
        (λ n.
          append-Explained empty_result made.0
            (ensure_artifacts-Explained no_request no_paths message w))

  -- No action fails in silence: its result is ok, or its log has a line.
  pub execute-Explained :
      (kind : HostActionKind) (context : HostActionContext) (w : W)
      → Explained (execute_host_action hooks kind context w).0
  unfolding execute_host_action execute_show_qr execute_show_share_wizard
      execute_export_share_bundle execute_run_desktop_self_check
  execute-Explained start_server context w = start_server-Said w
  execute-Explained start_service_only context w = start_server-Said w
  execute-Explained stop_server context w = stop_server-Said w
  execute-Explained restart_server context w =
      and_then-Said (execute_stop_server hooks) (execute_start_server hooks) stop_server-Said
        start_server-Said w
  execute-Explained start_and_open_host context w =
      and_then-Said (execute_start_server hooks) (execute_open_host_page hooks) start_server-Said
        open_host_page-Said w
  execute-Explained open_host_page context w = open_host_page-Said w
  execute-Explained open_viewer_page context w = open_viewer_page-Said w
  execute-Explained show_qr context w = artifacts_then_open-Said _ _ _ _ _ _ (λ p r. refl) w
  execute-Explained show_share_wizard context w =
      artifacts_then_open-Said _ _ _ _ _ _ (λ p r. refl) w
  execute-Explained export_share_bundle context w =
      artifacts_then_open-Said _ _ _ _ _ _ (λ p r. refl) w
  execute-Explained run_desktop_self_check context w =
      artifacts_then_open-Said _ _ _ _ _ _ (λ p r. refl) w
  execute-Explained refresh_diagnostics_bundle context w = refresh_bundle-Said w
  execute-Explained open_diagnostics_report context w = diagnostics_report-Said context w
  execute-Explained open_output_folder context w =
      open_path-Said context.output_dir "Open bundle folder failed" w
