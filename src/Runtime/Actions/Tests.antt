-- ===== src/Runtime/Actions/Tests.antt =====
-- The host actions on small examples: the world counts the calls, and the start hook fails.
use p2p_desktop_share_new.Base.{ℕ, suc, true, false, none, some}
use p2p_desktop_share_new.Runtime.Actions.{
  HostActionOperation, HostActionContext, HostActionHooks, show_qr, execute_host_action,
}
use p2p_desktop_share_new.Runtime.Actions.Failures.{Explained, execute-Explained}

abbrev fine : HostActionOperation
fine = record { ok = true; performed = true; detail = "" }

abbrev broken : HostActionOperation
broken = record { ok = false; performed = true; detail = "" }

abbrev hooks : HostActionHooks ℕ
hooks = record {
  start_server_hook = some (λ n. (broken, suc n));
  stop_server_hook = some (λ n. (fine, suc n));
  open_host_page_hook = none;
  open_viewer_page_hook = none;
  ensure_artifacts_hook = some (λ request paths n. (fine, paths, suc n));
  open_path_hook = none;
}

abbrev context : HostActionContext
context = record {
  output_dir = "out";
  diagnostics_report_path = "report";
  diagnostics_report_exists = true;
}

execute-Explained_example : Explained (execute_host_action hooks show_qr context 0).0
execute-Explained_example = execute-Explained hooks show_qr context 0
