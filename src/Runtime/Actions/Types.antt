-- ===== src/Runtime/Actions/Types.antt =====
-- core/runtime/host_action_coordinator: its types, and how results are made and merged.
use p2p_desktop_share_new.Base.{
  String, Bool, false, not, ◌&&◌, ◌||◌, Option, none, some, List, [], ◌∷◌, ◌++◌, if◌then◌else◌,
  str_eq,
}
use p2p_desktop_share_new.Base.Int.{or_text}

pub data HostActionKind : Type 0 where
  start_server stop_server restart_server start_service_only start_and_open_host : HostActionKind
  open_host_page open_viewer_page show_qr show_share_wizard export_share_bundle : HostActionKind
  run_desktop_self_check refresh_diagnostics_bundle open_diagnostics_report open_output_folder :
      HostActionKind

pub data HostActionPage : Type 0 where
  no_page setup network sharing diagnostics : HostActionPage

pub record HostActionOperation : Type 0 where
  pub ok : Bool
  pub performed : Bool
  pub detail : String

pub record HostActionArtifactRequest : Type 0 where
  pub share_card : Bool
  pub share_wizard : Bool
  pub bundle_json : Bool
  pub desktop_self_check : Bool

pub record HostActionArtifactPaths : Type 0 where
  pub share_card_path : String
  pub share_wizard_path : String
  pub bundle_json_path : String
  pub desktop_self_check_path : String

pub record HostActionContext : Type 0 where
  pub output_dir : String
  pub diagnostics_report_path : String
  pub diagnostics_report_exists : Bool

pub record HostActionEffects : Type 0 where
  pub handoff_started : Bool
  pub share_wizard_opened : Bool
  pub share_card_exported : Bool
  pub clear_handoff_delivered : Bool
  pub refresh_share_info : Bool
  pub refresh_dashboard : Bool
  pub set_page : Bool
  pub page : HostActionPage

-- A line of the log or the timeline: a text, or a text with a path behind it.
pub data Line : Type 0 where
  says : String → Line
  says_path : String → String → Line

pub record HostActionResult : Type 0 where
  pub ok : Bool
  pub performed : Bool
  pub logs : List Line
  pub timeline_events : List Line
  pub effects : HostActionEffects
  pub paths : HostActionArtifactPaths

pub record HostActionHooks (W : Type 0) : Type 0 where
  pub start_server_hook : Option (W → HostActionOperation × W)
  pub stop_server_hook : Option (W → HostActionOperation × W)
  pub open_host_page_hook : Option (W → HostActionOperation × W)
  pub open_viewer_page_hook : Option (W → HostActionOperation × W)
  pub ensure_artifacts_hook : Option (
      HostActionArtifactRequest
      → HostActionArtifactPaths
      → W
      → HostActionOperation × HostActionArtifactPaths × W)
  pub open_path_hook : Option (String → W → HostActionOperation × W)

abbrev pub no_effects : HostActionEffects
no_effects = record {
  handoff_started = false;
  share_wizard_opened = false;
  share_card_exported = false;
  clear_handoff_delivered = false;
  refresh_share_info = false;
  refresh_dashboard = false;
  set_page = false;
  page = no_page;
}

abbrev pub no_paths : HostActionArtifactPaths
no_paths = record {
  share_card_path = "";
  share_wizard_path = "";
  bundle_json_path = "";
  desktop_self_check_path = "";
}

abbrev pub no_request : HostActionArtifactRequest
no_request = record {
  share_card = false;
  share_wizard = false;
  bundle_json = false;
  desktop_self_check = false;
}

abbrev pub empty_result : HostActionResult
empty_result = record {
  ok = false;
  performed = false;
  logs = [];
  timeline_events = [];
  effects = no_effects;
  paths = no_paths;
}

abbrev pub failure_result : String → HostActionResult
failure_result message = record empty_result { logs = says message ∷ [] }

-- The effects that `AppendFrom` merges.
abbrev pub merge_effects : HostActionEffects → HostActionEffects → HostActionEffects
merge_effects dst src = record {
  handoff_started = dst.handoff_started || src.handoff_started;
  share_wizard_opened = dst.share_wizard_opened || src.share_wizard_opened;
  share_card_exported = dst.share_card_exported || src.share_card_exported;
  clear_handoff_delivered = dst.clear_handoff_delivered || src.clear_handoff_delivered;
  refresh_share_info = dst.refresh_share_info || src.refresh_share_info;
  refresh_dashboard = dst.refresh_dashboard || src.refresh_dashboard;
  set_page = dst.set_page || src.set_page;
  page = if src.set_page then src.page else dst.page;
}

abbrev pub merge_paths : HostActionArtifactPaths → HostActionArtifactPaths → HostActionArtifactPaths
merge_paths dst src = record {
  share_card_path = or_text src.share_card_path dst.share_card_path;
  share_wizard_path = or_text src.share_wizard_path dst.share_wizard_path;
  bundle_json_path = or_text src.bundle_json_path dst.bundle_json_path;
  desktop_self_check_path = or_text src.desktop_self_check_path dst.desktop_self_check_path;
}

unfoldable pub append_from : HostActionResult → HostActionResult → HostActionResult
append_from dst src = record {
  ok = src.ok;
  performed = dst.performed || src.performed;
  logs = dst.logs ++ src.logs;
  timeline_events = dst.timeline_events ++ src.timeline_events;
  effects = merge_effects dst.effects src.effects;
  paths = merge_paths dst.paths src.paths;
}

-- What the four hook actions make of an operation: `done` and `event` when it was performed,
-- `failed` when it was not ok; a detail stands in for `done` and `failed`.
unfoldable pub reported :
    (HostActionOperation → HostActionEffects)
    → String
    → String
    → String
    → HostActionOperation
    → HostActionResult
reported effects done event failed op = record empty_result {
  ok = op.ok;
  performed = op.performed;
  effects = effects op;
  logs =
      if op.ok
      then (if op.performed
          then says (or_text op.detail done) ∷ []
          else if str_eq op.detail ""
          then []
          else says op.detail ∷ [])
      else says (or_text op.detail failed) ∷ [];
  timeline_events = if op.ok && op.performed then says event ∷ [] else [];
}

abbrev pub with_log : Line → HostActionResult → HostActionResult
with_log line r = record r { logs = r.logs ++ line ∷ [] }

abbrev pub with_event : Line → HostActionResult → HostActionResult
with_event line r = record r { timeline_events = r.timeline_events ++ line ∷ [] }

-- The shape of an action on one hook: unavailable without it, and else a report of what it said.
unfoldable pub run_hook :
    {W : Type 0}
    → String
    → (HostActionOperation → HostActionResult)
    → Option (W → HostActionOperation × W)
    → W
    → HostActionResult × W
run_hook message report none w = (failure_result message, w)
run_hook message report (some hook) w = let (op, w') = hook w in (report op, w')

-- The hook that makes artifacts. It writes the paths, which the caller goes on with.
abbrev pub EnsureHook : Type 0 → Type 0
EnsureHook W =
    HostActionArtifactRequest
    → HostActionArtifactPaths
    → W
    → HostActionOperation × HostActionArtifactPaths × W

unfoldable pub ensure_with :
    {W : Type 0}
    → HostActionArtifactRequest
    → HostActionArtifactPaths
    → String
    → Option (EnsureHook W)
    → W
    → HostActionResult × HostActionArtifactPaths × W
ensure_with request paths failure_message none w = (failure_result failure_message, paths, w)
ensure_with request paths failure_message (some hook) w =
    let (op, paths', w') = hook request paths w in
    (
      record empty_result {
        ok = op.ok;
        performed = op.performed;
        paths = paths';
        logs = if op.ok then [] else says (or_text op.detail failure_message) ∷ [];
      },
      paths',
      w',
    )

-- What `ExecuteOpenPath` makes of an operation.
unfoldable pub path_reported : String → HostActionOperation → HostActionResult
path_reported failure_message op = record empty_result {
  ok = op.ok;
  performed = op.performed;
  logs =
      if op.ok
      then (if op.performed && not (str_eq op.detail "") then says op.detail ∷ [] else [])
      else says (or_text op.detail failure_message) ∷ [];
}

-- `openPath`, if it was set, on one path.
abbrev pub at_path :
    {W : Type 0}
    → String
    → Option (String → W → HostActionOperation × W)
    → Option (W → HostActionOperation × W)
at_path path none = none
at_path path (some hook) = some (hook path)
