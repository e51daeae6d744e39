-- ===== src/Runtime/Bridge/Inbound.antt =====
-- core/runtime/shell_bridge_presenter: the messages of the web pages. `ulong_max` is the largest
-- unsigned long of the platform.
use p2p_desktop_share_new.Base.{ℕ, leb, not, ◌&&◌, Option, none, some, [], if◌then◌else◌}
use p2p_desktop_share_new.Base.Text.{Text, codes, text_eq}
use p2p_desktop_share_new.Runtime.Bridge.Json.{json_string_field, json_has_field, json_int_field}
use p2p_desktop_share_new.Runtime.Bridge.Commands.{
  ShellBridgeAdminCommandKind, no_command, apply_session, select_adapter, apply_hotspot,
  switch_page, set_language, parse_admin_command_kind,
}

pub data ShellBridgeSource : Type 0 where
  unknown_source admin_shell host_page : ShellBridgeSource

pub data ShellBridgeInboundKind : Type 0 where
  no_message admin_ready admin_request_snapshot admin_command : ShellBridgeInboundKind
  host_status host_log unknown_message : ShellBridgeInboundKind

-- `index` with `hasIndex` is an option.
pub record ShellBridgeAdminCommand : Type 0 where
  pub kind : ShellBridgeAdminCommandKind
  pub command_name : Text
  pub locale : Text
  pub room : Text
  pub token : Text
  pub bind : Text
  pub port : ℕ
  pub index : Option ℕ
  pub ssid : Text
  pub password : Text
  pub page : Text

-- A text or a number that comes with a flag is an option.
pub record ShellBridgeInboundMessage : Type 0 where
  pub source : ShellBridgeSource
  pub kind : ShellBridgeInboundKind
  pub admin_command : ShellBridgeAdminCommand
  pub host_state : Text
  pub capture_state : Option Text
  pub capture_label : Option Text
  pub viewers : Option ℕ
  pub log_message : Text
  pub raw_payload : Text

abbrev pub empty_command : ShellBridgeAdminCommand
empty_command = record {
  kind = no_command;
  command_name = [];
  locale = [];
  room = [];
  token = [];
  bind = [];
  port = 9443;
  index = none;
  ssid = [];
  password = [];
  page = [];
}

abbrev pub empty_message :
    ShellBridgeSource → ShellBridgeInboundKind → Text → ShellBridgeInboundMessage
empty_message source kind payload = record {
  source = source;
  kind = kind;
  admin_command = empty_command;
  host_state = [];
  capture_state = none;
  capture_label = none;
  viewers = none;
  log_message = [];
  raw_payload = payload;
}

-- A port that is given and fits replaces the default.
unfoldable pub checked_port : Option ℕ → ℕ
checked_port none = 9443
checked_port (some port) = if leb 1 port && leb port 65535 then port else 9443

module _ (ulong_max : ℕ) (payload : Text) where
  abbrev pub field : Text → Text
  field key = json_string_field payload key

  -- The fields that a kind of command reads.
  unfoldable pub command_fields :
      ShellBridgeAdminCommand → ShellBridgeAdminCommandKind → ShellBridgeAdminCommand
  command_fields command apply_session = record command {
    room = field (codes "room");
    token = field (codes "token");
    bind = field (codes "bind");
    port = checked_port (json_int_field ulong_max payload (codes "port"));
  }
  command_fields command select_adapter = record command {
    index = json_int_field ulong_max payload (codes "index");
  }
  command_fields command apply_hotspot = record command {
    ssid = field (codes "ssid");
    password = field (codes "password");
  }
  command_fields command switch_page = record command { page = field (codes "page") }
  command_fields command set_language = record command { locale = field (codes "locale") }
  command_fields command other = command

  unfoldable pub read_command : Text → ShellBridgeAdminCommand
  read_command command_name =
      let kind = parse_admin_command_kind command_name in
      command_fields (record empty_command { kind = kind; command_name = command_name }) kind

  -- `ParseAdminShellMessage`.
  unfoldable pub parse_admin_shell_message : Text → ShellBridgeInboundMessage
  parse_admin_shell_message kind =
      if text_eq kind (codes "ready")
      then empty_message admin_shell admin_ready payload
      else if text_eq kind (codes "request-snapshot")
      then empty_message admin_shell admin_request_snapshot payload
      else if not (text_eq kind (codes "command"))
      then empty_message admin_shell unknown_message payload
      else record (empty_message admin_shell admin_command payload) {
        admin_command = read_command (field (codes "command"));
      }

  abbrev pub optional_field : Text → Option Text
  optional_field key = if json_has_field payload key then some (field key) else none

  -- The part of `ParseShellBridgeInboundMessage` behind the test of the source.
  unfoldable pub parse_host_message : Text → ShellBridgeInboundMessage
  parse_host_message kind =
      if text_eq kind (codes "status")
      then record (empty_message host_page host_status payload) {
        host_state = field (codes "state");
        capture_state = optional_field (codes "captureState");
        capture_label = optional_field (codes "captureLabel");
        viewers = json_int_field ulong_max payload (codes "viewers");
      }
      else if text_eq kind (codes "log")
      then record (empty_message host_page host_log payload) {
        log_message = field (codes "message");
      }
      else if not (text_eq kind [])
      then empty_message host_page unknown_message payload
      else empty_message unknown_source no_message payload

  -- `ParseShellBridgeInboundMessage`.
  unfoldable pub parse_shell_bridge_inbound_message : ShellBridgeInboundMessage
  parse_shell_bridge_inbound_message =
      if text_eq (field (codes "source")) (codes "admin-shell")
      then parse_admin_shell_message (field (codes "kind"))
      else parse_host_message (field (codes "kind"))
