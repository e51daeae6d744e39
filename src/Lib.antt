-- ===== src/Lib.antt =====
-- ViewMesh shares a desktop with viewers on the local network. This library models the parts of its
-- C++ code that decide something: the signaling server, the choice of the advertised address, and the
-- coordinators of the desktop shell. Paths are from the repository's root.
--
--   Base      lists, association lists, texts as lists of codes, `int`s.
--   Protocol  src/core/protocol: the builders of the server's messages and the string getters.
--             Boost.JSON is a parameter, the record JsonLib, with documented laws of its objects.
--   Server    src/core/server. Server/Hub is ws_hub.cpp: rooms with a host, a token and viewers,
--             under names. A session is a number, a weak pointer to it is a number with the test
--             `alive`, and each operation is one step because it holds the mutex. Server/Session is
--             ws_session_handlers.cpp and the end of a connection in ws_session.cpp: handlers that
--             turn a world (hub, sessions, texts sent) into a world. Server/Outbox is Send, DoWrite and
--             OnWrite of ws_session.cpp, each handler on the strand one step. Server/Router is
--             http_router.cpp, with the file system as a parameter. Server/HttpSession is
--             http_session.cpp: the events of a connection and what they do.
--   Network   src/core/network/endpoint_selection.cpp: dotted addresses, entries, scores, and the
--             resolution of the bind address, the advertised address and the preferred host.
--   Runtime   src/core/runtime: Alerts is native_shell_alert_coordinator, HostSession is
--             host_session_coordinator, Actions is host_action_coordinator, RemoteProbe is
--             remote_probe_orchestrator. Bridge is shell_bridge_presenter: Bridge/Json reads and writes
--             the fields of a message, Bridge/Commands and Bridge/Inbound parse it,
--             Bridge/Snapshot writes the event with the state of the shell. AdminShell is
--             admin_shell_coordinator, Observability is host_observability_coordinator, EditSession
--             is desktop_edit_session_presenter, Controller is runtime_controller, Schedule is
--             host_runtime_scheduler. HostRuntime is host_runtime_coordinator and
--             src/platform/host_runtime_refresh_pipeline.cpp, with the answers of the probes as
--             arguments. Lifecycle is host_shell_lifecycle_coordinator, and Lifecycle/Window what
--             ShellEffectExecutor and MainWindow of src/desktop_host do with a plan.
--   I18n      src/core/i18n/localization.h: the codes of the locales and the lang parameter of URLs.
--   HostShell src/host_shell: Controller is native_shell_action_controller on POSIX, with the system's
--             calls as functions on a world.
--
-- A message reaches Server/Session, which asks Server/Hub; what the hub sends is a list of pairs of a
-- session and a text. Server/Hub/Members describes a hub by who is in which room, without tables, and
-- Server/Hub/Refinement relates the operations to that description. The histories of
-- Server/Session/Run are sequences of messages, closed connections and destroyed sessions.
-- Server/Service is service_host.cpp: the starts and stops around hub, listener and threads.
--
-- A text of a web page is parsed by Runtime/Bridge; Runtime/AdminShell turns a command of the admin
-- page into the call of a hook, one kind of which runs an action of Runtime/Actions, and
-- Runtime/Observability takes the status of the host page. The form of Runtime/EditSession is filled
-- from a state of Runtime/HostSession and applied to one. The links of Runtime/Controller get their
-- locale from I18n.
--
-- The two loops of HostShell/Controller run until a deadline and are recursion on fuel. The loop that
-- waits for a live state sleeps 10 ms or more a turn and has the timeout in milliseconds (0 for a
-- negative one) and two more as fuel; the loop that waits for a process to end sleeps 50 ms a turn for 2000 ms and has 42. The
-- clock is a hypothesis: it does not go back, and a sleep takes the time it was asked for. A decimal
-- number is printed with one more than itself as fuel, which is more than it has digits. All other
-- loops are structural recursion. Random draws are arguments. Numbers are unbounded: the counters count
-- sessions and samples, which do not come near the limits of their types, and the scores of interfaces
-- are small; the count of ticks wraps. A char that is widened is signed and a wchar_t has 16 bits.
-- The largest unsigned long, which bounds the numbers read from a message, is an argument.
-- Characters are classified and folded as in the "C" locale.
--
-- Not modelled: sockets, threads and timers, the handshake of a session, the Win32 and WebView shell,
-- the generated files of share_artifact_service.cpp, the tables of translated texts, most view
-- models, and the JavaScript pages.
pub mod Base
pub mod Protocol
pub mod Server
pub mod Network
pub mod Runtime
pub mod HostShell
pub mod I18n
