-- ===== src/HostShell.antt =====
-- host_shell: the native shell around the sharing service.
pub mod Controller
