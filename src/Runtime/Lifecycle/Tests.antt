-- ===== src/Runtime/Lifecycle/Tests.antt =====
-- A window that is closed, left from the tray and destroyed.
use p2p_desktop_share_new.Base.{Bool, true, false, List, [], ◌∷◌}
use p2p_desktop_share_new.Runtime.Lifecycle.{
  HostShellLifecycleEvent, startup_ready, close_requested, destroy_requested, tray_exit_requested,
}
use p2p_desktop_share_new.Runtime.Lifecycle.Exits.{Exits}

abbrev events : List (HostShellLifecycleEvent × Bool)
events =
    (destroy_requested, false)
    ∷ (tray_exit_requested, false)
    ∷ (close_requested, true)
    ∷ (startup_ready, false)
    ∷ []
