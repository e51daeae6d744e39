-- ===== src/Runtime/Lifecycle/Exits.antt =====
-- When the shell ends its window and its server (host_shell_lifecycle_coordinator.cpp).
use p2p_desktop_share_new.Base.{Bool, true, false, List, [], ◌∷◌, ◌++◌, ◌≡◌}
use p2p_desktop_share_new.Runtime.Lifecycle.{
  HostShellLifecycleEvent, destroy_requested, tray_exit_requested,
}
use p2p_desktop_share_new.Runtime.Lifecycle.Window.{
  ShellEffect, stops_server, destroys_window, HostShellWindow, lifecycle_event,
}

-- The events so far, the newest first, each with its flag for the balloon.
unfoldable pub window_run :
    List (HostShellLifecycleEvent × Bool) → HostShellWindow × List ShellEffect
window_run [] = (record { has_window = true; exit_requested = false }, [])
window_run ((event, show_balloon) ∷ events) =
    let older = window_run events in
    let newer = lifecycle_event older.0 event show_balloon in (newer.0, newer.1 ++ older.1)

abbrev pub destroys : List ShellEffect → Bool
destroys [] = false
destroys (destroys_window ∷ effects) = true
destroys (effect ∷ effects) = destroys effects

abbrev pub stops : List ShellEffect → Bool
stops [] = false
stops (stops_server ∷ effects) = true
stops (effect ∷ effects) = stops effects

-- Whether the tray asked to leave, and whether the window was destroyed.
abbrev pub left : List (HostShellLifecycleEvent × Bool) → Bool
left [] = false
left ((tray_exit_requested, _) ∷ events) = true
left (event ∷ events) = left events

abbrev pub destroyed : List (HostShellLifecycleEvent × Bool) → Bool
destroyed [] = false
destroyed ((destroy_requested, _) ∷ events) = true
destroyed (event ∷ events) = destroyed events

abbrev pub window_with : Bool → HostShellWindow
window_with asked = record { has_window = true; exit_requested = asked }

-- What holds after the events.
abbrev pub Exits :
    List (HostShellLifecycleEvent × Bool) → HostShellWindow × List ShellEffect → Type 0
Exits events (window, effects) =
    (window ≡ window_with (left events))
    × (destroys effects ≡ left events)
    × (stops effects ≡ destroyed events)

abbrev after :
    HostShellLifecycleEvent → Bool → Bool → List ShellEffect → HostShellWindow × List ShellEffect
after event show_balloon asked older =
    let newer = lifecycle_event (window_with asked) event show_balloon in
    (newer.0, newer.1 ++ older)
