-- ===== src/Runtime/RemoteProbe.antt =====
-- core/runtime/remote_probe_orchestrator: what to advise after the interfaces were probed. Texts
-- are lists of codes; a null pointer to a candidate is `none`.
pub mod Advice
mod Tests
use p2p_desktop_share_new.Base.{
  ℕ, ◌+◌, leb, Bool, true, false, not, ◌&&◌, ◌||◌, Option, none, some, List, [], ◌∷◌, ◌++◌, map,
  if◌then◌else◌,
}
use p2p_desktop_share_new.Base.Text.{Text, codes, text_eq}

pub record RemoteProbeCandidateInput : Type 0 where
  pub name : Text
  pub ip : Text
  pub type_name : Text
  pub recommended : Bool
  pub selected : Bool
  pub probe_ready : Bool
  pub probe_detail : Text

pub record RemoteProbeCandidateViewModel : Type 0 where
  pub name : Text
  pub ip : Text
  pub type_name : Text
  pub recommended : Bool
  pub selected : Bool
  pub probe_ready : Bool
  pub probe_label : Text
  pub probe_detail : Text

pub record RemoteProbePlan : Type 0 where
  pub label : Text
  pub detail : Text
  pub action : Text
  pub suggested_ip : Text
  pub selected_ready : Bool
  pub alternate_ready : Bool
  pub candidates : List RemoteProbeCandidateViewModel

-- What a candidate must be for `FindFirstReady` to stop at it.
abbrev pub acceptable : Bool → Bool → RemoteProbeCandidateInput → Bool
acceptable require_recommended require_alternate c =
    c.probe_ready
    && not (require_recommended && not c.recommended)
    && not (require_alternate && c.selected)

pub find_first :
    (RemoteProbeCandidateInput → Bool)
    → List RemoteProbeCandidateInput
    → Option RemoteProbeCandidateInput
find_first test [] = none
find_first test (c ∷ candidates) =
    let later = find_first test candidates in if test c then some c else later

abbrev pub find_first_ready :
    List RemoteProbeCandidateInput → Bool → Bool → Option RemoteProbeCandidateInput
find_first_ready candidates require_recommended require_alternate =
    find_first (acceptable require_recommended require_alternate) candidates

abbrev pub find_selected : List RemoteProbeCandidateInput → Option RemoteProbeCandidateInput
find_selected candidates = find_first (λ c. c.selected) candidates

abbrev pub default_probe_detail : RemoteProbeCandidateInput → Text
default_probe_detail c =
    if not (text_eq c.probe_detail [])
    then c.probe_detail
    else if c.probe_ready
    then codes "The LAN /health probe succeeded for this address."
    else codes "The LAN /health probe did not return a usable response for this address."

abbrev pub view_of : RemoteProbeCandidateInput → RemoteProbeCandidateViewModel
view_of c = record {
  name = c.name;
  ip = c.ip;
  type_name = c.type_name;
  recommended = c.recommended;
  selected = c.selected;
  probe_ready = c.probe_ready;
  probe_label = if c.probe_ready then codes "LAN /health ok" else codes "LAN /health failed";
  probe_detail = default_probe_detail c;
}

abbrev pub ready_count : List RemoteProbeCandidateInput → ℕ
ready_count [] = 0
ready_count (c ∷ candidates) =
    let later = ready_count candidates in if c.probe_ready then later + 1 else later

abbrev pub has_one : Option RemoteProbeCandidateInput → Bool
has_one none = false
has_one (some c) = true

module _ (views : List RemoteProbeCandidateViewModel) where
  abbrev pub advise : Text → Text → Text → Text → Bool → Bool → RemoteProbePlan
  advise label detail action suggested_ip selected_ready alternate_ready = record {
    label = label;
    detail = detail;
    action = action;
    suggested_ip = suggested_ip;
    selected_ready = selected_ready;
    alternate_ready = alternate_ready;
    candidates = views;
  }

  abbrev pub no_candidates : RemoteProbePlan
  no_candidates =
      advise (codes "No LAN candidates")
        (codes
          "No active IPv4 adapter candidate is available yet, so there is nothing to probe from the current host.")
        (codes "Refresh adapter detection or connect the host to the intended LAN / hotspot first.")
        [] false false

  abbrev pub confirmed :
      RemoteProbeCandidateInput → Option RemoteProbeCandidateInput → ℕ → RemoteProbePlan
  confirmed s alternate count =
      let base =
        codes "The current host IP " ++ (s.ip ++ codes " answered the LAN /health probe.") in
      let another = leb 2 count && has_one alternate in
      advise (codes "Selected adapter confirmed")
        (if another
          then base
            ++ codes
                " Another active adapter also answered, so more than one LAN path looks viable right now."
          else base)
        (codes
          "Keep using the current Viewer URL, or re-export share material after switching adapters if you want a different LAN entry.")
        [] true another

  abbrev pub switch_to_recommended :
      RemoteProbeCandidateInput → RemoteProbeCandidateInput → RemoteProbePlan
  switch_to_recommended s r =
      advise (codes "Recommended adapter answered")
        (codes "The selected host IP "
          ++ (s.ip
              ++ (codes " did not answer the LAN /health probe, but the recommended adapter "
                  ++ (r.ip ++ codes " did answer."))))
        (codes "Switch the main host IP to "
          ++ (r.ip
              ++ codes ", then refresh the Viewer URL / offline bundle before handing it off."))
        r.ip false true

  abbrev pub take_recommended : RemoteProbeCandidateInput → RemoteProbePlan
  take_recommended r =
      advise (codes "Recommended adapter is ready")
        (codes "No main host IP is selected yet, but the recommended LAN adapter "
          ++ (r.ip ++ codes " already answered the local /health probe."))
        (codes "Select "
          ++ (r.ip ++ codes " as the main host IP before copying or exporting the Viewer URL."))
        r.ip false true

  abbrev pub switch_to_alternate :
      RemoteProbeCandidateInput → RemoteProbeCandidateInput → RemoteProbePlan
  switch_to_alternate s a =
      advise (codes "Alternate adapter answered")
        (codes "The current host IP "
          ++ (s.ip
              ++ (codes " did not answer, but another active LAN address "
                  ++ (a.ip ++ codes " did answer the local /health probe."))))
        (codes
          "Switch to the responding adapter or disable the unrelated adapter before trying the viewer handoff again.")
        a.ip false true

  -- The end of the ladder.
  abbrev pub by_any : Option RemoteProbeCandidateInput → RemoteProbePlan
  by_any (some c) =
      advise (codes "At least one LAN path is reachable")
        (codes "The adapter "
          ++ (c.ip
              ++ codes
                  " answered the local /health probe, but the current host selection still needs cleanup."))
        (codes
          "Use the responding LAN adapter as the primary share entry before exporting or copying the Viewer URL again.")
        c.ip false true
  by_any none =
      advise (codes "No adapter answered")
        (codes "None of the active LAN adapter candidates answered the local /health probe.")
        (codes
          "Verify the bind address, Windows Firewall, and same-LAN path first. Then retry adapter detection or collect a remote probe guide.")
        [] false false

  abbrev pub by_alternate :
      RemoteProbeCandidateInput
      → Option RemoteProbeCandidateInput
      → Option RemoteProbeCandidateInput
      → RemoteProbePlan
  by_alternate s (some a) any = switch_to_alternate s a
  by_alternate s none any = by_any any

  abbrev pub by_recommended :
      RemoteProbeCandidateInput
      → Option RemoteProbeCandidateInput
      → Option RemoteProbeCandidateInput
      → Option RemoteProbeCandidateInput
      → RemoteProbePlan
  by_recommended s (some r) alternate any =
      if not (text_eq r.ip s.ip) then switch_to_recommended s r else by_alternate s alternate any
  by_recommended s none alternate any = by_alternate s alternate any

  -- The ladder behind the loop, on what the four searches found.
  abbrev pub by_selected :
      Option RemoteProbeCandidateInput
      → Option RemoteProbeCandidateInput
      → Option RemoteProbeCandidateInput
      → Option RemoteProbeCandidateInput
      → ℕ
      → RemoteProbePlan
  by_selected (some s) recommended alternate any count =
      if s.probe_ready
      then confirmed s alternate count
      else by_recommended s recommended alternate any
  by_selected none (some r) alternate any count = take_recommended r
  by_selected none none alternate any count = by_any any

-- `BuildRemoteProbePlan`.
pub build_remote_probe_plan : List RemoteProbeCandidateInput → RemoteProbePlan
build_remote_probe_plan [] = no_candidates []
build_remote_probe_plan (c ∷ cs) =
    let all = c ∷ cs in
    by_selected (map view_of all) (find_selected all) (find_first_ready all true false)
      (find_first_ready all false true) (find_first_ready all false false) (ready_count all)
