-- ===== src/Runtime/Bridge/Event.antt =====
-- The structure of the snapshot event (shell_bridge_presenter.cpp).
use p2p_desktop_share_new.Base.{Bool, true, false, ◌&&◌, List, [], ◌∷◌, All, ◌≡◌, refl, arith}
use p2p_desktop_share_new.Base.Text.{Text, codes}
use p2p_desktop_share_new.Runtime.Bridge.Json.{quoted}
use p2p_desktop_share_new.Runtime.Bridge.Snapshot.{
  ShellBridgeAdapterCandidate, ShellBridgeSnapshotState, SnapshotMember, text_member,
  snapshot_members, candidate_members, last_member, write_candidate, write_more, write_candidates,
  snapshot_bytes,
}
use p2p_desktop_share_new.Runtime.Bridge.Shape.{
  Mode, outside, inside, escaped, scan, shape, Alike, Alike-append, Alike-refl, key_of, Plain,
  write_member-Alike, write_members-Alike,
}

is_outside : Mode → Bool
is_outside outside = true
is_outside inside = false
is_outside escaped = false

is_outside_sound : (m : Mode) → is_outside m ≡ true → m ≡ outside
unfolding is_outside
is_outside_sound outside e = refl
is_outside_sound inside e = cc
is_outside_sound escaped e = cc

-- Whether all keys are closed strings, which is computed for the keys of the event.
plain_keys : List SnapshotMember → Bool
plain_keys [] = true
plain_keys (m ∷ ms) = is_outside (scan outside (quoted (key_of m))) && plain_keys ms

plain_keys_sound : (ms : List SnapshotMember) → plain_keys ms ≡ true → All Plain ms
unfolding plain_keys
plain_keys_sound [] e = tt
plain_keys_sound (m ∷ ms) e = (
  is_outside_sound (scan outside (quoted (key_of m))) (ground arith),
  plain_keys_sound ms (ground arith),
)

module _ (f g : Text → Text) where
  candidate-Alike :
      (candidate : ShellBridgeAdapterCandidate)
      → Alike (write_candidate f candidate) (write_candidate g candidate)
  unfolding write_candidate candidate_members last_member plain_keys is_outside scan
  candidate-Alike candidate =
      let members =
        write_members-Alike f g (candidate_members candidate)
          (plain_keys_sound (candidate_members candidate) refl) in
      let last = write_member-Alike f g (last_member candidate) false refl in
      Alike-append (b'{' ∷ []) (b'{' ∷ []) _ _ (Alike-refl (b'{' ∷ []) refl) (
        Alike-append _ _ _ _ members
          (Alike-append _ _ (b'}' ∷ []) (b'}' ∷ []) last (Alike-refl (b'}' ∷ []) refl)))

  more-Alike :
      (candidates : List ShellBridgeAdapterCandidate)
      → Alike (write_more f candidates) (write_more g candidates)
  unfolding write_more scan
  more-Alike [] = Alike-refl [] refl
  more-Alike (candidate ∷ candidates) =
      Alike-append (b',' ∷ []) (b',' ∷ []) _ _ (Alike-refl (b',' ∷ []) refl)
        (Alike-append _ _ _ _ (candidate-Alike candidate) (more-Alike candidates))

  candidates-Alike :
      (candidates : List ShellBridgeAdapterCandidate)
      → Alike (write_candidates f candidates) (write_candidates g candidates)
  unfolding write_candidates scan
  candidates-Alike [] = Alike-refl [] refl
  candidates-Alike (candidate ∷ candidates) =
      Alike-append _ _ _ _ (candidate-Alike candidate) (more-Alike candidates)

  snapshot-Alike : (s : ShellBridgeSnapshotState) → Alike (snapshot_bytes f s) (snapshot_bytes g s)
  unfolding snapshot_bytes snapshot_members plain_keys is_outside scan
  snapshot-Alike s =
      let members =
        write_members-Alike f g (snapshot_members s) (plain_keys_sound (snapshot_members s) refl) in
      let kind = write_member-Alike f g (text_member "type" (codes "event")) true refl in
      let name = write_member-Alike f g (text_member "name" (codes "state.snapshot")) true refl in
      let last = write_member-Alike f g (text_member "lastErrorSummary" s.last_error) false refl in
      Alike-append (b'{' ∷ []) (b'{' ∷ []) _ _ (Alike-refl (b'{' ∷ []) refl) (
        Alike-append _ _ _ _ kind (
          Alike-append _ _ _ _ name (
            Alike-append (codes "\"payload\":{") (codes "\"payload\":{") _ _
              (Alike-refl (codes "\"payload\":{") refl)
              (Alike-append _ _ _ _ members (
                Alike-append (codes "\"networkCandidates\":[") (codes "\"networkCandidates\":[") _ _
                  (Alike-refl (codes "\"networkCandidates\":[") refl)
                  (Alike-append _ _ _ _ (candidates-Alike s.network_candidates) (
                    Alike-append (codes "],") (codes "],") _ _ (Alike-refl (codes "],") refl) (
                      Alike-append _ _ (codes "}}") (codes "}}") last
                        (Alike-refl (codes "}}") refl)))))))))

  -- Whatever bytes the conversion to UTF-8 gives for the texts of a snapshot, every string of the
  -- event is closed at its end, and what stands outside the strings does not depend on these bytes.
  pub snapshot-shape :
      (s : ShellBridgeSnapshotState)
      → (scan outside (snapshot_bytes f s) ≡ outside)
        × (shape outside (snapshot_bytes f s) ≡ shape outside (snapshot_bytes g s))
  snapshot-shape s = let alike = snapshot-Alike s in (alike.left, alike.same)
