-- ===== src/Server/Hub/Refinement/Join.antt =====
-- `WsHub::JoinViewer` against the abstract join of Members.
use p2p_desktop_share_new.Base.{
  ℕ, ◌+◌, ◌-◌, String, Bool, true, false, some, List, ◌≡◌, refl, sym, ap, subst, ◌∙◌, arith, str_eq,
  if◌then◌else◌,
}
use p2p_desktop_share_new.Base.Dict.{
  lookup, retain, count, one_if, seen-insert, count-retain, count-insert, Distinct-retain,
}
use p2p_desktop_share_new.Server.Hub.{
  RoomState, WsHub, lock, expired, gen_viewer_id, join_viewer, room_at,
}
use p2p_desktop_share_new.Server.Hub.Cases.{join_cases, write_room, joined, pruned}
use p2p_desktop_share_new.Server.Hub.WellFormed.{IsWellFormed, lookup-RoomOk}
use p2p_desktop_share_new.Server.Hub.Members.{
  Membership, Same, host_in, viewer_in, load_in, view, set_viewer, spec_join,
}
use p2p_desktop_share_new.Server.Hub.Refinement.{
  lock-retain, changed, unchanged, Same-refl, hosts_written, viewers_written, loads_written,
  rewritten-Same, spec_join_missing, spec_join_full, spec_join_space, host_gone, host_there, seen,
}

else_part {ℓ} :
    {A : Type ℓ} (b : Bool) (x y z : A) → y ≡ z → (if b then x else y) ≡ (if b then x else z)
else_part true x y z e = refl
else_part false x y z e = e

module _ (alive : ℕ → Bool) (room : String) (h : WsHub) (v : IsWellFormed h) where
  module _ (rs : RoomState) (found : lookup room h.rooms ≡ some rs) where
    -- Pruning the found room is not seen.
    pruned-Same : Same (view alive (write_room h room (pruned alive rs))) (view alive h)
    pruned-Same =
        rewritten-Same alive room h v (pruned alive rs) (ap (host_in alive) (sym found))
          (λ p.
            lock-retain alive p rs.viewers (lookup-RoomOk h room v found).distinct
            ∙ ap (viewer_in alive p) (sym found))
          (count-retain alive rs.viewers ∙ ap (load_in alive) (sym found))

    module _ (s : ℕ) (draws : List ℕ) (up : alive s ≡ true) where
      abbrev peer_id : String
      peer_id = gen_viewer_id draws

      kept_viewers :
          (p : String)
          → lock alive (lookup p (retain alive rs.viewers)) ≡ (view alive h).viewer room p
      kept_viewers p =
          lock-retain alive p rs.viewers (lookup-RoomOk h room v found).distinct
          ∙ ap (viewer_in alive p) (sym found)

      joined_viewer :
          (p : String)
          → lock alive (lookup p (joined alive room s draws h rs).viewers)
            ≡ (if str_eq peer_id p then some s else (view alive h).viewer room p)
      joined_viewer p =
          seen-insert (lock alive) peer_id p s (retain alive rs.viewers)
          ∙ ap
              (λ x. if str_eq peer_id p then x else lock alive (lookup p (retain alive rs.viewers)))
              (ground (arith, up))
          ∙ else_part (str_eq peer_id p) (some s) _ _ (kept_viewers p)

      joined_load :
          count alive (joined alive room s draws h rs).viewers
          ≡ (view alive h).load room + 1 - one_if ((view alive h).viewer room peer_id)
      joined_load = omega (
        arith,
        count-insert alive peer_id s (retain alive rs.viewers) up
            (Distinct-retain alive rs.viewers (lookup-RoomOk h room v found).distinct),
        ap one_if (kept_viewers peer_id),
        count-retain alive rs.viewers ∙ ap (load_in alive) (sym found),
      )

      joined-Same :
          Same
            (view alive (write_room h room (joined alive room s draws h rs)))
            (set_viewer room peer_id (some s) (view alive h))
      joined-Same = record {
        hosts = λ q.
            hosts_written alive room h v _ q
            ∙ unchanged (view alive h).host room _ (ap (host_in alive) (sym found)) q;
        viewers = λ q p.
            viewers_written alive room h v _ p q
            ∙ changed (λ r. (view alive h).viewer r p) room _
                (λ r. if str_eq peer_id p then some s else (view alive h).viewer r p)
                (joined_viewer p) q;
        loads = λ q.
            loads_written alive room h v _ q
            ∙ changed (view alive h).load room _
                (λ r. (view alive h).load r + 1 - one_if ((view alive h).viewer r peer_id))
                joined_load q;
      }

  abbrev Agrees : WsHub × String × String → Membership × String × String → Type 0
  Agrees r q = Same (view alive r.0) q.0 × (r.1 ≡ q.1) × (r.2 ≡ q.2)

  host_found :
      (rs : RoomState)
      → lookup room h.rooms ≡ some rs
      → expired alive rs.host ≡ false
      → (s : ℕ) × ((view alive h).host room ≡ some s)
  host_found rs found live =
      let (s, e) = host_there alive rs.host live in (s, ap (host_in alive) found ∙ e)

  -- For a well-formed hub and a live session, joining is the abstract join, on every branch: an
  -- empty room name is a bad request, a room with no live host is not found, a room with as many
  -- live viewers as the limit is full, and in these cases nothing is seen to change; otherwise
  -- the session is in the room under the generated id, and every other id and room is as it was.
  pub join_viewer-refines :
      (s : ℕ) (draws : List ℕ)
      → alive s ≡ true
      → let r = join_viewer alive room s draws h in
        let q = spec_join room s (gen_viewer_id draws) h.max_viewers_per_room (view alive h) in
        Same (view alive r.0) q.0 × (r.1 ≡ q.1) × (r.2 ≡ q.2)
  join_viewer-refines s draws up =
      join_cases alive room s draws h
        (λ r.
          Agrees r (spec_join room s (gen_viewer_id draws) h.max_viewers_per_room (view alive h)))
        (λ e. rw e (Same-refl _, refl, refl))
        (λ n gone.
          subst (Agrees (h, "", "ROOM_NOT_FOUND"))
            (sym (
              spec_join_missing room s (view alive h) n (gen_viewer_id draws) h.max_viewers_per_room
                (sym (seen alive room h v).0 ∙ host_gone alive (room_at room h.rooms).host gone)))
            (Same-refl _, refl, refl))
        (λ rs n found live full.
          let (host, held) = host_found rs found live in
          subst (Agrees (write_room h room (pruned alive rs), "", "ROOM_FULL"))
            (sym (
              spec_join_full room s (view alive h) n (gen_viewer_id draws) h.max_viewers_per_room
                host held (rw found full)))
            (pruned-Same rs found, refl, refl))
        (λ rs n found live space.
          let (host, held) = host_found rs found live in
          subst
            (Agrees (write_room h room (joined alive room s draws h rs), gen_viewer_id draws, ""))
            (sym (
              spec_join_space room s (view alive h) n (gen_viewer_id draws) h.max_viewers_per_room
                host held (rw found space)))
            (joined-Same rs found s draws up, refl, refl))
