-- ===== src/Server/Hub/Tests.antt =====
-- The hub on a small example: a room with one viewer and place for another.
use p2p_desktop_share_new.Base.{ℕ, String, Bool, true, some, [], ◌∷◌, ◌≡◌, refl, Elem}
use p2p_desktop_share_new.Base.Dict.{lookup}
use p2p_desktop_share_new.Protocol.{session_ended}
use p2p_desktop_share_new.Protocol.Plain.{plain, differ}
use p2p_desktop_share_new.Server.Hub.{
  RoomState, WsHub, Send, register_host, join_viewer, leave, gen_viewer_id,
}
use p2p_desktop_share_new.Server.Hub.WellFormed.{IsWellFormed}
use p2p_desktop_share_new.Server.Hub.Capacity.{
  System, start, here, next, registers, joins, dies, without, Holds, Reach-Holds,
}
use p2p_desktop_share_new.Server.Hub.Members.{Same, view, spec_register, spec_join, spec_leave}
use p2p_desktop_share_new.Server.Hub.Refinement.{register_host-refines}
use p2p_desktop_share_new.Server.Hub.Refinement.Join.{join_viewer-refines}
use p2p_desktop_share_new.Server.Hub.Refinement.Leave.{leave-refines}
use p2p_desktop_share_new.Server.Hub.Delivery.{leave_host-tells}

-- Session 9 is gone.
abbrev up : ℕ → Bool
up = without 9 (λ s. true)

abbrev room_one : RoomState
room_one = record { host = some 7; host_token = "t1"; viewers = ("a", 8) ∷ ("b", 9) ∷ [] }

abbrev hub_one : WsHub
hub_one = record { rooms = ("r1", room_one) ∷ []; max_viewers_per_room = 2 }

hub_one-IsWellFormed : IsWellFormed hub_one
hub_one-IsWellFormed = record {
  distinct = (tt, tt);
  named = (differ "r1" "" refl, tt);
  rooms_ok = (
    record {
      distinct = ((differ "b" "a" refl, tt), (tt, tt));
      no_host = (differ "a" "host" refl, (differ "b" "host" refl, tt));
      no_empty = (differ "a" "" refl, (differ "b" "" refl, tt));
    },
    tt,
  );
}

abbrev greeting : String
greeting = "hello"

abbrev one_host : System
one_host = record {
  alive = λ s. true;
  hub = (register_host (λ s. true) "r1" "t1" 7 (start 2).hub).0;
}

abbrev one_viewer : System
one_viewer = record {
  alive = λ s. true;
  hub = (join_viewer (λ s. true) "r1" 8 (1 ∷ 2 ∷ []) one_host.hub).0;
}

Reach-Holds_example : Holds (record one_viewer { alive = without 8 (λ s. true) })
Reach-Holds_example = Reach-Holds plain 2 (
    next (next (next here (registers "r1" "t1" 7 refl)) (joins "r1" 8 (1 ∷ 2 ∷ []) refl))
      (dies 8 refl))

register_host-refines_example :
    let r = register_host up "r1" "t2" 5 hub_one in
    let q = spec_register "r1" 5 (view up hub_one) in
    Same (view up r.0) q.0 × (r.1 ≡ q.1) × (r.2 ≡ q.2)
register_host-refines_example =
    register_host-refines up "r1" hub_one hub_one-IsWellFormed "t2" 5 refl

join_viewer-refines_example :
    let r = join_viewer up "r1" 5 (3 ∷ 4 ∷ []) hub_one in
    let q = spec_join "r1" 5 (gen_viewer_id (3 ∷ 4 ∷ [])) 2 (view up hub_one) in
    Same (view up r.0) q.0 × (r.1 ≡ q.1) × (r.2 ≡ q.2)
join_viewer-refines_example =
    join_viewer-refines up "r1" hub_one hub_one-IsWellFormed 5 (3 ∷ 4 ∷ []) refl

leave-refines_example :
    Same (view up (leave plain up "r1" "a" hub_one).0) (spec_leave "r1" "a" (view up hub_one))
leave-refines_example = leave-refines plain up "r1" "a" hub_one hub_one-IsWellFormed

leave_host-tells_example :
    Elem {A = Send}
      (8, session_ended plain "r1" "host_disconnected")
      (leave plain up "r1" "host" hub_one).1
unfolding lookup
leave_host-tells_example = leave_host-tells plain up "r1" hub_one "a" 8 refl
