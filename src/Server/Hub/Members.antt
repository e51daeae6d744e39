-- ===== src/Server/Hub/Members.antt =====
-- What the hub promises, without its tables: who hosts a room, who is in it under which id, and
-- how many viewers count towards the limit. Sessions that are gone are not seen.
use p2p_desktop_share_new.Base.{
  ℕ, ◌+◌, ◌-◌, String, Bool, true, false, Option, none, some, ◌≡◌, leb, str_eq, if◌then◌else◌,
}
use p2p_desktop_share_new.Base.Dict.{lookup, count, one_if}
use p2p_desktop_share_new.Server.Hub.{RoomState, WsHub, lock}

pub record Membership : Type 0 where
  pub host : String → Option ℕ
  pub viewer : String → String → Option ℕ
  pub load : String → ℕ

-- Two memberships agree on every room and every peer id.
pub record Same (m n : Membership) : Type 0 where
  pub hosts : (room : String) → m.host room ≡ n.host room
  pub viewers : (room peer_id : String) → m.viewer room peer_id ≡ n.viewer room peer_id
  pub loads : (room : String) → m.load room ≡ n.load room

abbrev pub host_in : (ℕ → Bool) → Option RoomState → Option ℕ
host_in alive none = none
host_in alive (some rs) = lock alive rs.host

abbrev pub viewer_in : (ℕ → Bool) → String → Option RoomState → Option ℕ
viewer_in alive peer_id none = none
viewer_in alive peer_id (some rs) = lock alive (lookup peer_id rs.viewers)

abbrev pub load_in : (ℕ → Bool) → Option RoomState → ℕ
load_in alive none = 0
load_in alive (some rs) = count alive rs.viewers

abbrev pub view : (ℕ → Bool) → WsHub → Membership
view alive h = record {
  host = λ room. host_in alive (lookup room h.rooms);
  viewer = λ room peer_id. viewer_in alive peer_id (lookup room h.rooms);
  load = λ room. load_in alive (lookup room h.rooms);
}

abbrev pub set_host : String → Option ℕ → Membership → Membership
set_host room s m = record m { host = λ q. if str_eq room q then s else m.host q }

abbrev pub set_viewer : String → String → Option ℕ → Membership → Membership
set_viewer room peer_id s m = record m {
  viewer =
      λ q p. if str_eq room q then (if str_eq peer_id p then s else m.viewer q p) else m.viewer q p;
  load = λ q. if str_eq room q then m.load q + one_if s - one_if (m.viewer q peer_id) else m.load q;
}

abbrev pub close_room : String → Membership → Membership
close_room room m = record {
  host = λ q. if str_eq room q then none else m.host q;
  viewer = λ q p. if str_eq room q then none else m.viewer q p;
  load = λ q. if str_eq room q then 0 else m.load q;
}

-- A room has one host: who comes second is refused.
abbrev pub spec_register : String → ℕ → Membership → Membership × Bool × String
spec_register room s m = if str_eq room "" then (m, false, "BAD_REQUEST") else elim (m.host room) [
  | some other ↦ (m, false, "HOST_ALREADY_EXISTS")
  | none ↦ (set_host room (some s) m, true, "")
]

-- A viewer needs a room with a host, and a free place in it.
abbrev pub spec_join : String → ℕ → String → ℕ → Membership → Membership × String × String
spec_join room s peer_id most m =
    if str_eq room "" then (m, "", "BAD_REQUEST") else elim (m.host room) [
      | none ↦ (m, "", "ROOM_NOT_FOUND")
      | some host ↦
          if leb most (m.load room)
          then (m, "", "ROOM_FULL")
          else (set_viewer room peer_id (some s) m, peer_id, "")
    ]

-- The host takes the whole room with it, a viewer only itself.
abbrev pub spec_leave : String → String → Membership → Membership
spec_leave room peer_id m =
    if str_eq peer_id "host" then close_room room m else set_viewer room peer_id none m
