-- ===== src/Server/Hub.antt =====
-- core/server/ws_hub: rooms, one host and up to `max_viewers_per_room` viewers each.
-- A session is named by a number that is never used again; a `weak_ptr` is that number or, if
-- reset, `none`, and `alive` says which sessions still have an owner. Each operation is one
-- critical section of the hub's mutex; what it sends after the lock is released is its result.
pub mod Pruning
pub mod Cases
pub mod WellFormed
pub mod Capacity
pub mod Members
pub mod Refinement
pub mod Delivery
mod Tests
use Prim.Native.Char.{Char}
use Prim.Native.String
use p2p_desktop_share_new.Base.{
  ℕ, suc, zero, ◌+◌, String, Bool, true, false, not, ◌&&◌, Option, none, some, List, [], ◌∷◌, map,
  leb, if◌then◌else◌, str_eq,
}
use p2p_desktop_share_new.Base.Dict.{lookup, insert, erase, keep, count}
use p2p_desktop_share_new.Protocol.{JsonLib, session_ended, peer_left}

pub record RoomState : Type 0 where
  pub host : Option ℕ
  pub host_token : String
  pub viewers : List (String × ℕ)

pub record WsHub : Type 0 where
  pub rooms : List (String × RoomState)
  pub max_viewers_per_room : ℕ

pub record HubStats : Type 0 where
  pub rooms : ℕ
  pub viewers : ℕ

-- A text handed to a session's `Send`.
abbrev pub Send : Type 0
Send = ℕ × String

abbrev pub new_room : RoomState
new_room = record { host = none; host_token = ""; viewers = [] }

-- `weak_ptr::lock` and `weak_ptr::expired`.
abbrev pub lock : (ℕ → Bool) → Option ℕ → Option ℕ
lock alive w = keep alive w

abbrev pub expired : (ℕ → Bool) → Option ℕ → Bool
expired alive none = true
expired alive (some s) = not (alive s)

-- The character at an index of `k`.
pub char_at : String → ℕ → Char
char_at String.[] i = "0"
char_at (String.◌∷◌ c s) zero = c
char_at (String.◌∷◌ c s) (suc i) = char_at s i

-- The numbers that the distribution draws choose the digits.
pub rand_hex : List ℕ → String
unfolding char_at
rand_hex [] = ""
rand_hex (d ∷ draws) = String.◌∷◌ (char_at "0123456789abcdef" d) (rand_hex draws)

unfoldable pub gen_viewer_id : List ℕ → String
unfolding rand_hex
gen_viewer_id draws = String.◌++◌ "v-" (rand_hex draws)

-- The loop of `PruneExpiredViewers`: what it leaves, and how many are active.
pub prune_loop : (ℕ → Bool) → List (String × ℕ) → ℕ → List (String × ℕ) × ℕ
prune_loop alive [] active = ([], active)
prune_loop alive ((peer_id, s) ∷ viewers) active =
    let rest = prune_loop alive viewers (if alive s then active + 1 else active) in
    (if alive s then (peer_id, s) ∷ rest.0 else rest.0, rest.1)

pub prune_expired_viewers : (ℕ → Bool) → RoomState → RoomState × ℕ
prune_expired_viewers alive rs =
    let (viewers, active) = prune_loop alive rs.viewers 0 in
    (record rs { viewers = viewers }, active)

-- `rooms_[room]`, which makes the room if it is missing.
abbrev pub room_at : String → List (String × RoomState) → RoomState
room_at room rooms = elim (lookup room rooms) [ none ↦ new_room | some rs ↦ rs ]

-- The new hub, the result and the error code.
pub register_host : (ℕ → Bool) → String → String → ℕ → WsHub → WsHub × Bool × String
register_host alive room token session h =
    if str_eq room ""
    then (h, false, "BAD_REQUEST")
    else let rs = room_at room h.rooms in
      if not (expired alive rs.host)
      then (record h { rooms = insert room rs h.rooms }, false, "HOST_ALREADY_EXISTS")
      else let (pruned, _) =
          prune_expired_viewers alive (record rs { host = some session; host_token = token }) in
        (record h { rooms = insert room pruned h.rooms }, true, "")

-- The part of `JoinViewer` behind the lookup of a room with a live host.
pub join_room : (ℕ → Bool) → String → ℕ → List ℕ → WsHub → RoomState → WsHub × String × String
join_room alive room session draws h rs =
    let (pruned, active) = prune_expired_viewers alive rs in
    if leb h.max_viewers_per_room active
    then (record h { rooms = insert room pruned h.rooms }, "", "ROOM_FULL")
    else let peer_id = gen_viewer_id draws in
      let joined : RoomState = record rs { viewers = insert peer_id session pruned.viewers } in
      (record h { rooms = insert room joined h.rooms }, peer_id, "")

-- The new hub, the assigned peer id and the error code.
pub join_viewer : (ℕ → Bool) → String → ℕ → List ℕ → WsHub → WsHub × String × String
join_viewer alive room session draws h =
    if str_eq room "" then (h, "", "BAD_REQUEST") else elim (lookup room h.rooms) [
      | none ↦ (h, "", "ROOM_NOT_FOUND")
      | some rs ↦
          if expired alive rs.host
          then (h, "", "ROOM_NOT_FOUND")
          else join_room alive room session draws h rs
    ]

-- The sessions of a viewer map that can still be locked.
pub live_viewers : (ℕ → Bool) → List (String × ℕ) → List ℕ
live_viewers alive [] = []
live_viewers alive ((peer_id, s) ∷ viewers) =
    if alive s then s ∷ live_viewers alive viewers else live_viewers alive viewers

abbrev pub is_empty : List (String × ℕ) → Bool
is_empty [] = true
is_empty (e ∷ es) = false

-- What `Leave` leaves of the room.
pub left_room : String → RoomState → RoomState
left_room peer_id rs =
    if str_eq peer_id "host"
    then record rs { host = none; viewers = [] }
    else record rs { viewers = erase peer_id rs.viewers }

-- The rooms after `Leave`: a room with no host and no viewers goes.
pub leave_rooms :
    (ℕ → Bool) → String → RoomState → List (String × RoomState) → List (String × RoomState)
leave_rooms alive room rs rooms =
    if expired alive rs.host && is_empty rs.viewers then erase room rooms else insert room rs rooms

module _ (json : JsonLib) (alive : ℕ → Bool) where
  pub leave_sends : String → String → RoomState → List Send
  leave_sends room peer_id rs =
      if str_eq peer_id "host"
      then map (λ s. (s, session_ended json room "host_disconnected"))
          (live_viewers alive rs.viewers)
      else elim (lock alive rs.host) [ none ↦ [] | some s ↦ (s, peer_left json room peer_id) ∷ [] ]

  pub leave : String → String → WsHub → WsHub × List Send
  leave room peer_id h = elim (lookup room h.rooms) [
    | none ↦ (h, [])
    | some rs ↦ (
      record h { rooms = leave_rooms alive room (left_room peer_id rs) h.rooms },
      leave_sends room peer_id rs,
    )
  ]

abbrev pub deliver : Option ℕ → String → List Send
deliver none text = []
deliver (some s) text = (s, text) ∷ []

module _ (alive : ℕ → Bool) where
  -- The session that a peer id names in a room.
  pub member : String → RoomState → Option ℕ
  member to_peer_id rs =
      if str_eq to_peer_id "host"
      then lock alive rs.host
      else lock alive (lookup to_peer_id rs.viewers)

  pub forward_to : String → String → String → WsHub → List Send
  forward_to room to_peer_id text h = elim (lookup room h.rooms) [
    | none ↦ []
    | some rs ↦ deliver (member to_peer_id rs) text
  ]

  pub notify_host : String → String → WsHub → List Send
  notify_host room text h = forward_to room "host" text h

  pub broadcast_viewers : String → String → WsHub → List Send
  broadcast_viewers room text h = elim (lookup room h.rooms) [
    | none ↦ []
    | some rs ↦ map (λ s. (s, text)) (live_viewers alive rs.viewers)
  ]

  unfoldable pub end_session : JsonLib → String → String → WsHub → List Send
  end_session json room reason h = broadcast_viewers room (session_ended json room reason) h

  -- The loop of `GetStats`.
  pub stats_loop : List (String × RoomState) → HubStats → HubStats
  stats_loop [] st = st
  stats_loop ((room, rs) ∷ rooms) st = stats_loop rooms (
      if expired alive rs.host
      then st
      else record { rooms = st.rooms + 1; viewers = st.viewers + count alive rs.viewers })

  pub get_stats : WsHub → HubStats
  get_stats h = stats_loop h.rooms (record { rooms = 0; viewers = 0 })
