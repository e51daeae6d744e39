-- ===== src/Server/Hub/Capacity.antt =====
-- The limit on viewers, and the statistics: what holds under every interleaving of the hub's
-- operations with the death of sessions.
use p2p_desktop_share_new.Base.{
  ℕ, ◌+◌, ◌*◌, ◌≤◌, ◌==◌, String, Bool, true, false, List, [], ◌∷◌, ◌≡◌, refl, arith, Bool-cases,
  Option-cases, str_eq, if◌then◌else◌, All, All-map, inl, inr,
}
use p2p_desktop_share_new.Base.Dict.{
  lookup, retain, count, All-insert, All-erase, lookup-All, count-insert-le, count-erase-le,
  count-retain, count_mono,
}
use p2p_desktop_share_new.Protocol.{JsonLib}
use p2p_desktop_share_new.Server.Hub.{
  RoomState, WsHub, HubStats, gen_viewer_id, expired, register_host, join_viewer, leave, left_room,
  room_at, get_stats, stats_loop,
}
use p2p_desktop_share_new.Server.Hub.Cases.{register_cases, join_cases, leave_cases, write_room}
use p2p_desktop_share_new.Server.Hub.WellFormed.{
  IsWellFormed, register_host-IsWellFormed, join_viewer-IsWellFormed, leave-IsWellFormed,
}

-- Every room has at most so many live viewers.
abbrev pub RoomFits : (ℕ → Bool) → ℕ → RoomState → Type 0
RoomFits alive most rs = count alive rs.viewers ≤ most

abbrev pub Fits : (ℕ → Bool) → WsHub → Type 0
Fits alive h = All (λ e. RoomFits alive h.max_viewers_per_room e.1) h.rooms

left_room-RoomFits :
    (alive : ℕ → Bool) (most : ℕ) (peer_id : String) (rs : RoomState)
    → RoomFits alive most rs
    → RoomFits alive most (left_room peer_id rs)
unfolding left_room
left_room-RoomFits alive most peer_id rs f = elim (Bool-cases (str_eq peer_id "host")) [
  | inl e ↦ rw e (unfold count in omega arith)
  | inr e ↦ rw e (omega (arith, f, count-erase-le alive peer_id rs.viewers))
]

module _ (alive : ℕ → Bool) (room : String) (h : WsHub) (v : Fits alive h) where
  write_room-Fits :
      (rs : RoomState)
      → RoomFits alive h.max_viewers_per_room rs
      → Fits alive (write_room h room rs)
  write_room-Fits rs f = All-insert (RoomFits alive h.max_viewers_per_room) room rs h.rooms f v

  room_at-RoomFits : RoomFits alive h.max_viewers_per_room (room_at room h.rooms)
  room_at-RoomFits = elim (Option-cases (lookup room h.rooms)) [
    | inl e ↦ rw (e, room_at) (unfold count in omega arith)
    | inr (rs, e) ↦
        rw (e, room_at) (lookup-All (RoomFits alive h.max_viewers_per_room) room h.rooms v e)
  ]

  register_host-Fits :
      (token : String) (session : ℕ) → Fits alive (register_host alive room token session h).0
  register_host-Fits token session =
      register_cases alive room token session h (λ r. Fits alive r.0) (λ _. v)
        (λ n _. write_room-Fits _ room_at-RoomFits)
        (λ n _. write_room-Fits _ (omega (arith, room_at-RoomFits, count-retain {0})))

  join_viewer-Fits :
      (session : ℕ) (draws : List ℕ) → Fits alive (join_viewer alive room session draws h).0
  join_viewer-Fits session draws =
      join_cases alive room session draws h (λ r. Fits alive r.0) (λ _. v) (λ _ _. v)
        (λ rs n found _ _. write_room-Fits _ (
          rw (count-retain alive rs.viewers)
            (lookup-All (RoomFits alive h.max_viewers_per_room) room h.rooms v found)))
        (λ rs n found _ space. write_room-Fits _ (
          omega (
            arith,
            count-insert-le alive (gen_viewer_id draws) session (retain alive rs.viewers),
            count-retain alive rs.viewers,
          )))

  leave-Fits : (json : JsonLib) (peer_id : String) → Fits alive (leave json alive room peer_id h).0
  leave-Fits json peer_id =
      leave_cases json alive room peer_id h (λ r. Fits alive r.0) (λ _. v)
        (λ rs found _. All-erase (RoomFits alive h.max_viewers_per_room) room h.rooms v)
        (λ rs found _. write_room-Fits _ (
          left_room-RoomFits alive _ peer_id rs
            (lookup-All (RoomFits alive h.max_viewers_per_room) room h.rooms v found)))

  register_host-most :
      (token : String) (session : ℕ)
      → (register_host alive room token session h).0.max_viewers_per_room ≡ h.max_viewers_per_room
  register_host-most token session =
      register_cases alive room token session h
        (λ r. r.0.max_viewers_per_room ≡ h.max_viewers_per_room) (λ _. refl) (λ _ _. refl)
        (λ _ _. refl)

-- A hub and the sessions that still have an owner. A number stands for a session from the start,
-- also before it connects; a session that is gone never comes back.
pub record System : Type 0 where
  pub alive : ℕ → Bool
  pub hub : WsHub

-- The session is destroyed: the last owner lets go of it.
abbrev pub without : ℕ → (ℕ → Bool) → ℕ → Bool
without s alive j = if s == j then false else alive j

-- What any thread may do next, with any arguments.
pub data Step (json : JsonLib) (t u : System) : Type 0 where
  registers :
      (room token : String) (s : ℕ)
      → u ≡ record t { hub = (register_host t.alive room token s t.hub).0 }
      → Step json t u
  joins :
      (room : String) (s : ℕ) (draws : List ℕ)
      → u ≡ record t { hub = (join_viewer t.alive room s draws t.hub).0 }
      → Step json t u
  leaves :
      (room peer_id : String)
      → u ≡ record t { hub = (leave json t.alive room peer_id t.hub).0 }
      → Step json t u
  dies : (s : ℕ) → u ≡ record t { alive = without s t.alive } → Step json t u

abbrev pub start : ℕ → System
start most = record { alive = λ _. true; hub = record { rooms = []; max_viewers_per_room = most } }

pub data Reach (json : JsonLib) (t : System) : System → Type 0 where
  here : Reach json t t
  next : {u w : System} → Reach json t u → Step json u w → Reach json t w

abbrev pub Holds : System → Type 0
Holds t = IsWellFormed t.hub × Fits t.alive t.hub

without-Fits : (s : ℕ) (alive : ℕ → Bool) (h : WsHub) → Fits alive h → Fits (without s alive) h
without-Fits s alive h v =
    All-map (λ (e : String × RoomState). RoomFits alive h.max_viewers_per_room e.1)
      (λ e. RoomFits (without s alive) h.max_viewers_per_room e.1)
      (λ e f.
        omega (arith, f, count_mono (without s alive) alive (λ j q. ground arith) e.1.viewers))
      h.rooms v

Step-Holds : (json : JsonLib) (t u : System) → Step json t u → Holds t → Holds u
Step-Holds json t u (registers room token s e) (wf, fits) = rw e (
  register_host-IsWellFormed t.alive room t.hub wf token s,
  register_host-Fits t.alive room t.hub fits token s,
)
Step-Holds json t u (joins room s draws e) (wf, fits) = rw e (
  join_viewer-IsWellFormed t.alive room t.hub wf s draws,
  join_viewer-Fits t.alive room t.hub fits s draws,
)
Step-Holds json t u (leaves room peer_id e) (wf, fits) = rw e (
  leave-IsWellFormed t.alive room t.hub wf json peer_id,
  leave-Fits t.alive room t.hub fits json peer_id,
)
Step-Holds json t u (dies s e) (wf, fits) = rw e (wf, without-Fits s t.alive t.hub fits)

start-Holds : (most : ℕ) → Holds (start most)
start-Holds most = (record { distinct = tt; named = tt; rooms_ok = tt }, tt)

-- However the threads interleave registrations, joins, leaves and the death of sessions, from an
-- empty hub on: no room and no peer id is listed twice, no room and no viewer has an empty name, no
-- viewer is called "host", and no room has more live viewers than the limit.
pub Reach-Holds : (json : JsonLib) (most : ℕ) {t : System} → Reach json (start most) t → Holds t
Reach-Holds json most here = start-Holds most
Reach-Holds json most (next r st) = Step-Holds json _ _ st (Reach-Holds json most r)

-- One round of the loop.
abbrev counted : Bool → ℕ → HubStats → HubStats
counted gone live st =
    if gone then st else record { rooms = st.rooms + 1; viewers = st.viewers + live }

counted-le :
    (gone : Bool) (most live : ℕ) (st : HubStats)
    → live ≤ most
    → st.viewers ≤ st.rooms * most
    → (counted gone live st).viewers ≤ (counted gone live st).rooms * most
counted-le true most live st v h = h
counted-le false most live st v h = omega arith

stats_loop-le :
    (alive : ℕ → Bool) (most : ℕ) (rooms : List (String × RoomState)) (st : HubStats)
    → All (λ e. RoomFits alive most e.1) rooms
    → st.viewers ≤ st.rooms * most
    → (stats_loop alive rooms st).viewers ≤ (stats_loop alive rooms st).rooms * most
unfolding stats_loop
stats_loop-le alive most [] st v h = h
stats_loop-le alive most ((room, rs) ∷ rooms) st v h =
    stats_loop-le alive most rooms (counted (expired alive rs.host) (count alive rs.viewers) st) v.1
      (counted-le (expired alive rs.host) most (count alive rs.viewers) st v.0 h)

-- In a hub whose rooms are within the limit, the viewers that the statistics report are at most
-- the reported rooms times the limit.
pub get_stats-le :
    (alive : ℕ → Bool) (h : WsHub)
    → Fits alive h
    → (get_stats alive h).viewers ≤ (get_stats alive h).rooms * h.max_viewers_per_room
unfolding get_stats
get_stats-le alive h v =
    stats_loop-le alive h.max_viewers_per_room h.rooms (record { rooms = 0; viewers = 0 }) v
      (omega arith)
