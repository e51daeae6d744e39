-- ===== src/Server/Hub/Cases.antt =====
-- The ways through each operation of the hub, as one rule for each operation.
use p2p_desktop_share_new.Base.{
  ℕ, ◌≤◌, ◌<◌, String, Bool, true, false, none, some, List, [], ◌≡◌, ◌≢◌, ◌&&◌, arith, inl, inr,
  Bool-cases, Option-cases, leb, str_eq, eq_iff,
}
use p2p_desktop_share_new.Base.Dict.{lookup, insert, erase, retain, count}
use p2p_desktop_share_new.Protocol.{JsonLib}
use p2p_desktop_share_new.Server.Hub.{
  RoomState, WsHub, Send, gen_viewer_id, expired, register_host, join_viewer, join_room, leave,
  left_room, leave_rooms, leave_sends, room_at, is_empty,
}
use p2p_desktop_share_new.Server.Hub.Pruning.{prune_expired_viewers-eq}

ne_of_str_eq : (s t : String) → str_eq s t ≡ false → s ≢ t
ne_of_str_eq s t e q = ground (arith, eq_iff s t)

-- A hub with one room written.
abbrev pub write_room : WsHub → String → RoomState → WsHub
write_room h room rs = record h { rooms = insert room rs h.rooms }

-- A room after the viewers without an owner are gone.
abbrev pub pruned : (ℕ → Bool) → RoomState → RoomState
pruned alive rs = record rs { viewers = retain alive rs.viewers }

module _ (alive : ℕ → Bool) (room token : String) (session : ℕ) (h : WsHub) where
  abbrev pub registered : RoomState
  registered = record (pruned alive (room_at room h.rooms)) {
    host = some session;
    host_token = token;
  }

  pub register_cases {ℓ} :
      (P : WsHub × Bool × String → Type ℓ)
      → (room ≡ "" → P (h, false, "BAD_REQUEST"))
      → (room ≢ ""
          → expired alive (room_at room h.rooms).host ≡ false
          → P (write_room h room (room_at room h.rooms), false, "HOST_ALREADY_EXISTS"))
      → (room ≢ ""
          → expired alive (room_at room h.rooms).host ≡ true
          → P (write_room h room registered, true, ""))
      → P (register_host alive room token session h)
  unfolding register_host
  register_cases P bad taken free = elim (Bool-cases (str_eq room "")) [
    | inl e ↦ rw e (bad ((eq_iff room "").0 e))
    | inr e ↦
        let n = ne_of_str_eq room "" e in
        rw (e, prune_expired_viewers-eq)
          (elim (Bool-cases (expired alive (room_at room h.rooms).host)) [
            | inl gone ↦ rw gone (free n gone)
            | inr live ↦ rw live (taken n live)
          ])
  ]

module _ (alive : ℕ → Bool) (room : String) (session : ℕ) (draws : List ℕ) (h : WsHub) where
  abbrev pub joined : RoomState → RoomState
  joined rs = record rs { viewers = insert (gen_viewer_id draws) session (retain alive rs.viewers) }

  join_room_cases {ℓ} :
      (P : WsHub × String × String → Type ℓ) (rs : RoomState)
      → (h.max_viewers_per_room ≤ count alive rs.viewers
          → P (write_room h room (pruned alive rs), "", "ROOM_FULL"))
      → (count alive rs.viewers < h.max_viewers_per_room
          → P (write_room h room (joined rs), gen_viewer_id draws, ""))
      → P (join_room alive room session draws h rs)
  unfolding join_room
  join_room_cases P rs full space =
      rw prune_expired_viewers-eq
        (elim (Bool-cases (leb h.max_viewers_per_room (count alive rs.viewers))) [
          | inl e ↦ rw e (full (ground arith))
          | inr e ↦ rw e (space (ground arith))
        ])

  pub join_cases {ℓ} :
      (P : WsHub × String × String → Type ℓ)
      → (room ≡ "" → P (h, "", "BAD_REQUEST"))
      → (room ≢ "" → expired alive (room_at room h.rooms).host ≡ true → P (h, "", "ROOM_NOT_FOUND"))
      → ((rs : RoomState)
          → room ≢ ""
          → lookup room h.rooms ≡ some rs
          → expired alive rs.host ≡ false
          → h.max_viewers_per_room ≤ count alive rs.viewers
          → P (write_room h room (pruned alive rs), "", "ROOM_FULL"))
      → ((rs : RoomState)
          → room ≢ ""
          → lookup room h.rooms ≡ some rs
          → expired alive rs.host ≡ false
          → count alive rs.viewers < h.max_viewers_per_room
          → P (write_room h room (joined rs), gen_viewer_id draws, ""))
      → P (join_viewer alive room session draws h)
  unfolding join_viewer
  join_cases P bad missing full space = elim (Bool-cases (str_eq room "")) [
    | inl e ↦ rw e (bad ((eq_iff room "").0 e))
    | inr e ↦
        let n = ne_of_str_eq room "" e in
        rw e (elim (Option-cases (lookup room h.rooms)) [
          | inl none_there ↦ rw none_there (missing n (ground (arith, none_there)))
          | inr (rs, found) ↦ rw found (elim (Bool-cases (expired alive rs.host)) [
            | inl gone ↦ rw gone (missing n (ground (arith, found, gone)))
            | inr live ↦
                rw live (join_room_cases P rs (full rs n found live) (space rs n found live))
          ])
        ])
  ]

module _ (json : JsonLib) (alive : ℕ → Bool) (room peer_id : String) (h : WsHub) where
  pub leave_cases {ℓ} :
      (P : WsHub × List Send → Type ℓ)
      → (lookup room h.rooms ≡ none → P (h, []))
      → ((rs : RoomState)
          → lookup room h.rooms ≡ some rs
          → (expired alive (left_room peer_id rs).host && is_empty (left_room peer_id rs).viewers)
            ≡ true
          → P (record h { rooms = erase room h.rooms }, leave_sends json alive room peer_id rs))
      → ((rs : RoomState)
          → lookup room h.rooms ≡ some rs
          → (expired alive (left_room peer_id rs).host && is_empty (left_room peer_id rs).viewers)
            ≡ false
          → P (write_room h room (left_room peer_id rs), leave_sends json alive room peer_id rs))
      → P (leave json alive room peer_id h)
  unfolding leave leave_rooms
  leave_cases P missing last stays = elim (Option-cases (lookup room h.rooms)) [
    | inl e ↦ rw (e, leave) (missing e)
    | inr (rs, e) ↦
        rw (e, leave)
          (elim (Bool-cases (
            expired alive (left_room peer_id rs).host && is_empty (left_room peer_id rs).viewers)) [
              | inl empty ↦ rw (empty, leave_rooms) (last rs e empty)
              | inr some_left ↦ rw (some_left, leave_rooms) (stays rs e some_left)
            ])
  ]
