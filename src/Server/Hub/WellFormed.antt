-- ===== src/Server/Hub/WellFormed.antt =====
-- The hub's invariant (ws_hub.cpp), and each operation.
use p2p_desktop_share_new.Base.{
  ℕ, String, Bool, some, List, [], ◌≡◌, ◌≢◌, arith, Bool-cases, Option-cases, str_eq, All, inl, inr,
}
use p2p_desktop_share_new.Base.Dict.{
  lookup, insert, erase, retain, Distinct, Distinct-insert, Distinct-erase, Distinct-retain,
  lookup_absent, Absent, Absent-insert, Absent-erase, Absent-retain, All-insert, All-erase,
  lookup-All,
}
use p2p_desktop_share_new.Server.Hub.{
  RoomState, WsHub, left_room, gen_viewer_id, register_host, join_viewer, leave, room_at,
}
use p2p_desktop_share_new.Server.Hub.Pruning.{gen_viewer_id-ne-host, gen_viewer_id-ne-empty}
use p2p_desktop_share_new.Server.Hub.Cases.{register_cases, join_cases, leave_cases}
use p2p_desktop_share_new.Protocol.{JsonLib}

-- A room's viewers have one entry each, under ids that are neither "host" nor empty.
pub record ViewersOk (viewers : List (String × ℕ)) : Type 0 where
  pub distinct : Distinct viewers
  pub no_host : Absent "host" viewers
  pub no_empty : Absent "" viewers

abbrev pub RoomOk : RoomState → Type 0
RoomOk rs = ViewersOk rs.viewers

pub record IsWellFormed (h : WsHub) : Type 0 where
  pub distinct : Distinct h.rooms
  pub named : Absent "" h.rooms
  pub rooms_ok : All (λ e. RoomOk e.1) h.rooms

no_viewers-ViewersOk : ViewersOk []
no_viewers-ViewersOk = record { distinct = tt; no_host = tt; no_empty = tt }

module _ (h : WsHub) (room : String) (v : IsWellFormed h) where
  pub lookup-RoomOk : {rs : RoomState} → lookup room h.rooms ≡ some rs → RoomOk rs
  lookup-RoomOk e = lookup-All RoomOk room h.rooms v.rooms_ok e

  pub room_at-RoomOk : RoomOk (room_at room h.rooms)
  room_at-RoomOk = elim (Option-cases (lookup room h.rooms)) [
    | inl e ↦ rw (e, room_at) no_viewers-ViewersOk
    | inr (rs, e) ↦ rw (e, room_at) (lookup-RoomOk e)
  ]

  insert-IsWellFormed :
      (rs : RoomState)
      → room ≢ ""
      → RoomOk rs
      → IsWellFormed (record h { rooms = insert room rs h.rooms })
  insert-IsWellFormed rs n ok = record {
    distinct = Distinct-insert room rs h.rooms v.distinct;
    named = Absent-insert room "" rs h.rooms n v.named;
    rooms_ok = All-insert RoomOk room rs h.rooms ok v.rooms_ok;
  }

  erase-IsWellFormed : IsWellFormed (record h { rooms = erase room h.rooms })
  erase-IsWellFormed = record {
    distinct = Distinct-erase room h.rooms v.distinct;
    named = Absent-erase room "" h.rooms v.named;
    rooms_ok = All-erase RoomOk room h.rooms v.rooms_ok;
  }

retain-ViewersOk :
    (alive : ℕ → Bool) (viewers : List (String × ℕ))
    → ViewersOk viewers
    → ViewersOk (retain alive viewers)
retain-ViewersOk alive viewers ok = record {
  distinct = Distinct-retain alive viewers ok.distinct;
  no_host = Absent-retain alive "host" viewers ok.no_host;
  no_empty = Absent-retain alive "" viewers ok.no_empty;
}

joined-ViewersOk :
    (viewers : List (String × ℕ)) (draws : List ℕ) (session : ℕ)
    → ViewersOk viewers
    → ViewersOk (insert (gen_viewer_id draws) session viewers)
joined-ViewersOk viewers draws session ok = record {
  distinct = Distinct-insert (gen_viewer_id draws) session viewers ok.distinct;
  no_host =
      Absent-insert (gen_viewer_id draws) "host" session viewers (gen_viewer_id-ne-host draws)
        ok.no_host;
  no_empty =
      Absent-insert (gen_viewer_id draws) "" session viewers (gen_viewer_id-ne-empty draws)
        ok.no_empty;
}

erased-ViewersOk :
    (viewers : List (String × ℕ)) (peer_id : String)
    → ViewersOk viewers
    → ViewersOk (erase peer_id viewers)
erased-ViewersOk viewers peer_id ok = record {
  distinct = Distinct-erase peer_id viewers ok.distinct;
  no_host = Absent-erase peer_id "host" viewers ok.no_host;
  no_empty = Absent-erase peer_id "" viewers ok.no_empty;
}

left_room-RoomOk : (peer_id : String) (rs : RoomState) → RoomOk rs → RoomOk (left_room peer_id rs)
unfolding left_room
left_room-RoomOk peer_id rs ok = elim (Bool-cases (str_eq peer_id "host")) [
  | inl e ↦ rw e no_viewers-ViewersOk
  | inr e ↦ rw e (erased-ViewersOk rs.viewers peer_id ok)
]

module _ (alive : ℕ → Bool) (room : String) (h : WsHub) (v : IsWellFormed h) where
  -- Registering a host keeps the hub well formed, whatever room, token and session are given.
  pub register_host-IsWellFormed :
      (token : String) (session : ℕ) → IsWellFormed (register_host alive room token session h).0
  register_host-IsWellFormed token session =
      register_cases alive room token session h (λ r. IsWellFormed r.0) (λ _. v)
        (λ n _. insert-IsWellFormed h room v _ n (room_at-RoomOk h room v))
        (λ n _.
          insert-IsWellFormed h room v _ n (retain-ViewersOk alive _ (room_at-RoomOk h room v)))

  pub join_viewer-IsWellFormed :
      (session : ℕ) (draws : List ℕ) → IsWellFormed (join_viewer alive room session draws h).0
  join_viewer-IsWellFormed session draws =
      join_cases alive room session draws h (λ r. IsWellFormed r.0) (λ _. v) (λ _ _. v)
        (λ rs n found _ _.
          insert-IsWellFormed h room v _ n
            (retain-ViewersOk alive rs.viewers (lookup-RoomOk h room v found)))
        (λ rs n found _ _. insert-IsWellFormed h room v _ n (
          joined-ViewersOk _ draws session
            (retain-ViewersOk alive rs.viewers (lookup-RoomOk h room v found))))

  pub leave-IsWellFormed :
      (json : JsonLib) (peer_id : String) → IsWellFormed (leave json alive room peer_id h).0
  leave-IsWellFormed json peer_id =
      leave_cases json alive room peer_id h (λ r. IsWellFormed r.0) (λ _. v)
        (λ rs found _. erase-IsWellFormed h room v)
        (λ rs found _.
          insert-IsWellFormed h room v _ (λ e. named room e found)
            (left_room-RoomOk peer_id rs (lookup-RoomOk h room v found)))
    where
      named : (r : String) → r ≡ "" → {rs : RoomState} → lookup r h.rooms ≡ some rs → ⊥
      named r e found = ground (arith, e, lookup_absent "" h.rooms v.named)
