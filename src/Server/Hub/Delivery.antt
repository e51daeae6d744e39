-- ===== src/Server/Hub/Delivery.antt =====
-- Who gets what the hub sends.
use p2p_desktop_share_new.Base.{
  ℕ, String, Bool, true, Option, some, List, [], ◌∷◌, map, ◌≡◌, ◌≢◌, ◌⊎◌, refl, ap, inl, inr, arith,
  Bool-cases, Option-cases, str_eq, if◌then◌else◌, eq_iff, eq_refl, Elem, ◌∙◌, sym,
}
use p2p_desktop_share_new.Base.Dict.{lookup, Distinct, lookup_absent}
use p2p_desktop_share_new.Protocol.{JsonLib, session_ended, peer_left}
use p2p_desktop_share_new.Server.Hub.{
  WsHub, Send, lock, deliver, member, forward_to, live_viewers, broadcast_viewers, leave,
  leave_sends,
}
use p2p_desktop_share_new.Server.Hub.WellFormed.{IsWellFormed, lookup-RoomOk}
use p2p_desktop_share_new.Server.Hub.Refinement.{str_ne}
use p2p_desktop_share_new.Server.Hub.Members.{Membership, view, viewer_in}

-- Who a peer id names in a membership.
abbrev pub named : Membership → String → String → Option ℕ
named m room peer_id = if str_eq peer_id "host" then m.host room else m.viewer room peer_id

-- A text for a peer id of a room goes to the live session of that id, and to nobody else.
pub forward_to-view :
    (alive : ℕ → Bool) (room peer_id text : String) (h : WsHub)
    → forward_to alive room peer_id text h ≡ deliver (named (view alive h) room peer_id) text
unfolding forward_to member
forward_to-view alive room peer_id text h = elim (Option-cases (lookup room h.rooms)) [
  | inl e ↦
      rw (e, forward_to) (elim (Bool-cases (str_eq peer_id "host")) [ inl q ↦ rw q | inr q ↦ rw q ])
  | inr (rs, e) ↦
      rw (e, forward_to) (elim (Bool-cases (str_eq peer_id "host")) [ inl q ↦ rw q | inr q ↦ rw q ])
]

module _ (alive : ℕ → Bool) (text : String) where
  live_viewers-Elem :
      (p : String) (viewers : List (String × ℕ)) (s : ℕ)
      → lock alive (lookup p viewers) ≡ some s
      → Elem {A = Send} (s, text) (map (λ j. (j, text)) (live_viewers alive viewers))
  unfolding lookup live_viewers
  live_viewers-Elem p [] s e = cc
  live_viewers-Elem p ((k, j) ∷ m) s e = elim (Bool-cases (str_eq k p)) [
    | inl q ↦
        let up : alive j ≡ true = ground (arith, q) in
        let same : s ≡ j = ground (arith, q) in rw (up, same) (inl refl)
    | inr q ↦
        let later = live_viewers-Elem p m s (rw q at e) in
        elim (Bool-cases (alive j)) [ inl up ↦ rw up (inr later) | inr down ↦ rw down later ]
  ]

  Elem-live_viewers :
      (x : Send) (viewers : List (String × ℕ))
      → Distinct viewers
      → Elem {A = Send} x (map (λ j. (j, text)) (live_viewers alive viewers))
      → (p : String) × (lock alive (lookup p viewers) ≡ some x.0) × (x.1 ≡ text)
  unfolding lookup live_viewers
  Elem-live_viewers x [] d e = absurd (e refl)
  Elem-live_viewers x ((k, j) ∷ m) d e = elim (Bool-cases (alive j)) [
    | inl up ↦
        elim (let e' : (x ≡ (j, text)) ⊎ Elem x (map (λ i. (i, text)) (live_viewers alive m)) =
            rw up at e in
          e') [
            | inl same ↦ (k, ground (arith, eq_refl k, same, up), ap (λ y. y.1) same)
            | inr later ↦ shift (Elem-live_viewers x m d.1 later)
          ]
    | inr down ↦ shift (Elem-live_viewers x m d.1 (rw down at e))
  ]
    where
      shift :
          (p : String) × (lock alive (lookup p m) ≡ some x.0) × (x.1 ≡ text)
          → (p : String) × (lock alive (if str_eq k p then some j else lookup p m) ≡ some x.0)
            × (x.1 ≡ text)
      shift (p, held, t) = elim (Bool-cases (str_eq k p)) [
        | inl q ↦ absurd (ground (arith, q, eq_iff k p, lookup_absent k m d.0))
        | inr q ↦ (p, rw q held, t)
      ]

  -- A broadcast reaches each live viewer of the room, under whichever id.
  pub broadcast-Elem :
      (room p : String) (s : ℕ) (h : WsHub)
      → (view alive h).viewer room p ≡ some s
      → Elem {A = Send} (s, text) (broadcast_viewers alive room text h)
  unfolding broadcast_viewers
  broadcast-Elem room p s h e = elim (Option-cases (lookup room h.rooms)) [
    | inl missing ↦ ground (arith, missing)
    | inr (rs, found) ↦
        rw (found, broadcast_viewers)
          (live_viewers-Elem p rs.viewers s (ap (viewer_in alive p) (sym found) ∙ e))
  ]

  -- In a well-formed hub, whatever a broadcast sends is its text, for a session that is a live
  -- viewer of the room.
  pub Elem-broadcast :
      (room : String) (x : Send) (h : WsHub)
      → IsWellFormed h
      → Elem x (broadcast_viewers alive room text h)
      → (p : String) × ((view alive h).viewer room p ≡ some x.0) × (x.1 ≡ text)
  unfolding broadcast_viewers
  Elem-broadcast room x h v e = elim (Option-cases (lookup room h.rooms)) [
    | inl missing ↦ absurd (
        let none_there : Elem {A = Send} x [] = rw (missing, broadcast_viewers) at e in
        none_there refl)
    | inr (rs, found) ↦
        let (p, held, t) =
          Elem-live_viewers x rs.viewers (lookup-RoomOk h room v found).distinct
            (rw (found, broadcast_viewers) at e) in
        (p, ap (viewer_in alive p) found ∙ held, t)
  ]

module _ (json : JsonLib) (alive : ℕ → Bool) (room : String) (h : WsHub) where
  -- When the peer id "host" leaves a room, every live viewer of the room is told that the
  -- session ended.
  pub leave_host-tells :
      (p : String) (s : ℕ)
      → (view alive h).viewer room p ≡ some s
      → Elem {A = Send}
          (s, session_ended json room "host_disconnected")
          (leave json alive room "host" h).1
  unfolding leave leave_sends
  leave_host-tells p s e = elim (Option-cases (lookup room h.rooms)) [
    | inl missing ↦ ground (arith, missing)
    | inr (rs, found) ↦
        rw (found, leave)
          (live_viewers-Elem alive (session_ended json room "host_disconnected") p rs.viewers s
            (ap (viewer_in alive p) (sym found) ∙ e))
  ]

  -- When a peer id other than "host" leaves a room, the live host of the room is told, and no
  -- one else.
  pub leave_viewer-sends :
      (p : String)
      → p ≢ "host"
      → (leave json alive room p h).1 ≡ deliver ((view alive h).host room) (peer_left json room p)
  unfolding leave leave_sends
  leave_viewer-sends p n = elim (Option-cases (lookup room h.rooms)) [
    | inl missing ↦ rw (missing, leave)
    | inr (rs, found) ↦
        rw (found, leave, str_ne p "host" n)
          (elim (Option-cases (lock alive rs.host)) [
            | inl gone ↦ rw (gone, leave_sends)
            | inr (s, there) ↦ rw (there, leave_sends)
          ])
  ]
