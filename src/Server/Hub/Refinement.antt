-- ===== src/Server/Hub/Refinement.antt =====
-- The hub's tables against the membership of Members: registering, joining and leaving.
pub mod Join
pub mod Leave
use p2p_desktop_share_new.Base.{
  ℕ, ◌+◌, ◌≤◌, ◌<◌, ◌-◌, String, Bool, true, false, Option, none, some, List, [], ◌≡◌, refl, sym,
  ap, ◌∙◌, ◌≢◌, subst, arith, le→leb, lt→not_leb, Bool-cases, Option-cases, leb, str_eq,
  if◌then◌else◌, not, eq_iff, eq_refl, inl, inr,
}
use p2p_desktop_share_new.Base.Dict.{
  lookup, insert, erase, retain, count, keep, one_if, seen-insert, seen-erase, lookup-retain,
  count-retain, count-insert, count-erase, lookup-insert, lookup-erase, Distinct, Distinct-retain,
  count_empty, lookup_empty,
}
use p2p_desktop_share_new.Protocol.{JsonLib}
use p2p_desktop_share_new.Server.Hub.{
  RoomState, WsHub, Send, lock, expired, gen_viewer_id, register_host, join_viewer, leave,
  left_room, room_at, new_room, is_empty,
}
use p2p_desktop_share_new.Server.Hub.Cases.{
  register_cases, join_cases, leave_cases, write_room, registered, joined, pruned,
}
use p2p_desktop_share_new.Server.Hub.WellFormed.{IsWellFormed, lookup-RoomOk, room_at-RoomOk}
use p2p_desktop_share_new.Server.Hub.Members.{
  Membership, Same, host_in, viewer_in, load_in, view, set_host, set_viewer, close_room,
  spec_register, spec_join, spec_leave,
}

keep-keep : (p : ℕ → Bool) (o : Option ℕ) → keep p (keep p o) ≡ keep p o
keep-keep p none = refl
keep-keep p (some s) = ground arith

-- A lookup in the viewers that are left after pruning sees what a lookup before saw.
lock-retain :
    (alive : ℕ → Bool) (peer_id : String) (viewers : List (String × ℕ))
    → Distinct viewers
    → lock alive (lookup peer_id (retain alive viewers)) ≡ lock alive (lookup peer_id viewers)
lock-retain alive peer_id viewers d =
    rw (lookup-retain alive peer_id viewers d) (keep-keep alive (lookup peer_id viewers))

module _ (alive : ℕ → Bool) (room : String) (h : WsHub) where
  -- A room that is missing looks like a new room.
  room_at_seen :
      (host_in alive (some (room_at room h.rooms)) ≡ host_in alive (lookup room h.rooms))
      × ((p : String)
          → viewer_in alive p (some (room_at room h.rooms))
            ≡ viewer_in alive p (lookup room h.rooms))
      × (load_in alive (some (room_at room h.rooms)) ≡ load_in alive (lookup room h.rooms))
  room_at_seen = elim (Option-cases (lookup room h.rooms)) [
    | inl e ↦ rw (e, room_at) (refl, λ p. rw lookup_empty, count_empty alive)
    | inr (rs, e) ↦ rw (e, room_at) (refl, λ p. refl, refl)
  ]

-- A value written at one room, against a description that may read the room's old values.
module _ {ℓ} {B : Type ℓ} (f : String → B) (room : String) (x : B) where
  changed :
      (g : String → B)
      → x ≡ g room
      → (q : String) → (if str_eq room q then x else f q) ≡ (if str_eq room q then g q else f q)
  changed g e q = elim (Bool-cases (str_eq room q)) [
    | inl same ↦ rw same (e ∙ ap g ((eq_iff room q).0 same))
    | inr other ↦ rw other
  ]

  unchanged : x ≡ f room → (q : String) → (if str_eq room q then x else f q) ≡ f q
  unchanged e q = elim (Bool-cases (str_eq room q)) [
    | inl same ↦ rw same (e ∙ ap f ((eq_iff room q).0 same))
    | inr other ↦ rw other
  ]

pub Same-refl : (m : Membership) → Same m m
Same-refl m = record { hosts = λ _. refl; viewers = λ _ _. refl; loads = λ _. refl }

pub str_ne : (s t : String) → s ≢ t → str_eq s t ≡ false
str_ne s t n = ground (arith, eq_iff s t)

-- The branches of the specification.
module _ (room : String) (s : ℕ) (m : Membership) (n : room ≢ "") where
  pub spec_register_taken :
      (other : ℕ)
      → m.host room ≡ some other
      → spec_register room s m ≡ (m, false, "HOST_ALREADY_EXISTS")
  spec_register_taken other e = rw (str_ne room "" n, e)

  spec_register_free :
      m.host room ≡ none → spec_register room s m ≡ (set_host room (some s) m, true, "")
  spec_register_free e = rw (str_ne room "" n, e)

  module _ (peer_id : String) (most : ℕ) where
    spec_join_missing :
        m.host room ≡ none → spec_join room s peer_id most m ≡ (m, "", "ROOM_NOT_FOUND")
    spec_join_missing e = rw (str_ne room "" n, e)

    spec_join_full :
        (host : ℕ)
        → m.host room ≡ some host
        → most ≤ m.load room
        → spec_join room s peer_id most m ≡ (m, "", "ROOM_FULL")
    spec_join_full host e full = rw (str_ne room "" n, e, le→leb most (m.load room) full)

    spec_join_space :
        (host : ℕ)
        → m.host room ≡ some host
        → m.load room < most
        → spec_join room s peer_id most m ≡ (set_viewer room peer_id (some s) m, peer_id, "")
    spec_join_space host e space = rw (str_ne room "" n, e, lt→not_leb most (m.load room) space)

pub host_gone : (alive : ℕ → Bool) (o : Option ℕ) → expired alive o ≡ true → lock alive o ≡ none
host_gone alive none e = refl
host_gone alive (some s) e = ground (arith, e)

pub host_there :
    (alive : ℕ → Bool) (o : Option ℕ) → expired alive o ≡ false → (s : ℕ) × (lock alive o ≡ some s)
host_there alive none e = cc
host_there alive (some s) e = (s, ground (arith, e))

module _ (alive : ℕ → Bool) (room : String) (h : WsHub) (v : IsWellFormed h) where
  hosts_written :
      (rs : RoomState) (q : String)
      → (view alive (write_room h room rs)).host q
        ≡ (if str_eq room q then lock alive rs.host else (view alive h).host q)
  hosts_written rs q = seen-insert (host_in alive) room q rs h.rooms

  viewers_written :
      (rs : RoomState) (p q : String)
      → (view alive (write_room h room rs)).viewer q p
        ≡ (if str_eq room q then lock alive (lookup p rs.viewers) else (view alive h).viewer q p)
  viewers_written rs p q = seen-insert (viewer_in alive p) room q rs h.rooms

  loads_written :
      (rs : RoomState) (q : String)
      → (view alive (write_room h room rs)).load q
        ≡ (if str_eq room q then count alive rs.viewers else (view alive h).load q)
  loads_written rs q = seen-insert (load_in alive) room q rs h.rooms

  -- A write of a room that looks like the old one changes nothing that is seen.
  rewritten-Same :
      (rs : RoomState)
      → lock alive rs.host ≡ (view alive h).host room
      → ((p : String) → lock alive (lookup p rs.viewers) ≡ (view alive h).viewer room p)
      → count alive rs.viewers ≡ (view alive h).load room
      → Same (view alive (write_room h room rs)) (view alive h)
  rewritten-Same rs eh ev el = record {
    hosts = λ q. hosts_written rs q ∙ unchanged (view alive h).host room _ eh q;
    viewers =
        λ q p. viewers_written rs p q ∙ unchanged (λ r. (view alive h).viewer r p) room _ (ev p) q;
    loads = λ q. loads_written rs q ∙ unchanged (view alive h).load room _ el q;
  }

  seen :
      (host_in alive (some (room_at room h.rooms)) ≡ (view alive h).host room)
      × ((p : String)
          → viewer_in alive p (some (room_at room h.rooms)) ≡ (view alive h).viewer room p)
      × (load_in alive (some (room_at room h.rooms)) ≡ (view alive h).load room)
  seen = room_at_seen alive room h

  -- The viewers left by pruning are the ones that were seen before.
  pruned_viewers :
      (p : String)
      → lock alive (lookup p (retain alive (room_at room h.rooms).viewers))
        ≡ (view alive h).viewer room p
  pruned_viewers p =
      lock-retain alive p (room_at room h.rooms).viewers (room_at-RoomOk h room v).distinct
      ∙ seen.1 p

  registered-Same :
      (token : String) (s : ℕ)
      → alive s ≡ true
      → Same
          (view alive (write_room h room (registered alive room token s h)))
          (set_host room (some s) (view alive h))
  registered-Same token s up = record {
    hosts = λ q.
        hosts_written _ q ∙ changed (view alive h).host room _ (λ _. some s) (ground (arith, up)) q;
    viewers = λ q p.
        viewers_written _ p q
        ∙ unchanged (λ r. (view alive h).viewer r p) room _ (pruned_viewers p) q;
    loads = λ q.
        loads_written _ q ∙ unchanged (view alive h).load room _ (count-retain alive _ ∙ seen.2) q;
  }

  -- What a hub operation's result promises: the membership it leaves and the other results.
  abbrev Agrees : WsHub × Bool × String → Membership × Bool × String → Type 0
  Agrees r q = Same (view alive r.0) q.0 × (r.1 ≡ q.1) × (r.2 ≡ q.2)

  -- For a well-formed hub and a live session, registering a host is the abstract registration,
  -- on every branch: an empty room name is a bad request, a room with a live host is refused and
  -- nothing is seen to change, and any other room gets the session as its host, with its viewers
  -- and all other rooms as they were.
  pub register_host-refines :
      (token : String) (s : ℕ)
      → alive s ≡ true
      → let r = register_host alive room token s h in
        let q = spec_register room s (view alive h) in
        Same (view alive r.0) q.0 × (r.1 ≡ q.1) × (r.2 ≡ q.2)
  register_host-refines token s up =
      register_cases alive room token s h (λ r. Agrees r (spec_register room s (view alive h)))
        (λ e. rw e (Same-refl _, refl, refl))
        (λ n live.
          let (other, held) = host_there alive (room_at room h.rooms).host live in
          subst (Agrees (write_room h room (room_at room h.rooms), false, "HOST_ALREADY_EXISTS"))
            (sym (spec_register_taken room s (view alive h) n other (sym seen.0 ∙ held)))
            (rewritten-Same _ seen.0 seen.1 seen.2, refl, refl))
        (λ n gone.
          subst (Agrees (write_room h room (registered alive room token s h), true, ""))
            (sym (
              spec_register_free room s (view alive h) n
                (sym seen.0 ∙ host_gone alive (room_at room h.rooms).host gone)))
            (registered-Same token s up, refl, refl))
