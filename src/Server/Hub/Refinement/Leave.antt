-- ===== src/Server/Hub/Refinement/Leave.antt =====
-- `WsHub::Leave` against the abstract departure of Members.
use p2p_desktop_share_new.Base.{
  ℕ, ◌+◌, ◌-◌, String, Bool, true, false, Option, none, some, List, [], ◌∷◌, ◌≡◌, refl, sym, ap,
  ◌∙◌, arith, Bool-cases, str_eq, if◌then◌else◌, inl, inr, ◌&&◌,
}
use p2p_desktop_share_new.Base.Dict.{
  lookup, count, keep, one_if, seen-insert, seen-erase, count-erase, lookup_empty, count_empty,
}
use p2p_desktop_share_new.Protocol.{JsonLib}
use p2p_desktop_share_new.Server.Hub.{RoomState, WsHub, lock, expired, leave, left_room, is_empty}
use p2p_desktop_share_new.Server.Hub.Cases.{leave_cases}
use p2p_desktop_share_new.Server.Hub.WellFormed.{IsWellFormed, lookup-RoomOk}
use p2p_desktop_share_new.Server.Hub.Members.{
  Membership, Same, host_in, viewer_in, load_in, view, set_viewer, close_room, spec_leave,
}
use p2p_desktop_share_new.Server.Hub.Refinement.{changed, unchanged, host_gone}

and_left : (a b : Bool) → (a && b) ≡ true → a ≡ true
and_left a b e = ground arith

and_right : (a b : Bool) → (a && b) ≡ true → b ≡ true
and_right a b e = ground arith

is_empty-nil : (m : List (String × ℕ)) → is_empty m ≡ true → m ≡ []
is_empty-nil [] e = refl
is_empty-nil (x ∷ m) e = cc

if_same {ℓ} : {A : Type ℓ} (b : Bool) (x : A) → (if b then x else x) ≡ x
if_same true x = refl
if_same false x = refl

-- What is left of a room that may be missing.
abbrev left : String → Option RoomState → Option RoomState
left peer_id none = none
left peer_id (some rs) = some (left_room peer_id rs)

module _ (json : JsonLib) (alive : ℕ → Bool) (room peer_id : String) (h : WsHub) where
  -- What a function sees of the rooms after a departure, if it sees no difference between a room
  -- that is empty and one that is missing.
  leave_seen {κ} :
      {B : Type κ} (f : Option RoomState → B)
      → ((rs : RoomState) → expired alive rs.host ≡ true → rs.viewers ≡ [] → f none ≡ f (some rs))
      → (q : String)
      → f (lookup q (leave json alive room peer_id h).0.rooms)
        ≡ (if str_eq room q then f (left peer_id (lookup room h.rooms)) else f (lookup q h.rooms))
  leave_seen f blind q =
      leave_cases json alive room peer_id h
        (λ r. f (lookup q r.0.rooms) ≡ (
          if str_eq room q then f (left peer_id (lookup room h.rooms)) else f (lookup q h.rooms)))
        (λ missing. sym (
          unchanged (λ r. f (lookup r h.rooms)) room _
            (ap f (ap (left peer_id) missing ∙ sym missing)) q))
        (λ rs found empty.
          seen-erase f room q h.rooms
          ∙ changed (λ r. f (lookup r h.rooms)) room (f none)
              (λ _. f (left peer_id (lookup room h.rooms)))
              (blind (left_room peer_id rs) (and_left _ _ empty)
                  (is_empty-nil _ (and_right _ _ empty))
                ∙ ap (λ o. f (left peer_id o)) (sym found))
              q)
        (λ rs found stays.
          seen-insert f room q (left_room peer_id rs) h.rooms
          ∙ changed (λ r. f (lookup r h.rooms)) room (f (some (left_room peer_id rs)))
              (λ _. f (left peer_id (lookup room h.rooms)))
              (ap (λ o. f (left peer_id o)) (sym found)) q)

  abbrev after : Membership
  after = view alive (leave json alive room peer_id h).0

  -- The three fields of the membership, as far as they depend on the room's new state.
  hosts_after :
      (g : String → Option ℕ)
      → host_in alive (left peer_id (lookup room h.rooms)) ≡ g room
      → (q : String) → after.host q ≡ (if str_eq room q then g q else (view alive h).host q)
  hosts_after g e q =
      leave_seen (host_in alive) (λ rs gone _. sym (host_gone alive rs.host gone)) q
      ∙ changed (view alive h).host room _ g e q

  viewers_after :
      (p : String) (g : String → Option ℕ)
      → viewer_in alive p (left peer_id (lookup room h.rooms)) ≡ g room
      → (q : String) → after.viewer q p ≡ (if str_eq room q then g q else (view alive h).viewer q p)
  viewers_after p g e q =
      leave_seen (viewer_in alive p)
        (λ rs _ empty.
          sym (ap (λ m. lock alive (lookup p m)) empty ∙ ap (keep alive) (lookup_empty p)))
        q
      ∙ changed (λ r. (view alive h).viewer r p) room _ g e q

  loads_after :
      (g : String → ℕ)
      → load_in alive (left peer_id (lookup room h.rooms)) ≡ g room
      → (q : String) → after.load q ≡ (if str_eq room q then g q else (view alive h).load q)
  loads_after g e q =
      leave_seen (load_in alive) (λ rs _ empty. sym (ap (count alive) empty ∙ count_empty alive)) q
      ∙ changed (view alive h).load room _ g e q

  module _ (as_host : str_eq peer_id "host" ≡ true) where
    host_left :
        (o : Option RoomState)
        → (host_in alive (left peer_id o) ≡ none)
          × ((p : String) → viewer_in alive p (left peer_id o) ≡ none)
          × (load_in alive (left peer_id o) ≡ 0)
    unfolding left_room
    host_left none = (refl, λ p. refl, refl)
    host_left (some rs) =
        rw as_host (refl, λ p. ap (keep alive) (lookup_empty p), count_empty alive)

    closed-Same : Same after (close_room room (view alive h))
    closed-Same =
        let (eh, ev, el) = host_left (lookup room h.rooms) in
        record {
          hosts = hosts_after (λ _. none) eh;
          viewers = λ q p. viewers_after p (λ _. none) (ev p) q;
          loads = loads_after (λ _. 0) el;
        }

  module _ (as_viewer : str_eq peer_id "host" ≡ false) (v : IsWellFormed h) where
    viewer_left :
        (o : Option RoomState)
        → lookup room h.rooms ≡ o
        → (host_in alive (left peer_id o) ≡ host_in alive o)
          × ((p : String)
              → viewer_in alive p (left peer_id o)
                ≡ (if str_eq peer_id p then none else viewer_in alive p o))
          × (load_in alive (left peer_id o)
              ≡ load_in alive o + 0 - one_if (viewer_in alive peer_id o))
    unfolding left_room
    viewer_left none e = (refl, λ p. ground arith, omega arith)
    viewer_left (some rs) e = rw as_viewer (
      refl,
      λ p. seen-erase (keep alive) peer_id p rs.viewers,
      omega (arith, count-erase alive peer_id rs.viewers (lookup-RoomOk h room v e).distinct),
    )

    departed-Same : Same after (set_viewer room peer_id none (view alive h))
    departed-Same =
        let (eh, ev, el) = viewer_left (lookup room h.rooms) refl in
        record {
          hosts = λ q.
              hosts_after (view alive h).host eh q
              ∙ if_same (str_eq room q) ((view alive h).host q);
          viewers = λ q p.
              viewers_after p (λ r. if str_eq peer_id p then none else (view alive h).viewer r p)
                (ev p) q;
          loads =
              loads_after
                (λ r. (view alive h).load r + 0 - one_if ((view alive h).viewer r peer_id)) el;
        }

  -- For a well-formed hub, leaving is the abstract departure: the peer id "host" closes the
  -- room, so that it has no host and no viewers, and any other id is no longer in the room,
  -- which keeps its host and its other viewers. All other rooms are as they were.
  pub leave-refines :
      IsWellFormed h
      → Same
          (view alive (leave json alive room peer_id h).0)
          (spec_leave room peer_id (view alive h))
  leave-refines v = elim (Bool-cases (str_eq peer_id "host")) [
    | inl e ↦ rw e (closed-Same e)
    | inr e ↦ rw e (departed-Same e v)
  ]
