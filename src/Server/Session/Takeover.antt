-- ===== src/Server/Session/Takeover.antt =====
-- What a session can do to a room whose host it failed to become. `HandleHostRegister` marks the
-- session as the room's host before it asks the hub, and leaves the mark when the hub refuses.
use p2p_desktop_share_new.Base.{
  ℕ, ==_iff, String, Bool, true, false, some, List, ◌++◌, ◌≡◌, ◌≢◌, refl, subst, arith, str_eq,
  if◌then◌else◌, eq_refl, ◌∙◌, sym, Elem, Elem-append_left, Elem-append_right,
}
use p2p_desktop_share_new.Protocol.{
  JsonLib, get_string, get_string_or, get_string_or-some, string_of, error, session_ended,
}
use p2p_desktop_share_new.Server.Hub.{WsHub, Send, register_host, leave, end_session}
use p2p_desktop_share_new.Server.Hub.WellFormed.{IsWellFormed, register_host-IsWellFormed}
use p2p_desktop_share_new.Server.Hub.Members.{Membership, Same, view, close_room}
use p2p_desktop_share_new.Server.Hub.Refinement.{register_host-refines, spec_register_taken, str_ne}
use p2p_desktop_share_new.Server.Hub.Refinement.Leave.{leave-refines}
use p2p_desktop_share_new.Server.Hub.Delivery.{broadcast-Elem, leave_host-tells}
use p2p_desktop_share_new.Server.Session.{
  WsSession, World, put_session, send, handle_host_register, handle_session_end, dispatch,
  handle_object, on_read_error, validate_host_token,
}

-- A registration of a room that already has a live host.
pub record Attempt (json : JsonLib) (w : World) (a : ℕ) (room token : String) (obj : json.Object)
    : Type 0 where
  pub well_formed : IsWellFormed w.hub
  pub connected : w.alive a ≡ true
  pub owner : ℕ
  pub owned : (view w.alive w.hub).host room ≡ some owner
  pub room_given : room ≢ ""
  pub token_given : token ≢ ""
  pub type_is : get_string json obj "type" ≡ some "host.register"
  pub room_is : get_string json obj "room" ≡ some room
  pub token_is : get_string json obj "token" ≡ some token

Same-trans : {m n o : Membership} → Same m n → Same n o → Same m o
Same-trans a b = record {
  hosts = λ r. a.hosts r ∙ b.hosts r;
  viewers = λ r p. a.viewers r p ∙ b.viewers r p;
  loads = λ r. a.loads r ∙ b.loads r;
}

in_if {ℓ} :
    {A : Type ℓ} (b : Bool) (x y z : A) → y ≡ z → (if b then x else y) ≡ (if b then x else z)
in_if true x y z e = refl
in_if false x y z e = e

close_room-Same :
    (room : String) {m n : Membership} → Same m n → Same (close_room room m) (close_room room n)
close_room-Same room a = record {
  hosts = λ q. in_if (str_eq room q) _ _ _ (a.hosts q);
  viewers = λ q p. in_if (str_eq room q) _ _ _ (a.viewers q p);
  loads = λ q. in_if (str_eq room q) _ _ _ (a.loads q);
}

abbrev impostor : String → String → WsSession
impostor room token = record { room = room; peer_id = "host"; host_token = token; is_host = true }

module _ (json : JsonLib) (w : World) (a : ℕ) (room token : String) (obj : json.Object)
    (t : Attempt json w a room token obj) where
  abbrev hub_after : WsHub
  hub_after = (register_host w.alive room token a w.hub).0

  refused :
      Same (view w.alive hub_after) (view w.alive w.hub)
      × ((register_host w.alive room token a w.hub).1 ≡ false)
      × ((register_host w.alive room token a w.hub).2 ≡ "HOST_ALREADY_EXISTS")
  refused =
      subst
        (λ (q : Membership × Bool × String).
          Same (view w.alive hub_after) q.0
          × ((register_host w.alive room token a w.hub).1 ≡ q.1)
          × ((register_host w.alive room token a w.hub).2 ≡ q.2))
        (spec_register_taken room a (view w.alive w.hub) t.room_given t.owner t.owned)
        (register_host-refines w.alive room w.hub t.well_formed token a t.connected)

  -- The whole step: an error for the sender, a hub that looks the same, and a session that is
  -- marked as the room's host with a token of its own choice.
  abbrev after_attempt : World
  after_attempt =
      let self : WsSession = record (w.session a) { room = room } in
      send a (error json "HOST_ALREADY_EXISTS" "cannot register host")
        (record (put_session a (impostor room token) (put_session a self w)) { hub = hub_after })

  attempt_step : (draws : List ℕ) → handle_object json a obj draws w ≡ after_attempt
  unfolding handle_object dispatch handle_host_register
  attempt_step draws = rw (
    handle_object,
    t.type_is,
    t.room_is,
    get_string_or-some json obj "room" "" t.room_is,
    get_string_or-some json obj "token" "" t.token_is,
    str_ne room "" t.room_given,
    str_ne token "" t.token_given,
    refused.1,
    refused.2,
  )

  self_eq : after_attempt.session a ≡ impostor room token
  self_eq = ground (arith, ==_iff a a)

  kept-IsWellFormed : IsWellFormed hub_after
  kept-IsWellFormed = register_host-IsWellFormed w.alive room w.hub t.well_formed token a

  viewer_still :
      (p : String) (v : ℕ)
      → (view w.alive w.hub).viewer room p ≡ some v
      → (view w.alive hub_after).viewer room p ≡ some v
  viewer_still p v e = refused.0.viewers room p ∙ e

  closed_step : on_read_error json a after_attempt ≡ record after_attempt {
    hub = (leave json w.alive room "host" hub_after).0;
    sent = after_attempt.sent ++ (leave json w.alive room "host" hub_after).1;
  }
  unfolding on_read_error
  closed_step = rw (self_eq, str_ne room "" t.room_given)

  -- In a well-formed hub, a live session tries to register a room that has a live host. When it
  -- then drops its connection, it takes the room with it: the live host of the room is no longer
  -- in the hub, nor is any viewer, and all other rooms are as they were.
  pub refused_host_closes_room :
      (draws : List ℕ)
      → let w' = on_read_error json a (handle_object json a obj draws w) in
        Same (view w'.alive w'.hub) (close_room room (view w.alive w.hub))
  refused_host_closes_room draws =
      rw (attempt_step draws, closed_step)
        (Same-trans (leave-refines json w.alive room "host" hub_after kept-IsWellFormed)
          (close_room-Same room refused.0))

  -- In a well-formed hub, a live session tries to register a room that has a live host. When it
  -- then drops its connection, every live viewer of the room is told that the host disconnected.
  pub refused_host_tells_viewers :
      (draws : List ℕ) (p : String) (v : ℕ)
      → (view w.alive w.hub).viewer room p ≡ some v
      → Elem {A = Send}
          (v, session_ended json room "host_disconnected")
          (on_read_error json a (handle_object json a obj draws w)).sent
  refused_host_tells_viewers draws p v there =
      rw (attempt_step draws, closed_step)
        (Elem-append_right (v, session_ended json room "host_disconnected") after_attempt.sent
          (leave json w.alive room "host" hub_after).1
          (leave_host-tells json w.alive room hub_after p v (viewer_still p v there)))

  module _ (draws : List ℕ) (ending : json.Object)
      (type_is : get_string json ending "type" ≡ some "session.end")
      (room_is : get_string json ending "room" ≡ some room)
      (token_is : string_of json (json.find "token" ending) ≡ some token) where
    ended_text : String
    ended_text = session_ended json room (get_string_or json ending "reason" "host_stopped")

    told_after_attempt :
        (p : String) (v : ℕ)
        → (view w.alive w.hub).viewer room p ≡ some v
        → Elem {A = Send} (v, ended_text) (handle_object json a ending draws after_attempt).sent
    unfolding handle_object dispatch handle_session_end validate_host_token end_session ended_text
    told_after_attempt p v there =
        let told = broadcast-Elem w.alive ended_text room p v hub_after (viewer_still p v there) in
        rw
          (
            handle_object,
            type_is,
            room_is,
            self_eq,
            token_is,
            eq_refl token,
            str_ne room "" t.room_given,
          )
          (Elem-append_right _ after_attempt.sent _ (Elem-append_left _ _ _ told))

    -- In a well-formed hub, a live session tries to register a room that has a live host. A
    -- "session.end" for the room that shows the token of that refused registration then tells
    -- every live viewer that the session ended.
    pub refused_host_ends_session :
        (draws' : List ℕ) (p : String) (v : ℕ)
        → (view w.alive w.hub).viewer room p ≡ some v
        → Elem {A = Send}
            (v, session_ended json room (get_string_or json ending "reason" "host_stopped"))
            (handle_object json a ending draws (handle_object json a obj draws' w)).sent
    unfolding ended_text
    refused_host_ends_session draws' p v there =
        subst
          (λ (x : World).
            Elem {A = Send} (v, ended_text) (handle_object json a ending draws x).sent)
          (sym (attempt_step draws')) (told_after_attempt p v there)
