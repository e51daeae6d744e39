-- ===== src/Server/Session/Run.antt =====
-- Histories of a server: messages, closed connections and destroyed sessions, in any order.
use p2p_desktop_share_new.Base.{
  ℕ, String, true, not, ◌&&◌, ◌||◌, List, [], ◌∷◌, ◌≡◌, refl, inl, inr, arith, Bool-cases,
  Option-cases, str_eq,
}
use p2p_desktop_share_new.Protocol.{JsonLib, get_string, get_string_or}
use p2p_desktop_share_new.Server.Hub.{register_host, join_viewer}
use p2p_desktop_share_new.Server.Hub.Capacity.{
  System, Step, registers, joins, leaves, dies, Reach, here, next, Holds, Reach-Holds, without,
}
use p2p_desktop_share_new.Server.Session.{
  WsSession, World, new_session, put_session, handle_host_register, handle_room_join,
  handle_session_end, handle_webrtc_forward, dispatch, handle_object, handle_message, on_read_error,
  with_room,
}

pub data Event : Type 0 where
  message : ℕ → String → List ℕ → Event
  closed : ℕ → Event
  destroyed : ℕ → Event

abbrev pub started : ℕ → World
started most = record {
  hub = record { rooms = []; max_viewers_per_room = most };
  session = λ _. new_session;
  alive = λ _. true;
  sent = [];
}

-- The part of a world that the hub's invariant is about.
abbrev pub system : World → System
system w = record { alive = w.alive; hub = w.hub }

module _ (json : JsonLib) where
  pub step : Event → World → World
  step (message s text draws) w = handle_message json s text draws w
  step (closed s) w = on_read_error json s w
  step (destroyed s) w = record w { alive = without s w.alive }

  pub run : List Event → World → World
  run [] w = w
  run (e ∷ events) w = run events (step e w)

  one : {t u : System} → Step json t u → Reach json t u
  one st = next here st

  Reach-trans : {t u w : System} → Reach json t u → Reach json u w → Reach json t w
  Reach-trans r here = r
  Reach-trans r (next r' st) = next (Reach-trans r r') st

  module _ (s : ℕ) (self : WsSession) (obj : json.Object) (w : World) where
    register-Reach : Reach json (system w) (system (handle_host_register json s self obj w))
    unfolding handle_host_register
    register-Reach =
        let room = get_string_or json obj "room" "" in
        let token = get_string_or json obj "token" "" in
        elim (Bool-cases (str_eq room "" || str_eq token "")) [
          | inl e ↦ rw e here
          | inr e ↦ rw e (elim (Bool-cases (not (register_host w.alive room token s w.hub).1)) [
            | inl q ↦ rw q (one (registers room token s refl))
            | inr q ↦ rw q (one (registers room token s refl))
          ])
        ]

    join-Reach :
        (draws : List ℕ) → Reach json (system w) (system (handle_room_join json s self obj draws w))
    unfolding handle_room_join
    join-Reach draws =
        let room = get_string_or json obj "room" "" in
        elim (Bool-cases (str_eq room "")) [
          | inl e ↦ rw e here
          | inr e ↦ rw e (elim (Bool-cases (str_eq (join_viewer w.alive room s draws w.hub).1 "")) [
            | inl q ↦ rw q (one (joins room s draws refl))
            | inr q ↦ rw q (one (joins room s draws refl))
          ])
        ]

    end_system : system (handle_session_end json s self obj w) ≡ system w
    unfolding handle_session_end
    end_system = ground arith

    forward_system : system (handle_webrtc_forward json s self obj w) ≡ system w
    unfolding handle_webrtc_forward
    forward_system = ground arith

    dispatch-Reach :
        (type_name : String) (draws : List ℕ)
        → Reach json (system w) (system (dispatch json type_name s self obj draws w))
    unfolding dispatch
    dispatch-Reach type_name draws = elim (Bool-cases (str_eq type_name "host.register")) [
      | inl e ↦ rw e register-Reach
      | inr e ↦ rw e (elim (Bool-cases (str_eq type_name "room.join")) [
        | inl e₁ ↦ rw e₁ (join-Reach draws)
        | inr e₁ ↦ rw e₁ (elim (Bool-cases (str_eq type_name "session.end")) [
          | inl e₂ ↦ rw e₂ (rw end_system here)
          | inr e₂ ↦
              rw e₂
                (elim (Bool-cases (
                  str_eq type_name "webrtc.offer"
                  || str_eq type_name "webrtc.answer"
                  || str_eq type_name "webrtc.ice")) [
                    | inl e₃ ↦ rw e₃ (rw forward_system here)
                    | inr e₃ ↦ rw e₃ here
                  ])
        ])
      ])
    ]

  message-Reach :
      (s : ℕ) (text : String) (draws : List ℕ) (w : World)
      → Reach json (system w) (system (handle_message json s text draws w))
  unfolding handle_message handle_object
  message-Reach s text draws w = elim (Option-cases (json.parse text)) [
    | inl e ↦ rw (e, handle_message) here
    | inr (obj, e) ↦
        rw (e, handle_message)
          (elim (Option-cases (get_string json obj "type")) [
            | inl e₁ ↦ rw (e₁, handle_object) here
            | inr (type_name, e₁) ↦
                let self = with_room (get_string json obj "room") (w.session s) in
                rw (e₁, handle_object)
                  (dispatch-Reach s self obj (put_session s self w) type_name draws)
          ])
  ]

  closed-Reach : (s : ℕ) (w : World) → Reach json (system w) (system (on_read_error json s w))
  unfolding on_read_error
  closed-Reach s w =
      let self = w.session s in
      elim (Bool-cases (not (str_eq self.room "") && not (str_eq self.peer_id ""))) [
        | inl e ↦ rw e (one (leaves self.room self.peer_id refl))
        | inr e ↦ rw e here
      ]

  step-Reach : (e : Event) (w : World) → Reach json (system w) (system (step e w))
  unfolding step
  step-Reach (message s text draws) w = message-Reach s text draws w
  step-Reach (closed s) w = closed-Reach s w
  step-Reach (destroyed s) w = one (dies s refl)

  -- Every history of messages, closed connections and destroyed sessions is a sequence of hub
  -- operations and deaths of sessions.
  pub run-Reach : (events : List Event) (w : World) → Reach json (system w) (system (run events w))
  unfolding run
  run-Reach [] w = here
  run-Reach (e ∷ events) w = Reach-trans (step-Reach e w) (run-Reach events (step e w))

  -- After every history of a new server, whatever its messages, the hub is well formed and no room
  -- has more live viewers than the limit.
  pub run-Holds : (most : ℕ) (events : List Event) → Holds (system (run events (started most)))
  run-Holds most events = Reach-Holds json most (run-Reach events (started most))
