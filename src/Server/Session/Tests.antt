-- ===== src/Server/Session/Tests.antt =====
-- Sessions on a small example: session 7 hosts the room "r1", session 8 views it.
use p2p_desktop_share_new.Base.{
  ℕ, ◌==◌, String, true, false, none, some, [], ◌∷◌, ◌≡◌, ◌⊎◌, refl, inl, Elem, Elem-append_left,
  Elem-append_right, subst, sym, if◌then◌else◌, str_eq,
}
use p2p_desktop_share_new.Base.Dict.{lookup}
use p2p_desktop_share_new.Protocol.{c_str, get_string, get_string_or, string_of, session_ended}
use p2p_desktop_share_new.Protocol.Plain.{plain, differ, Fields, set, no_fields}
use p2p_desktop_share_new.Server.Hub.{RoomState, Send, end_session}
use p2p_desktop_share_new.Server.Hub.WellFormed.{IsWellFormed}
use p2p_desktop_share_new.Server.Hub.Capacity.{Holds}
use p2p_desktop_share_new.Server.Hub.Members.{Same, view, close_room}
use p2p_desktop_share_new.Server.Hub.Delivery.{named, broadcast-Elem}
use p2p_desktop_share_new.Server.Session.{
  WsSession, World, new_session, stamped, send_all, handle_webrtc_forward, handle_session_end,
  handle_object, on_read_error, validate_host_token,
}
use p2p_desktop_share_new.Server.Session.Run.{
  message, closed, destroyed, system, started, run, run-Holds,
}
use p2p_desktop_share_new.Server.Session.Forward.{
  find-stamped, forward_sound, forward_reaches, session_end_sound,
}
use p2p_desktop_share_new.Server.Session.Takeover.{
  Attempt, refused_host_closes_room, refused_host_ends_session,
}

run-Holds_example : Holds (
    system (
      run plain
        (message 7 "register" [] ∷ message 8 "join" (1 ∷ []) ∷ closed 8 ∷ destroyed 8 ∷ [])
        (started 2)))
run-Holds_example =
    run-Holds plain 2
      (message 7 "register" [] ∷ message 8 "join" (1 ∷ []) ∷ closed 8 ∷ destroyed 8 ∷ [])

abbrev host_of_one : WsSession
host_of_one = record { room = "r1"; peer_id = "host"; host_token = "t1"; is_host = true }

abbrev viewer_id : ℕ
viewer_id = 8

abbrev offer : Fields
offer = set "to" "a" (set "token" "t1" (set "type" "webrtc.offer" no_fields))

abbrev room_one : RoomState
room_one = record { host = some 7; host_token = "t1"; viewers = ("a", 8) ∷ [] }

abbrev world_one : World
world_one = record {
  hub = record { rooms = ("r1", room_one) ∷ []; max_viewers_per_room = 2 };
  session = λ s. if s == 7 then host_of_one else new_session;
  alive = λ s. true;
  sent = [];
}

world_one-IsWellFormed : IsWellFormed world_one.hub
world_one-IsWellFormed = record {
  distinct = (tt, tt);
  named = (differ "r1" "" refl, tt);
  rooms_ok = (
    record {
      distinct = (tt, tt);
      no_host = (differ "a" "host" refl, tt);
      no_empty = (differ "a" "" refl, tt);
    },
    tt,
  );
}

find-stamped_example : plain.find "token" (stamped plain host_of_one offer) ≡ (
    if str_eq "room" "token"
    then some (plain.of_string "r1")
    else if str_eq "from" "token"
    then some (plain.of_string "host")
    else if str_eq "token" "token"
    then none
    else plain.find "token" offer)
find-stamped_example = find-stamped plain host_of_one offer "token"

abbrev offer_text : String
offer_text = plain.serialize (stamped plain host_of_one offer)

forward_reaches_example :
    handle_webrtc_forward plain 7 host_of_one offer world_one
    ≡ send_all ((8, offer_text) ∷ []) world_one
unfolding lookup get_string_or c_str
forward_reaches_example =
    forward_reaches plain 7 host_of_one offer world_one 8 (differ "r1" "" refl) (differ "a" "" refl)
      (λ e. refl) refl

offer_forwarded :
    Elem {A = Send} (8, offer_text) (handle_webrtc_forward plain 7 host_of_one offer world_one).sent
unfolding lookup get_string_or c_str
offer_forwarded =
    subst (λ (w : World). Elem {A = Send} (8, offer_text) w.sent)
      (sym (
        forward_reaches plain 7 host_of_one offer world_one 8 (differ "r1" "" refl)
          (differ "a" "" refl) (λ e. refl) refl))
      (inl refl)

forward_sound_example :
    Elem {A = Send} (8, offer_text) world_one.sent
    ⊎ (viewer_id ≡ 7)
    ⊎ ((named (view world_one.alive world_one.hub) "r1" (get_string_or plain offer "to" "")
          ≡ some 8)
        × (offer_text ≡ plain.serialize (stamped plain host_of_one offer))
        × ((host_of_one.is_host ≡ false)
            ⊎ (string_of plain (plain.find "token" offer) ≡ some "t1")))
forward_sound_example =
    forward_sound plain 7 host_of_one offer world_one (8, offer_text) offer_forwarded

abbrev ending : Fields
ending = set "token" "t1" (set "room" "r1" (set "type" "session.end" no_fields))

abbrev ended_text : String
ended_text = session_ended plain "r1" (get_string_or plain ending "reason" "host_stopped")

end_told :
    Elem {A = Send} (8, ended_text) (handle_session_end plain 7 host_of_one ending world_one).sent
unfolding handle_session_end validate_host_token end_session lookup
end_told = Elem-append_right _ [] _ (
    Elem-append_left _ _ _
      (broadcast-Elem world_one.alive ended_text "r1" "a" 8 world_one.hub refl))

session_end_sound_example :
    Elem {A = Send} (8, ended_text) world_one.sent
    ⊎ (viewer_id ≡ 7)
    ⊎ (((p : String) × ((view world_one.alive world_one.hub).viewer "r1" p ≡ some 8))
        × (ended_text
            ≡ session_ended plain "r1" (get_string_or plain ending "reason" "host_stopped"))
        × (host_of_one.is_host ≡ true)
        × (string_of plain (plain.find "token" ending) ≡ some "t1"))
session_end_sound_example =
    session_end_sound plain 7 host_of_one ending world_one (8, ended_text) world_one-IsWellFormed
      end_told

-- Session 5 tries to register the room that session 7 hosts.
abbrev rival : Fields
rival = set "token" "t5" (set "room" "r1" (set "type" "host.register" no_fields))

rival-Attempt : Attempt plain world_one 5 "r1" "t5" rival
unfolding lookup get_string c_str
rival-Attempt = record {
  well_formed = world_one-IsWellFormed;
  connected = refl;
  owner = 7;
  owned = refl;
  room_given = differ "r1" "" refl;
  token_given = differ "t5" "" refl;
  type_is = refl;
  room_is = refl;
  token_is = refl;
}

refused_host_closes_room_example :
    let w' = on_read_error plain 5 (handle_object plain 5 rival [] world_one) in
    Same (view w'.alive w'.hub) (close_room "r1" (view world_one.alive world_one.hub))
refused_host_closes_room_example =
    refused_host_closes_room plain world_one 5 "r1" "t5" rival rival-Attempt []

abbrev rival_ending : Fields
rival_ending = set "token" "t5" (set "room" "r1" (set "type" "session.end" no_fields))

refused_host_ends_session_example :
    Elem {A = Send}
      (8, session_ended plain "r1" (get_string_or plain rival_ending "reason" "host_stopped"))
      (handle_object plain 5 rival_ending [] (handle_object plain 5 rival [] world_one)).sent
unfolding lookup get_string c_str
refused_host_ends_session_example =
    refused_host_ends_session plain world_one 5 "r1" "t5" rival rival-Attempt [] rival_ending refl
      refl refl [] "a" 8 refl
