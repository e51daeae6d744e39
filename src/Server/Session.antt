-- ===== src/Server/Session.antt =====
-- core/server/ws_session_handlers and the reading side of ws_session: the sessions of one hub.
-- A message is handled in one step, as on one io thread; the interleavings of the hub operations
-- of several threads are in Hub/Capacity. Every session has the hub, as `HttpSession` makes them.
pub mod Run
pub mod Forward
pub mod Takeover
mod Tests
use p2p_desktop_share_new.Base.{
  ℕ, ◌==◌, String, Bool, true, false, not, ◌&&◌, ◌||◌, Option, none, some, List, [], ◌∷◌, ◌++◌,
  if◌then◌else◌, str_eq,
}
use p2p_desktop_share_new.Protocol.{
  JsonLib, string_of, get_string, get_string_or, error, host_registered, room_joined, peer_joined,
  session_end_ack,
}
use p2p_desktop_share_new.Server.Hub.{
  WsHub, Send, register_host, join_viewer, leave, forward_to, notify_host, end_session,
}

pub record WsSession : Type 0 where
  pub room : String
  pub peer_id : String
  pub host_token : String
  pub is_host : Bool

abbrev pub new_session : WsSession
new_session = record { room = ""; peer_id = ""; host_token = ""; is_host = false }

-- The hub, the sessions by number, which of them still have an owner, and all that was handed to
-- `Send` so far, in order. A session that has not connected yet is a new session.
pub record World : Type 0 where
  pub hub : WsHub
  pub session : ℕ → WsSession
  pub alive : ℕ → Bool
  pub sent : List Send

abbrev pub put_session : ℕ → WsSession → World → World
put_session s self w = record w { session = λ j. if s == j then self else w.session j }

abbrev pub send_all : List Send → World → World
send_all sends w = record w { sent = w.sent ++ sends }

abbrev pub send : ℕ → String → World → World
send s text w = send_all ((s, text) ∷ []) w

-- `tokIt->value().as_string() == hostToken_`: the whole string, not what `c_str` keeps of it.
abbrev pub same_token : Option String → String → Bool
same_token none token = false
same_token (some t) token = str_eq t token

abbrev pub or_code : String → String → String
or_code err code = if str_eq err "" then code else err

abbrev pub with_room : Option String → WsSession → WsSession
with_room none self = self
with_room (some r) self = record self { room = r }

module _ (json : JsonLib) where
  open json use {Value, Object, parse, serialize, find, put, erase, as_string, of_string}

  unfoldable pub validate_host_token : WsSession → Object → Bool
  validate_host_token self obj =
      if not self.is_host
      then false
      else same_token (string_of json (find "token" obj)) self.host_token

  pub handle_host_register : ℕ → WsSession → Object → World → World
  handle_host_register s self obj w =
      let room = get_string_or json obj "room" "" in
      let token = get_string_or json obj "token" "" in
      if str_eq room "" || str_eq token ""
      then send s (error json "BAD_REQUEST" "room/token is required") w
      else let self' : WsSession = record {
        room = room;
        peer_id = "host";
        host_token = token;
        is_host = true;
      } in
        let w' : World = put_session s self' w in
        let (hub, done, err) = register_host w.alive room token s w.hub in
        if not done
        then send s (error json (or_code err "HOST_ALREADY_EXISTS") "cannot register host")
            (record w' { hub = hub })
        else send s (host_registered json room) (record w' { hub = hub })

  pub handle_room_join : ℕ → WsSession → Object → List ℕ → World → World
  handle_room_join s self obj draws w =
      let room = get_string_or json obj "room" "" in
      if str_eq room ""
      then send s (error json "BAD_REQUEST" "room is required") w
      else let self' : WsSession = record self { room = room } in
        let (hub, id, err) = join_viewer w.alive room s draws w.hub in
        if str_eq id ""
        then send s (error json (or_code err "ROOM_NOT_FOUND") "cannot join room")
            (record (put_session s self' w) { hub = hub })
        else send_all
            ((s, room_joined json room id)
              ∷ notify_host w.alive room (peer_joined json room id) hub)
            (record (put_session s (record self' { peer_id = id }) w) { hub = hub })

  pub handle_session_end : ℕ → WsSession → Object → World → World
  handle_session_end s self obj w =
      if not self.is_host
      then w
      else if not (validate_host_token self obj)
      then send s (error json "UNAUTHORIZED_HOST" "bad token") w
      else let reason = get_string_or json obj "reason" "host_stopped" in
        if str_eq self.room ""
        then send s (error json "BAD_REQUEST" "room is required") w
        else send_all
            (end_session w.alive json self.room reason w.hub
              ++ (s, session_end_ack json self.room) ∷ [])
            w

  -- The object that is passed on: the sender and the room are the server's.
  unfoldable pub stamped : WsSession → Object → Object
  stamped self obj =
      put "room" (of_string self.room) (put "from" (of_string self.peer_id) (erase "token" obj))

  pub handle_webrtc_forward : ℕ → WsSession → Object → World → World
  handle_webrtc_forward s self obj w =
      if str_eq self.room ""
      then send s (error json "BAD_REQUEST" "room is required") w
      else let to = get_string_or json obj "to" "" in
        if str_eq to ""
        then w
        else if self.is_host && not (validate_host_token self obj)
        then send s (error json "UNAUTHORIZED_HOST" "bad token") w
        else send_all (forward_to w.alive self.room to (serialize (stamped self obj)) w.hub) w

  -- The message handlers, by the type of the message; the session's room is the message's.
  pub dispatch : String → ℕ → WsSession → Object → List ℕ → World → World
  dispatch type_name s self obj draws w =
      if str_eq type_name "host.register"
      then handle_host_register s self obj w
      else if str_eq type_name "room.join"
      then handle_room_join s self obj draws w
      else if str_eq type_name "session.end"
      then handle_session_end s self obj w
      else if str_eq type_name "webrtc.offer"
          || str_eq type_name "webrtc.answer"
          || str_eq type_name "webrtc.ice"
      then handle_webrtc_forward s self obj w
      else w

  pub handle_object : ℕ → Object → List ℕ → World → World
  handle_object s obj draws w = elim (get_string json obj "type") [
    | none ↦ w
    | some type_name ↦
        let self = with_room (get_string json obj "room") (w.session s) in
        dispatch type_name s self obj draws (put_session s self w)
  ]

  pub handle_message : ℕ → String → List ℕ → World → World
  handle_message s text draws w = elim (parse text) [
    | none ↦ w
    | some obj ↦ handle_object s obj draws w
  ]

  -- `OnRead` with an error: the session leaves its room, and reads no more.
  pub on_read_error : ℕ → World → World
  on_read_error s w =
      let self = w.session s in
      if not (str_eq self.room "") && not (str_eq self.peer_id "")
      then (let (hub, sends) = leave json w.alive self.room self.peer_id w.hub in
          send_all sends (record w { hub = hub }))
      else w
