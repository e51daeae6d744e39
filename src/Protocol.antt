-- ===== src/Protocol.antt =====
-- core/protocol: the JSON helpers of json_helpers.h and the message builders of messages.cpp.
-- Boost.JSON is not part of the repository: `JsonLib` is what the code uses of it, with the
-- documented behaviour of `object` as laws.
pub mod Plain
use Prim.Native.Char.{Char, code}
use p2p_desktop_share_new.Base.{
  ℕ, String, Bool, true, false, Option, none, some, ◌≡◌, ap, ◌==◌, if◌then◌else◌, str_eq,
}

pub record JsonLib : Type 1 where
  pub Value : Type 0
  pub Object : Type 0
  -- `parse` followed by `is_object` and `as_object`: `none` if the text is no JSON object.
  pub parse : String → Option Object
  pub serialize : Object → String
  pub empty : Object
  pub find : String → Object → Option Value
  pub put : String → Value → Object → Object
  pub erase : String → Object → Object
  pub as_string : Value → Option String
  pub of_string : String → Value
  pub of_bool : Bool → Value
  pub of_size : ℕ → Value
  pub find-put :
      (k j : String) (v : Value) (o : Object)
      → find j (put k v o) ≡ (if str_eq k j then some v else find j o)
  pub find-erase :
      (k j : String) (o : Object) → find j (erase k o) ≡ (if str_eq k j then none else find j o)
  pub as_string-of_string : (s : String) → as_string (of_string s) ≡ some s

-- What a C string keeps of a text: the part before the first NUL.
unfoldable pub c_str : String → String
c_str String.[] = ""
c_str (String.◌∷◌ c s) = if code c == 0 then "" else String.◌∷◌ c (c_str s)

module _ (json : JsonLib) where
  open json use {Value, Object, serialize, empty, find, put, as_string, of_string, of_bool, of_size}

  -- The string that a value holds, if it is one.
  abbrev pub string_of : Option Value → Option String
  string_of none = none
  string_of (some v) = as_string v

  abbrev cut : Option String → Option String
  cut none = none
  cut (some s) = some (c_str s)

  unfoldable pub get_string : Object → String → Option String
  get_string obj key = cut (string_of (find key obj))

  abbrev or_else : Option String → String → String
  or_else none fallback = fallback
  or_else (some s) fallback = s

  unfoldable pub get_string_or : Object → String → String → String
  unfolding get_string
  get_string_or obj key fallback = or_else (get_string obj key) fallback

  pub get_string_or-some :
      (obj : Object) (key fallback : String) {s : String}
      → get_string obj key ≡ some s
      → get_string_or obj key fallback ≡ s
  unfolding get_string_or
  get_string_or-some obj key fallback e = ap (λ o. or_else o fallback) e

  abbrev text : String → String → Object → Object
  text key value o = put key (of_string value) o

  pub error : String → String → String
  error code_name message =
      serialize (text "message" message (text "code" code_name (text "type" "error" empty)))

  pub host_registered : String → String
  host_registered room = serialize (text "room" room (text "type" "host.registered" empty))

  pub room_joined : String → String → String
  room_joined room peer_id =
      serialize (text "peerId" peer_id (text "room" room (text "type" "room.joined" empty)))

  pub peer_joined : String → String → String
  peer_joined room peer_id =
      serialize (text "peerId" peer_id (text "room" room (text "type" "peer.joined" empty)))

  pub peer_left : String → String → String
  peer_left room peer_id =
      serialize (text "peerId" peer_id (text "room" room (text "type" "peer.left" empty)))

  pub session_ended : String → String → String
  session_ended room reason =
      serialize (text "reason" reason (text "room" room (text "type" "session.ended" empty)))

  pub session_end_ack : String → String
  session_end_ack room = serialize (text "room" room (text "type" "session.end.ack" empty))

  pub api_status : Bool → ℕ → ℕ → String
  api_status running rooms viewers = serialize (
      put "viewers" (of_size viewers)
        (put "rooms" (of_size rooms) (put "running" (of_bool running) empty)))
