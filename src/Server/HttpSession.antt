-- ===== src/Server/HttpSession.antt =====
-- core/server/http_session: the phases of a connection before it becomes a WebSocket. An event is
-- the completion of a read or of a write; the router's answer and its `need_eof` are arguments.
pub mod Conversation
mod Tests
use p2p_desktop_share_new.Base.{
  Bool, true, false, ◌&&◌, Option, none, some, List, [], ◌∷◌, ◌++◌, if◌then◌else◌,
}
use p2p_desktop_share_new.Base.Text.{Text, codes, text_eq}

-- `is_upgrade` is `websocket::is_upgrade`.
pub record HttpRequest : Type 0 where
  pub target : Text
  pub is_upgrade : Bool

-- What is pending: a read, or a write with the flag `close`; or nothing any more, after a
-- shutdown, a hand-over to a WebSocket session, or an error.
pub data HttpPhase : Type 0 where
  reading : HttpPhase
  writing : Bool → HttpPhase
  shut handed_over dropped : HttpPhase

pub data HttpEvent : Type 0 where
  read_ended read_failed : HttpEvent
  read_done : HttpRequest → HttpEvent
  write_failed write_done : HttpEvent

pub data HttpEffect (Response : Type 0) : Type 0 where
  responds : Response → HttpEffect Response
  hands_over : HttpRequest → HttpEffect Response
  shuts_send : HttpEffect Response

module _ {Response : Type 0} (answer : HttpRequest → Response) (need_eof : Response → Bool) where
  -- `OnRead` with a request, and `HandleRequest`.
  unfoldable pub on_request : HttpRequest → HttpPhase × List (HttpEffect Response)
  on_request request =
      if request.is_upgrade && text_eq request.target (codes "/ws")
      then (handed_over, hands_over request ∷ [])
      else (writing (need_eof (answer request)), responds (answer request) ∷ [])

  abbrev pub on_written : Bool → HttpPhase × List (HttpEffect Response)
  on_written close = if close then (shut, shuts_send ∷ []) else (reading, [])

  -- `OnRead` and `OnWrite`; `none` for an event that nothing pending can bring.
  unfoldable pub on_event : HttpPhase → HttpEvent → Option (HttpPhase × List (HttpEffect Response))
  on_event reading read_ended = some (shut, shuts_send ∷ [])
  on_event reading read_failed = some (dropped, [])
  on_event reading (read_done request) = some (on_request request)
  on_event (writing close) write_failed = some (dropped, [])
  on_event (writing close) write_done = some (on_written close)
  on_event phase event = none

  abbrev pub and_then :
      List (HttpEffect Response)
      → Option (HttpPhase × List (HttpEffect Response))
      → Option (HttpPhase × List (HttpEffect Response))
  and_then effects none = none
  and_then effects (some (phase, more)) = some (phase, effects ++ more)

  abbrev pub http_continue :
      (HttpPhase → Option (HttpPhase × List (HttpEffect Response)))
      → Option (HttpPhase × List (HttpEffect Response))
      → Option (HttpPhase × List (HttpEffect Response))
  http_continue rest none = none
  http_continue rest (some (phase, effects)) = and_then effects (rest phase)

  -- What the events of a connection lead to and do, in their order; `Run` starts with a read.
  unfoldable pub http_run :
      List HttpEvent → HttpPhase → Option (HttpPhase × List (HttpEffect Response))
  http_run [] phase = some (phase, [])
  http_run (event ∷ events) phase = http_continue (http_run events) (on_event phase event)
