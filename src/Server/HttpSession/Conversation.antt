-- ===== src/Server/HttpSession/Conversation.antt =====
-- The conversations a connection can have (http_session.cpp).
use p2p_desktop_share_new.Base.{
  Bool, true, false, ◌&&◌, Option, none, some, List, [], ◌∷◌, ◌≡◌, refl, sym, ap, ◌∙◌, subst, inl,
  inr, Bool-cases, append-nil,
}
use p2p_desktop_share_new.Base.Text.{codes, text_eq}
use p2p_desktop_share_new.Server.HttpSession.{
  HttpRequest, HttpPhase, reading, writing, shut, handed_over, dropped, HttpEvent, read_ended,
  read_failed, read_done, write_failed, write_done, HttpEffect, responds, hands_over, shuts_send,
  on_request, on_event, and_then, http_run,
}

abbrev pub wants_socket : HttpRequest → Bool
wants_socket request = request.is_upgrade && text_eq request.target (codes "/ws")

abbrev pub is_write : HttpEvent → Bool
is_write write_failed = true
is_write write_done = true
is_write event = false

module _ {Response : Type 0} (answer : HttpRequest → Response) (need_eof : Response → Bool) where
  abbrev pub Result : Type 0
  Result = Option (HttpPhase × List (HttpEffect Response))

  -- The end of a connection: nothing can happen behind it.
  abbrev pub ends : HttpPhase → List (HttpEffect Response) → List HttpEvent → Result
  ends phase effects [] = some (phase, effects)
  ends phase effects (event ∷ events) = none

  -- The events from a read on, with what they lead to and do; `none` for events that cannot
  -- happen one behind the other. A conversation is the reads that each got an answer on a
  -- connection that stays open, and then one of the ends.
  pub data Conversation : List HttpEvent → Result → Type 0 where
    waits : Conversation [] (some (reading, []))
    peer_ended :
        (es : List HttpEvent) → Conversation (read_ended ∷ es) (ends shut (shuts_send ∷ []) es)
    peer_failed : (es : List HttpEvent) → Conversation (read_failed ∷ es) (ends dropped [] es)
    upgraded :
        (request : HttpRequest) (es : List HttpEvent)
        → wants_socket request ≡ true
        → Conversation (read_done request ∷ es) (ends handed_over (hands_over request ∷ []) es)
    not_written :
        (request : HttpRequest)
        → wants_socket request ≡ false
        → Conversation
            (read_done request ∷ [])
            (some (writing (need_eof (answer request)), responds (answer request) ∷ []))
    write_broke :
        (request : HttpRequest) (es : List HttpEvent)
        → wants_socket request ≡ false
        → Conversation
            (read_done request ∷ write_failed ∷ es)
            (ends dropped (responds (answer request) ∷ []) es)
    answered_last :
        (request : HttpRequest) (es : List HttpEvent)
        → wants_socket request ≡ false
        → need_eof (answer request) ≡ true
        → Conversation
            (read_done request ∷ write_done ∷ es)
            (ends shut (responds (answer request) ∷ shuts_send ∷ []) es)
    answered :
        (request : HttpRequest) (es : List HttpEvent) (result : Result)
        → wants_socket request ≡ false
        → need_eof (answer request) ≡ false
        → Conversation es result
        → Conversation
            (read_done request ∷ write_done ∷ es)
            (and_then answer need_eof (responds (answer request) ∷ []) result)
    write_while_reading :
        (event : HttpEvent) (es : List HttpEvent)
        → is_write event ≡ true
        → Conversation (event ∷ es) none
    read_while_writing :
        (request : HttpRequest) (event : HttpEvent) (es : List HttpEvent)
        → wants_socket request ≡ false
        → is_write event ≡ false
        → Conversation (read_done request ∷ event ∷ es) none

  abbrev Talks : List HttpEvent → Type 0
  Talks events = Conversation events (http_run answer need_eof events reading)

  ends-run :
      (phase : HttpPhase) (effects : List (HttpEffect Response)) (events : List HttpEvent)
      → ((event : HttpEvent) → on_event answer need_eof phase event ≡ none)
      → and_then answer need_eof effects (http_run answer need_eof events phase)
        ≡ ends phase effects events
  unfolding http_run
  ends-run phase effects [] over = ap (λ es. some (phase, es)) (append-nil effects)
  ends-run phase effects (event ∷ events) over = rw (over event) refl

  shut-ends :
      (effects : List (HttpEffect Response)) (events : List HttpEvent)
      → and_then answer need_eof effects (http_run answer need_eof events shut)
        ≡ ends shut effects events
  unfolding on_event
  shut-ends effects events = ends-run shut effects events (λ event. refl)

  dropped-ends :
      (effects : List (HttpEffect Response)) (events : List HttpEvent)
      → and_then answer need_eof effects (http_run answer need_eof events dropped)
        ≡ ends dropped effects events
  unfolding on_event
  dropped-ends effects events = ends-run dropped effects events (λ event. refl)

  handed_over-ends :
      (effects : List (HttpEffect Response)) (events : List HttpEvent)
      → and_then answer need_eof effects (http_run answer need_eof events handed_over)
        ≡ ends handed_over effects events
  unfolding on_event
  handed_over-ends effects events = ends-run handed_over effects events (λ event. refl)

  and_then_twice :
      (effect : HttpEffect Response) (more : List (HttpEffect Response)) (result : Result)
      → and_then answer need_eof (effect ∷ []) (and_then answer need_eof more result)
        ≡ and_then answer need_eof (effect ∷ more) result
  and_then_twice effect more none = refl
  and_then_twice effect more (some (phase, effects)) = refl

  -- What a request that gets an answer leads to.
  abbrev Answered : HttpRequest → List HttpEvent → Type 0
  Answered request events = Conversation (read_done request ∷ events) (
      and_then answer need_eof (responds (answer request) ∷ [])
        (http_run answer need_eof events (writing (need_eof (answer request)))))

  request-Conversation :
      (request : HttpRequest) (events : List HttpEvent)
      → (wants_socket request ≡ false → Answered request events)
      → Talks (read_done request ∷ events)
  unfolding http_run on_event on_request
  request-Conversation request events plain = elim (Bool-cases (wants_socket request)) [
    | inl socket ↦ rw socket (
        subst (Conversation (read_done request ∷ events))
          (sym (handed_over-ends (hands_over request ∷ []) events))
          (upgraded request events socket))
    | inr page ↦ rw page (plain page)
  ]

  written-Conversation :
      (request : HttpRequest) (events : List HttpEvent)
      → Talks events
      → wants_socket request ≡ false
      → Answered request (write_done ∷ events)
  unfolding http_run on_event
  written-Conversation request events talks page = elim (Bool-cases (need_eof (answer request))) [
    | inl last ↦ rw last (
        subst (Conversation (read_done request ∷ write_done ∷ events))
          (sym (
            and_then_twice (responds (answer request)) (shuts_send ∷ [])
              (http_run answer need_eof events shut)
            ∙ shut-ends (responds (answer request) ∷ shuts_send ∷ []) events))
          (answered_last request events page last))
    | inr stays ↦ rw stays (
        subst (Conversation (read_done request ∷ write_done ∷ events))
          (sym (
            and_then_twice (responds (answer request)) []
              (http_run answer need_eof events reading)))
          (answered request events (http_run answer need_eof events reading) page stays talks))
  ]

  broken-Conversation :
      (request : HttpRequest) (events : List HttpEvent)
      → wants_socket request ≡ false
      → Answered request (write_failed ∷ events)
  unfolding http_run on_event
  broken-Conversation request events page =
      subst (Conversation (read_done request ∷ write_failed ∷ events))
        (sym (
          and_then_twice (responds (answer request)) [] (http_run answer need_eof events dropped)
          ∙ dropped-ends (responds (answer request) ∷ []) events))
        (write_broke request events page)

  -- For every sequence of events of a connection that has begun to read, the code gives what the
  -- conversation says: answers in the order of the requests, a read behind each written answer
  -- that leaves the connection open, a shutdown behind one that does not and behind the end of
  -- the peer's requests, a hand-over for an upgrade of "/ws", nothing at all behind these and
  -- behind a failed read or write, and no result for events that cannot follow each other.
  pub run-Conversation :
      (events : List HttpEvent) → Conversation events (http_run answer need_eof events reading)
  unfolding http_run on_event
  run-Conversation [] = waits
  run-Conversation (read_ended ∷ es) =
      subst (Conversation (read_ended ∷ es)) (sym (shut-ends (shuts_send ∷ []) es)) (peer_ended es)
  run-Conversation (read_failed ∷ es) =
      subst (Conversation (read_failed ∷ es)) (sym (dropped-ends [] es)) (peer_failed es)
  run-Conversation (write_failed ∷ es) = write_while_reading write_failed es refl
  run-Conversation (write_done ∷ es) = write_while_reading write_done es refl
  run-Conversation (read_done request ∷ []) = request-Conversation request [] (not_written request)
  run-Conversation (read_done request ∷ write_failed ∷ es) =
      request-Conversation request (write_failed ∷ es) (broken-Conversation request es)
  run-Conversation (read_done request ∷ write_done ∷ es) =
      request-Conversation request (write_done ∷ es)
        (written-Conversation request es (run-Conversation es))
  run-Conversation (read_done request ∷ read_ended ∷ es) =
      request-Conversation request (read_ended ∷ es)
        (λ page. read_while_writing request read_ended es page refl)
  run-Conversation (read_done request ∷ read_failed ∷ es) =
      request-Conversation request (read_failed ∷ es)
        (λ page. read_while_writing request read_failed es page refl)
  run-Conversation (read_done request ∷ read_done more ∷ es) =
      request-Conversation request (read_done more ∷ es)
        (λ page. read_while_writing request (read_done more) es page refl)
