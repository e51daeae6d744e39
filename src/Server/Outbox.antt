-- ===== src/Server/Outbox.antt =====
-- The outbox of a session, ws_session.cpp: `Send` posts a handler on the session's strand, and a
-- completed write starts the next one. Each handler is one step.
pub mod Order
mod Tests
use p2p_desktop_share_new.Base.{
  String, Bool, true, false, not, ◌&&◌, List, [], ◌∷◌, ◌++◌, if◌then◌else◌,
}

-- `pending` holds the texts of the writes that were started and are not complete, `wire` those
-- that were written.
pub record Outbox : Type 0 where
  pub outbox : List String
  pub writing : Bool
  pub pending : List String
  pub wire : List String

abbrev pub idle_outbox : Outbox
idle_outbox = record { outbox = []; writing = false; pending = []; wire = [] }

abbrev pub none_left : List String → Bool
none_left [] = true
none_left (text ∷ texts) = false

-- A write of `outbox_.front()`, which a deque has unless it is empty.
abbrev pub front : List String → List String
front [] = []
front (text ∷ texts) = text ∷ []

abbrev pub pop_front : List String → List String
pop_front [] = []
pop_front (text ∷ texts) = texts

pub do_write : Outbox → Outbox
do_write b = record b { pending = b.pending ++ front b.outbox }

-- The handler that `Send` posts.
pub post_text : String → Outbox → Outbox
post_text text b =
    let queued = record b { outbox = b.outbox ++ text ∷ [] } in
    if none_left b.outbox && not b.writing
    then do_write (record queued { writing = true })
    else queued

-- `OnWrite` with an error.
pub write_failed : Outbox → Outbox
write_failed b = record b { writing = false; outbox = [] }

-- `OnWrite` without one.
pub write_done : Outbox → Outbox
write_done b =
    let rest = pop_front b.outbox in
    if not (none_left rest)
    then do_write (record b { outbox = rest })
    else record b { outbox = rest; writing = false }

pub data StrandEvent : Type 0 where
  posted : String → StrandEvent
  written failed : StrandEvent

-- The completion of the first write under way; without one there is nothing to complete.
abbrev pub complete : (String → Outbox → Outbox) → Outbox → Outbox
complete on_write b = elim b.pending [
  | [] ↦ b
  | text ∷ later ↦ on_write text (record b { pending = later })
]

pub strand_step : StrandEvent → Outbox → Outbox
strand_step (posted text) b = post_text text b
strand_step written b = complete (λ text c. write_done (record c { wire = c.wire ++ text ∷ [] })) b
strand_step failed b = complete (λ text c. write_failed c) b

pub strand_run : List StrandEvent → Outbox → Outbox
strand_run [] b = b
strand_run (e ∷ events) b = strand_run events (strand_step e b)
