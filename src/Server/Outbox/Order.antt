-- ===== src/Server/Outbox/Order.antt =====
-- The writes under way and the order of the texts, for the outbox of ws_session.cpp.
use p2p_desktop_share_new.Base.{
  ◌≤◌, String, true, false, not, List, [], ◌∷◌, ◌++◌, length, All, append_assoc, append-nil, ◌≡◌,
  ◌≢◌, refl, sym, ap, ◌∙◌, arith,
}
use p2p_desktop_share_new.Server.Outbox.{
  Outbox, idle_outbox, none_left, front, do_write, post_text, write_failed, write_done, StrandEvent,
  posted, written, failed, strand_step, strand_run,
}

-- Nothing queued and no write, or the front of the queue is being written.
pub data Steady : Outbox → Type 0 where
  resting :
      (w : List String) → Steady (record { outbox = []; writing = false; pending = []; wire = w })
  busy :
      (w : List String) (text : String) (rest : List String)
      → Steady (record { outbox = text ∷ rest; writing = true; pending = text ∷ []; wire = w })

step-Steady : (e : StrandEvent) (b : Outbox) → Steady b → Steady (strand_step e b)
unfolding strand_step post_text write_done write_failed do_write
step-Steady (posted text) b (resting w) = busy w text []
step-Steady (posted text) b (busy w front rest) = busy w front (rest ++ text ∷ [])
step-Steady written b (resting w) = resting w
step-Steady written b (busy w text []) = resting (w ++ text ∷ [])
step-Steady written b (busy w text (next ∷ rest)) = busy (w ++ text ∷ []) next rest
step-Steady failed b (resting w) = resting w
step-Steady failed b (busy w text rest) = resting w

run-Steady : (events : List StrandEvent) (b : Outbox) → Steady b → Steady (strand_run events b)
unfolding strand_run
run-Steady [] b s = s
run-Steady (e ∷ events) b s = run-Steady events (strand_step e b) (step-Steady e b s)

-- The texts of a history.
abbrev pub texts_of : List StrandEvent → List String
texts_of [] = []
texts_of (posted text ∷ events) = text ∷ texts_of events
texts_of (written ∷ events) = texts_of events
texts_of (failed ∷ events) = texts_of events

-- Whatever is posted and completes, from an idle outbox on: at most one write is under way, it
-- is that of the front of the queue, and one is under way exactly while a text waits.
pub run_one_write :
    (events : List StrandEvent)
    → let b = strand_run events idle_outbox in
      (length b.pending ≤ 1) × (front b.outbox ≡ b.pending) × (none_left b.outbox ≡ not b.writing)
run_one_write events = by_state _ (run-Steady events idle_outbox (resting []))
  where
    by_state :
        (b : Outbox)
        → Steady b
        → (length b.pending ≤ 1)
          × (front b.outbox ≡ b.pending)
          × (none_left b.outbox ≡ not b.writing)
    by_state b (resting w) = (omega arith, refl, refl)
    by_state b (busy w text rest) = (omega arith, refl, refl)

abbrev text_of : StrandEvent → List String
text_of (posted text) = text ∷ []
text_of written = []
text_of failed = []

abbrev all_texts : Outbox → List String
all_texts b = b.wire ++ b.outbox

step-texts :
    (e : StrandEvent) (b : Outbox)
    → Steady b
    → e ≢ failed
    → all_texts (strand_step e b) ≡ all_texts b ++ text_of e
unfolding strand_step post_text write_done do_write
step-texts (posted text) b (resting w) ok = ap (λ x. x ++ text ∷ []) (sym (append-nil w))
step-texts (posted text) b (busy w front rest) ok = sym (append_assoc w (front ∷ rest) (text ∷ []))
step-texts written b (resting w) ok = sym (append-nil (w ++ []))
step-texts written b (busy w text []) ok = refl
step-texts written b (busy w text (next ∷ rest)) ok =
    append_assoc w (text ∷ []) (next ∷ rest) ∙ sym (append-nil (w ++ text ∷ next ∷ rest))
step-texts failed b s ok = absurd (ok refl)

texts-cons :
    (e : StrandEvent) (events : List StrandEvent)
    → text_of e ++ texts_of events ≡ texts_of (e ∷ events)
texts-cons (posted text) events = refl
texts-cons written events = refl
texts-cons failed events = refl

run-texts :
    (events : List StrandEvent) (b : Outbox)
    → Steady b
    → All (λ e. e ≢ failed) events
    → all_texts (strand_run events b) ≡ all_texts b ++ texts_of events
unfolding strand_run
run-texts [] b s ok = sym (append-nil (all_texts b))
run-texts (e ∷ events) b s (fine, ok) =
    run-texts events (strand_step e b) (step-Steady e b s) ok
    ∙ ap (λ x. x ++ texts_of events) (step-texts e b s fine)
    ∙ append_assoc (all_texts b) (text_of e) (texts_of events)
    ∙ ap (λ x. all_texts b ++ x) (texts-cons e events)

-- As long as no write fails, from an idle outbox on: what was written and then what waits are
-- the posted texts, in the order in which they were posted.
pub run_in_order :
    (events : List StrandEvent)
    → All (λ e. e ≢ failed) events
    → (strand_run events idle_outbox).wire ++ (strand_run events idle_outbox).outbox
      ≡ texts_of events
run_in_order events ok = run-texts events idle_outbox (resting []) ok
