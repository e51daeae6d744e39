-- ===== src/Server/Outbox/Tests.antt =====
-- The outbox on a small history: two texts, and the first is written.
use p2p_desktop_share_new.Base.{◌≤◌, not, List, [], ◌∷◌, ◌++◌, length, ◌≡◌}
use p2p_desktop_share_new.Server.Outbox.{
  StrandEvent, posted, written, idle_outbox, none_left, front, strand_run,
}
use p2p_desktop_share_new.Server.Outbox.Order.{texts_of, run_one_write, run_in_order}

abbrev two_texts : List StrandEvent
two_texts = posted "a" ∷ posted "b" ∷ written ∷ []

run_one_write_example :
    let b = strand_run two_texts idle_outbox in
    (length b.pending ≤ 1) × (front b.outbox ≡ b.pending) × (none_left b.outbox ≡ not b.writing)
run_one_write_example = run_one_write two_texts

run_in_order_example :
    (strand_run two_texts idle_outbox).wire ++ (strand_run two_texts idle_outbox).outbox
    ≡ texts_of two_texts
run_in_order_example = run_in_order two_texts ((λ e. cc), ((λ e. cc), ((λ e. cc), tt)))
