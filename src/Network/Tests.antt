-- ===== src/Network/Tests.antt =====
-- Dotted addresses on small examples.
use p2p_desktop_share_new.Base.{some, [], ◌∷◌, ◌≡◌, arith}
use p2p_desktop_share_new.Network.Ipv4.{parse_ipv4, dotted}
use p2p_desktop_share_new.Network.Ipv4.RoundTrip.{parse_ipv4-dotted}

parse_ipv4-dotted_example : parse_ipv4 (dotted 192 168 1 20) ≡ some (192 ∷ 168 ∷ 1 ∷ 20 ∷ [])
parse_ipv4-dotted_example =
    parse_ipv4-dotted 192 168 1 20 (omega arith) (omega arith) (omega arith) (omega arith)
