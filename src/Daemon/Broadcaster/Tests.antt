-- ===== src/Daemon/Broadcaster/Tests.antt =====
-- Two followers, of which one no longer takes a line.
use kitt_assistant.Daemon.Broadcaster.Delivery.{event, joins, Act}
use kitt_assistant.Daemon.Broadcaster.{failed_ids, send, HudBroadcaster, Sockets}
use kitt_assistant.Base.{
  retain, refl, ◌≡◌, true, not, none, some, List, [], ◌∷◌, ℕ, ◌==◌, ok, codes,
}

-- The socket 2 is closed.
abbrev two_sockets : Sockets ℕ
two_sockets = record { can_clone = λ s. true; write_all = λ s line. not (s == 2) }

abbrev followed : HudBroadcaster ℕ
followed = record { clients = (1, 1) ∷ (2, 2) ∷ []; last_event = none; next_client_id = 3 }

drops_the_closed : (send two_sockets followed (some (codes "oi"))).clients ≡ (1, 1) ∷ []
unfolding send failed_ids retain
drops_the_closed = refl

abbrev joined : List (Act ℕ)
joined = joins 1 (ok (codes "ack")) ∷ event (some (codes "oi")) ∷ joins 2 (ok (codes "ack")) ∷ []
