-- ===== src/Daemon/Broadcaster/Delivery.antt =====
-- The number of followers of the broadcaster, and what an event and a later subscription leave.
use kitt_assistant.Daemon.Broadcaster.{
  acknowledge, new_broadcaster, max_hud_subscribers, failed_ids, HudBroadcaster, send, subscribe,
  Sockets,
}
use kitt_assistant.Base.{
  refuse_if-eq-ok, length-retain-le, length-append, ◌≡◌, ◌≢◌, inl, inr, Bool, false, not, ◌&&◌,
  Option, none, some, List, [], ◌∷◌, ℕ, ◌≤◌, ◌<◌, arith, Text, leb, ◌==◌, Result, ok, refuse_if,
  length, any, All, codes, Result-cases, >>=-eq-ok,
}

pub data Act (S : Type 0) : Type 0 where
  joins : S → Result Text Text → Act S
  event : Option Text → Act S

module _ {S : Type 0} (sockets : Sockets S) where
  open sockets use {can_clone, write_all}

  abbrev pub act : Act S → HudBroadcaster S → HudBroadcaster S
  act (joins stream ack) b = (subscribe sockets b stream ack).1
  act (event encoded) b = send sockets b encoded

  unfoldable pub acts : List (Act S) → HudBroadcaster S → HudBroadcaster S
  acts [] b = b
  acts (a ∷ rest) b = acts rest (act a b)

  acknowledge_room :
      (b : HudBroadcaster S) (stream : S) (ack : Result Text Text) {u : Unit {0}}
      → acknowledge sockets b stream ack ≡ ok u
      → length b.clients < max_hud_subscribers
  unfolding acknowledge
  acknowledge_room b stream ack e =
      let full = leb max_hud_subscribers (length b.clients) in
      let why = codes "HUD subscriber limit reached" in
      let (v, room, e₁) = >>=-eq-ok (refuse_if full why) _ e in
      let not_full : full ≡ false = refuse_if-eq-ok full why room in ground arith

  subscribe_bound :
      (b : HudBroadcaster S) (stream : S) (ack : Result Text Text)
      → length b.clients ≤ max_hud_subscribers
      → length (subscribe sockets b stream ack).1.clients ≤ max_hud_subscribers
  unfolding subscribe
  subscribe_bound b stream ack h = elim (Result-cases (acknowledge sockets b stream ack)) [
    | inr (x, e) ↦ rw (e, subscribe) h
    | inl (u, e) ↦
        rw (e, subscribe)
          (omega (
            arith,
            acknowledge_room b stream ack e,
            length-append b.clients ((b.next_client_id, stream) ∷ []),
          ))
  ]

  send_bound :
      (b : HudBroadcaster S) (encoded : Option Text)
      → length b.clients ≤ max_hud_subscribers
      → length (send sockets b encoded).clients ≤ max_hud_subscribers
  unfolding send
  send_bound b none h = h
  send_bound b (some line) h = omega (
    arith,
    length-retain-le (λ c. not (any (λ id. id == c.0) (failed_ids sockets line b.clients)))
        b.clients,
  )

  -- Whatever is added to a broadcaster, and whatever its followers do, at most eight follow it.
  acts_bound :
      (steps : List (Act S)) (b : HudBroadcaster S)
      → length b.clients ≤ max_hud_subscribers
      → length (acts steps b).clients ≤ max_hud_subscribers
  unfolding acts
  acts_bound [] b h = h
  acts_bound (joins stream ack ∷ steps) b h =
      acts_bound steps (subscribe sockets b stream ack).1 (subscribe_bound b stream ack h)
  acts_bound (event encoded ∷ steps) b h =
      acts_bound steps (send sockets b encoded) (send_bound b encoded h)

  -- After any subscriptions and events from the start, at most eight clients follow the daemon.
  acts-new_broadcaster-le :
      (steps : List (Act S)) → length (acts steps new_broadcaster).clients ≤ max_hud_subscribers
  acts-new_broadcaster-le steps = acts_bound steps new_broadcaster (omega arith)

  -- The line could not be written to the client.
  abbrev pub has_lost : Text → ℕ × S → Bool
  has_lost line c = can_clone c.1 && not (write_all c.1 line)

  -- No two clients have the same id.
  abbrev pub IsDistinct : List (ℕ × S) → Type 0
  IsDistinct [] = Unit
  IsDistinct (c ∷ rest) = All (λ d. d.0 ≢ c.0) rest × IsDistinct rest
