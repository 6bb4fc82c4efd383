-- ===== src/Daemon/Broadcaster.antt =====
-- `HudBroadcaster`: the windows that follow the daemon's events. Its locks are not poisoned; a step runs
-- alone on the list of clients.
pub mod Delivery
mod Tests
use kitt_assistant.Base.{
  retain, refl, ◌≡◌, ◌≢◌, ◌↔◌, ◌⊎◌, inl, inr, sym, ap, subst, ◌∙◌, Bool, true, false, not, ◌&&◌,
  ◌||◌, Option, none, some, List, [], ◌∷◌, ◌++◌, map, reverse, ℕ, zero, suc, ◌+◌, ◌-◌, ◌*◌, ◌/◌,
  ◌%◌, ◌^◌, ◌≤◌, ◌<◌, min, max, arith, String, Text, ltb, leb, ◌==◌, if◌then◌else◌, Result, ok, err,
  ◌>>=◌, ◌>>◌, refuse_if, ok_or, map_err, length, take, drop, all, any, All, codes, bytes, text_eq,
  text_eq_iff, is_empty, starts_with, Bool-cases, Option-cases, Result-cases, if-of_true,
  if-of_false, and-true, >>=-eq-ok,
}

-- `MAX_HUD_SUBSCRIBERS`
abbrev pub max_hud_subscribers : ℕ
max_hud_subscribers = 8

-- The sockets `S` of the operating system: whether a handle can be copied, and whether writing a line to
-- one succeeds.
pub record Sockets (S : Type 0) : Type 0 where
  pub can_clone : S → Bool
  pub write_all : S → Text → Bool

pub record HudBroadcaster (S : Type 0) : Type 0 where
  pub clients : List (ℕ × S)
  pub last_event : Option Text
  pub next_client_id : ℕ

-- `HudBroadcaster::new`
abbrev pub new_broadcaster : {S : Type 0} → HudBroadcaster S
new_broadcaster = record { clients = []; last_event = none; next_client_id = 1 }

abbrev pub write_error : Text
write_error = codes "write failed"

module _ {S : Type 0} (sockets : Sockets S) where
  open sockets use {can_clone, write_all}

  abbrev pub write : S → Text → Result Text (Unit {0})
  write stream line = if write_all stream line then ok tt else err write_error

  -- Writing the last event, where there is one.
  abbrev pub write_last : S → Option Text → Result Text (Unit {0})
  write_last stream none = ok tt
  write_last stream (some line) = write stream line

  -- `subscribe` up to the new entry; `ack` is the encoded answer, or the encoder's error.
  unfoldable pub acknowledge : HudBroadcaster S → S → Result Text Text → Result Text (Unit {0})
  acknowledge b stream ack = do
    refuse_if (leb max_hud_subscribers (length b.clients)) (codes "HUD subscriber limit reached")
    line ← ack
    write stream line
    write_last stream b.last_event

  -- The lines that a subscription writes, newest first: the acknowledgement and the last event. No limit
  -- applies to them.
  unfoldable pub last_written : S → Option Text → List Text
  last_written stream none = []
  last_written stream (some line) = if write_all stream line then line ∷ [] else []

  unfoldable pub greeting : HudBroadcaster S → S → Result Text Text → List Text
  greeting b stream (err e) = []
  greeting b stream (ok line) =
      if leb max_hud_subscribers (length b.clients)
      then []
      else if write_all stream line
      then last_written stream b.last_event ++ (line ∷ [])
      else []

  unfoldable pub subscribe :
      HudBroadcaster S → S → Result Text Text → Result Text (Unit {0}) × HudBroadcaster S
  subscribe b stream ack = elim (acknowledge b stream ack) [
    | err e ↦ (err e, b)
    | ok _ ↦ (
      ok tt,
      record b {
        clients = b.clients ++ ((b.next_client_id, stream) ∷ []);
        next_client_id = (b.next_client_id + 1) % 2 ^ 64;
      },
    )
  ]

  -- The loop over the copied handles: the ids whose write failed.
  unfoldable pub failed_ids : Text → List (ℕ × S) → List ℕ
  failed_ids line [] = []
  failed_ids line ((id, stream) ∷ rest) =
      let later = failed_ids line rest in
      if can_clone stream && not (write_all stream line) then id ∷ later else later

  -- `send`; `encoded` is the event's line, if it can be encoded.
  unfoldable pub send : HudBroadcaster S → Option Text → HudBroadcaster S
  send b none = b
  send b (some line) =
      let failed = failed_ids line b.clients in
      record b {
        last_event = some line;
        clients = retain (λ c. not (any (λ id. id == c.0) failed)) b.clients;
      }
