-- ===== src/Daemon/Connections.antt =====
-- The count of connections that the accept loops of apps/kittd/src/main.rs and
-- apps/kittd/src/settings_web.rs keep, in the interleaving of the accepting thread with the
-- threads that serve clients. Each step is one operation on the atomic counter.
mod Tests
use kitt_assistant.Base.{
  refl, ◌≡◌, ◌≢◌, ◌↔◌, ◌⊎◌, inl, inr, sym, ap, subst, ◌∙◌, Bool, true, false, not, ◌&&◌, ◌||◌,
  Option, none, some, List, [], ◌∷◌, ◌++◌, map, reverse, ℕ, zero, suc, ◌+◌, ◌-◌, ◌*◌, ◌/◌, ◌%◌, ◌^◌,
  ◌≤◌, ◌<◌, min, max, arith, String, Text, ltb, leb, ◌==◌, if◌then◌else◌, Result, ok, err, ◌>>=◌,
  ◌>>◌, refuse_if, ok_or, map_err, length, take, drop, all, any, All, codes, bytes, text_eq,
  text_eq_iff, is_empty, starts_with, Bool-cases, Option-cases, Result-cases, if-of_true,
  if-of_false, and-true, decimal, trim, to_ascii_lowercase, is_blank, join, ok_or-eq-ok, retain,
  strip_prefix, texts_eq, >>=-eq-ok,
}

-- `handlers` are the threads that have been started and whose guard has not been dropped; `previous` is
-- what the accepting thread has read for a connection that it has counted and not yet judged.
pub record Counter : Type 0 where
  pub active : ℕ
  pub handlers : ℕ
  pub previous : Option ℕ

-- At the start of the daemon.
abbrev pub no_connections : Counter
no_connections = record { active = 0; handlers = 0; previous = none }

module _ (max_connections : ℕ) where
  -- `fetch_add`; the refusal with its `fetch_sub`, or the start of a thread; and the drop of a guard.
  pub data Step : Counter → Counter → Type 0 where
    counted :
        (active handlers : ℕ)
        → Step
            (record { active = active; handlers = handlers; previous = none })
            (record { active = suc active; handlers = handlers; previous = some active })
    refused :
        (active handlers before : ℕ)
        → max_connections ≤ before
        → Step
            (record { active = suc active; handlers = handlers; previous = some before })
            (record { active = active; handlers = handlers; previous = none })
    started :
        (active handlers before : ℕ)
        → before < max_connections
        → Step
            (record { active = active; handlers = handlers; previous = some before })
            (record { active = active; handlers = suc handlers; previous = none })
    finished :
        (active handlers : ℕ) (previous : Option ℕ)
        → Step
            (record { active = suc active; handlers = suc handlers; previous = previous })
            (record { active = active; handlers = handlers; previous = previous })

  -- What any number of steps leads to.
  pub data Reaches : Counter → Counter → Type 0 where
    here : (c : Counter) → Reaches c c
    then_step : {c d e : Counter} → Reaches c d → Step d e → Reaches c e

  -- The counter is exact but for the connection that is being judged, which was read when no more
  -- threads were running than now.
  abbrev pub Judged : ℕ → ℕ → Option ℕ → Type 0
  Judged active handlers none = active ≡ handlers
  Judged active handlers (some before) = (active ≡ suc handlers) × (handlers ≤ before)

  abbrev pub IsCounted : Counter → Type 0
  IsCounted c = (c.handlers ≤ max_connections) × Judged c.active c.handlers c.previous

  Step-IsCounted : {c d : Counter} → Step c d → IsCounted c → IsCounted d
  Step-IsCounted (counted active handlers) (h, e) = (h, (ground arith, ground arith))
  Step-IsCounted (refused active handlers before full) (h, (e, le)) = (h, ground arith)
  Step-IsCounted (started active handlers before free) (h, (e, le)) = (ground arith, e)
  Step-IsCounted (finished active handlers none) (h, e) = (ground arith, ground arith)
  Step-IsCounted (finished active handlers (some before)) (h, (e, le)) =
      (ground arith, (ground arith, ground arith))

  -- However the accepting thread and those that serve clients interleave, never more than the largest number
  -- of them serve at once; and the counter is their number, plus one while a connection is judged.
  pub Reaches-IsCounted : {c : Counter} → Reaches no_connections c → IsCounted c
  Reaches-IsCounted steps = go steps (omega arith, refl)
    where
      go : {c d : Counter} → Reaches c d → IsCounted c → IsCounted d
      go (here c) h = h
      go (then_step steps step) h = Step-IsCounted step (go steps h)
