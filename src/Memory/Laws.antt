-- ===== src/Memory/Laws.antt =====
-- The memory port hands a model only records that the egress policy allows.
use kitt_assistant.Base.{
  refl, Keeps, retain-Keeps, ◌≡◌, true, Bool, List, Text, Result, ok, err, All, All-retain, retain,
  arith, map_err, ◌>>=◌, subst, String,
}
use kitt_assistant.Domain.{AssistantError, History}
use kitt_assistant.Memory.{recall_query, AssistantMemory, is_allowed, recall_for_model}

-- What recalling makes of the store's answer: its error under the memory tag, or those of its records
-- that the policy allows for this provider, in their order.
abbrev pub Recalls :
    {R : Type 0}
    → AssistantMemory R
    → Bool
    → Result String (List R)
    → Result AssistantError (List R)
    → Type 0
Recalls m is_local (err e) answer = answer ≡ err (AssistantError.memory e)
Recalls m is_local (ok found) answer =
    (rows : List _) × (answer ≡ ok rows) × Keeps (λ r. is_allowed m is_local r ≡ true) found rows

pub recall_for_model-All_allowed :
    {R : Type 0} (m : AssistantMemory R) (h : History) (query : Text) (is_local : Bool)
    (rows : List R)
    → recall_for_model m h query is_local ≡ ok rows
    → All (λ r. is_allowed m is_local r ≡ true) rows
unfolding recall_for_model
recall_for_model-All_allowed m h query is_local rows e =
    go (m.store.recall h (recall_query m query is_local)) e
  where
    go :
        (found : Result String (List _))
        → (do
          kept_rows ← map_err AssistantError.memory found
          ok (retain (is_allowed m is_local) kept_rows))
          ≡ ok rows
        → All (λ r. is_allowed m is_local r ≡ true) rows
    go (ok found) p =
        subst (All (λ r. is_allowed m is_local r ≡ true)) (ground arith)
          (All-retain (is_allowed m is_local) found)
    go (err x) p = cc

-- Recalling for a provider asks the store once, for at most six records of the assistant's namespace,
-- private and secret ones only where the provider is local, and answers with exactly those
-- of them that the policy allows; where the store fails, with its error.
recall_for_model-Recalls :
    {R : Type 0} (m : AssistantMemory R) (h : History) (query : Text) (is_local : Bool)
    → Recalls m is_local
        (m.store.recall h (recall_query m query is_local))
        (recall_for_model m h query is_local)
unfolding recall_for_model
recall_for_model-Recalls m h query is_local = go (m.store.recall h (recall_query m query is_local))
  where
    go :
        (found : Result String (List _))
        → Recalls m is_local found (do
          rows ← map_err AssistantError.memory found
          ok (retain (is_allowed m is_local) rows))
    go (ok found) =
        (retain (is_allowed m is_local) found, refl, retain-Keeps (is_allowed m is_local) found)
    go (err x) = refl
