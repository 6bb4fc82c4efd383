-- ===== src/Voice/Stt/Processes.antt =====
-- Which processes the daemon owns or has ended, while it inspects, starts and stops one.
use kitt_assistant.Voice.Stt.{
  other, not_found, asked, SpawnError, inspect, launch, owned_stt_worker_exit, Machine,
  stop_owned_stt_worker, Worker,
}
use kitt_assistant.Base.{
  refl, ◌≡◌, ◌⊎◌, inl, inr, Bool, false, Option, none, some, List, [], ◌∷◌, ◌++◌, ℕ, arith, Text,
  Result, ok, All, codes, Option-cases, Result-cases,
}

-- A number is in a list.
abbrev pub Has : ℕ → List ℕ → Type 0
Has p [] = ⊥
Has p (x ∷ xs) = (p ≡ x) ⊎ Has p xs

-- Each process that was started is the one that is owned, or was reaped or killed.
abbrev pub IsAccounted : Worker → Type 0
IsAccounted w = All (λ p. (w.child ≡ some p) ⊎ Has p w.ended) w.started

All-map {ℓ} :
    {A : Type 0} (P Q : A → Type ℓ) (f : (a : A) → P a → Q a) (xs : List A) → All P xs → All Q xs
All-map P Q f [] h = tt
All-map P Q f (x ∷ xs) (p, h) = (f x p, All-map P Q f xs h)

-- The owned process ends: it moves to those that ended.
released :
    (pid : ℕ) (child : Option ℕ) (ended started : List ℕ)
    → child ≡ some pid
    → All (λ p. (child ≡ some p) ⊎ Has p ended) started
    → All (λ p. (◌≡◌ {A = Option ℕ} none (some p)) ⊎ Has p (pid ∷ ended)) started
released pid child ended started e h =
    All-map _ _ (λ p k. elim k [ inl owned ↦ inr (inl (ground arith)) | inr gone ↦ inr (inr gone) ])
      started h

-- A new process is owned, where none was.
acquired :
    (pid : ℕ) (child : Option ℕ) (ended started : List ℕ)
    → child ≡ none
    → All (λ p. (child ≡ some p) ⊎ Has p ended) started
    → All (λ p. (some pid ≡ some p) ⊎ Has p ended) (pid ∷ started)
acquired pid child ended started e h = (
  inl refl,
  All-map _ _ (λ p k. elim k [ inl owned ↦ absurd (ground arith) | inr gone ↦ inr gone ]) started h,
)

pub stop_owned_stt_worker-IsAccounted :
    (w : Worker) → IsAccounted w → IsAccounted (stop_owned_stt_worker w)
unfolding stop_owned_stt_worker
stop_owned_stt_worker-IsAccounted w h = elim (Option-cases w.child) [
  | inl e ↦ rw (e, stop_owned_stt_worker) h
  | inr (pid, e) ↦ rw (e, stop_owned_stt_worker) (released pid w.child w.ended w.started e h)
]

SpawnError-cases : (x : SpawnError) → (x ≡ not_found) ⊎ ((t : Text) × (x ≡ other t))
SpawnError-cases not_found = inl refl
SpawnError-cases (other t) = inr (t, refl)

module _ (m : Machine) where
  pub owned_stt_worker_exit-IsAccounted :
      (w : Worker) → IsAccounted w → IsAccounted (owned_stt_worker_exit m w).1
  unfolding owned_stt_worker_exit
  owned_stt_worker_exit-IsAccounted w h = elim (Option-cases w.child) [
    | inl e ↦ rw (e, owned_stt_worker_exit) h
    | inr (pid, e) ↦ elim (Result-cases (m.try_wait w.tick pid)) [
      | inr (x, f) ↦ rw (e, owned_stt_worker_exit) (rw f h)
      | inl (status, f) ↦ elim (Option-cases status) [
        | inl g ↦ rw (e, owned_stt_worker_exit) (rw f (rw g h))
        | inr (s, g) ↦
            rw (e, owned_stt_worker_exit) (rw f (rw g (released pid w.child w.ended w.started e h)))
      ]
    ]
  ]

  -- After an inspection that leaves no running process, none is owned.
  abbrev pub Inspected : Result Text (Option Bool) × Worker → Type 0
  Inspected (ok none, w) = w.child ≡ none
  Inspected (ok (some false), w) = w.child ≡ none
  Inspected (_, w) = Unit

  pub inspect-IsAccounted :
      (w : Worker) → IsAccounted w → IsAccounted (inspect m w).1 × Inspected (inspect m w)
  unfolding inspect
  inspect-IsAccounted w h = elim (Option-cases w.child) [
    | inl e ↦ rw (e, inspect) (h, e)
    | inr (pid, e) ↦ elim (Result-cases (m.try_wait w.tick pid)) [
      | inr (x, f) ↦ rw (e, inspect) (rw f (h, tt))
      | inl (status, f) ↦ elim (Option-cases status) [
        | inl g ↦ rw (e, inspect) (rw f (rw g (h, tt)))
        | inr (s, g) ↦
            rw (e, inspect) (rw f (rw g (released pid w.child w.ended w.started e h, refl)))
      ]
    ]
  ]

  pub launch-IsAccounted :
      (candidates : List (Text × List Text)) (args failures : List Text) (w : Worker)
      → w.child ≡ none
      → IsAccounted w
      → IsAccounted (launch m candidates args failures w).1
  unfolding launch
  launch-IsAccounted [] args failures w e h = h
  launch-IsAccounted ((program, prefix) ∷ rest) args failures w e h =
      elim (Result-cases (m.spawn w.tick program (prefix ++ args))) [
        | inl (pid, f) ↦ rw (f, launch) (acquired pid w.child w.ended w.started e h)
        | inr (x, f) ↦ elim (SpawnError-cases x) [
          | inl g ↦
              rw (f, launch)
                (rw g (
                  launch-IsAccounted rest args (failures ++ ((program ++ codes ": not found") ∷ []))
                    (asked m w) e h))
          | inr (t, g) ↦
              rw (f, launch)
                (rw g (
                  launch-IsAccounted rest args (failures ++ ((program ++ codes ": " ++ t) ∷ []))
                    (asked m w) e h))
        ]
      ]
