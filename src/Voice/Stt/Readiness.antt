-- ===== src/Voice/Stt/Readiness.antt =====
-- `ensure_local_stt_ready`: whether it ends, and what its success means.
use kitt_assistant.Voice.Stt.Polling.{
  poll_fuel, start_and_poll, ensure_local_stt_ready, poll, after_unreachable,
}
use kitt_assistant.ControlCenter.Json.{Json, and_then, get, as_bool}
use kitt_assistant.Voice.Stt.{
  judge_body, Health, is_true, stt_health_url, spawn_local_stt_worker, judge, LocalSttProbe,
  poll_interval, probe_local_stt, owned_stt_worker_exit, VoiceConfig, Machine, Worker,
}
use kitt_assistant.Base.{
  if◌then◌else◌, ap, Bool, true, false, codes, ◌&&◌, refl, ◌≡◌, ◌≢◌, ◌⊎◌, inl, inr, Option, none,
  some, ℕ, zero, suc, ◌+◌, ◌*◌, ◌/◌, ◌≤◌, ◌<◌, arith, Text, Result, ok, Bool-cases, Option-cases,
  Result-cases, if-of_true, if-of_false,
}

-- The fuel was enough.
abbrev pub Ends : Option (Result Text (Unit {0})) × Worker → Type 0
Ends (o, w) = o ≢ none

pub LocalSttProbe-cases :
    (p : LocalSttProbe)
    → (p ≡ LocalSttProbe.ready)
      ⊎ ((d : Text) × (p ≡ LocalSttProbe.degraded d))
      ⊎ ((d : Text) × (p ≡ LocalSttProbe.unreachable d))
LocalSttProbe-cases LocalSttProbe.ready = inl refl
LocalSttProbe-cases (LocalSttProbe.degraded d) = inr (inl (d, refl))
LocalSttProbe-cases (LocalSttProbe.unreachable d) = inr (inr (d, refl))

module _ {F : Type 0} (m : Machine) (base_url : Text) (config : VoiceConfig F) where
  probe-now : (w : Worker) → w.now ≤ (probe_local_stt m base_url w).1.now
  unfolding probe_local_stt
  probe-now w = omega arith

  exit-now : (w : Worker) → w.now ≤ (owned_stt_worker_exit m w).1.now
  unfolding owned_stt_worker_exit
  exit-now w = ground arith

  -- A round that does not end the loop came before the deadline, and slept.
  round-now :
      (deadline : ℕ) (w : Worker)
      → (after_unreachable m base_url config deadline w).0 ≡ none
      → (w.now < deadline)
        × (w.now + poll_interval ≤ (after_unreachable m base_url config deadline w).1.now)
  unfolding after_unreachable
  round-now deadline w e = ground (arith, exit-now w)

  poll-Ends :
      (fuel deadline : ℕ) (w : Worker)
      → deadline ≤ w.now + poll_interval * fuel
      → Ends (poll m base_url config (suc fuel) deadline w)
  unfolding poll
  poll-Ends zero deadline w h =
      ground (arith, probe-now w, round-now deadline (probe_local_stt m base_url w).1)
  poll-Ends (suc fuel) deadline w h =
      let w' = (probe_local_stt m base_url w).1 in
      ground (
        arith,
        probe-now w,
        round-now deadline w',
        poll-Ends fuel deadline (after_unreachable m base_url config deadline w').1,
      )

  start_and_poll-Ends : (w : Worker) → Ends (start_and_poll m base_url config w)
  unfolding start_and_poll
  start_and_poll-Ends w =
      let w' = (spawn_local_stt_worker m base_url config w).1 in
      ground (
        arith,
        poll-Ends (config.stt_start_timeout_ms / poll_interval + 1)
            (w'.now + config.stt_start_timeout_ms) w',
      )

  -- However long the worker takes to answer, and whatever it answers, waiting for it comes to an end: the
  -- rounds that the timeout allows are never used up, since each of them sleeps.
  pub ensure_local_stt_ready-Ends : (w : Worker) → Ends (ensure_local_stt_ready m base_url config w)
  unfolding ensure_local_stt_ready
  ensure_local_stt_ready-Ends w =
      ground (arith, start_and_poll-Ends (probe_local_stt m base_url w).1)

  -- The last question was a probe, whose answer was a success with a JSON body where `ready` is true.
  abbrev pub SaidReady : Worker → Type 0
  SaidReady w =
      (t : ℕ) × (w.tick ≡ suc t)
      × ((status body : Text) × (json : Json) × (m.health t (stt_health_url base_url)
            ≡ Health.page true status body)
          × (m.from_slice body ≡ ok json)
          × (and_then (get (codes "ready") json) as_bool ≡ some true))

  -- A success is told after such a probe.
  abbrev pub MeansReady : Option (Result Text (Unit {0})) × Worker → Type 0
  MeansReady (some (ok _), w) = SaidReady w
  MeansReady _ = Unit

  is_true-some : (o : Option Bool) → is_true o ≡ true → o ≡ some true
  is_true-some none e = cc
  is_true-some (some false) e = cc
  is_true-some (some true) e = refl

  says_ready :
      (success : Bool) (o : Option Bool) (d : Text)
      → (if success && is_true o then LocalSttProbe.ready else LocalSttProbe.degraded d)
        ≡ LocalSttProbe.ready
      → (success ≡ true) × (o ≡ some true)
  says_ready success none d h = ground arith
  says_ready success (some b) d h = ground arith

  judged_ready :
      (answer : Health)
      → judge m answer ≡ LocalSttProbe.ready
      → (status body : Text) × (json : Json) × (answer ≡ Health.page true status body)
        × (m.from_slice body ≡ ok json)
        × (and_then (get (codes "ready") json) as_bool ≡ some true)
  unfolding judge judge_body
  judged_ready (Health.no_answer e) h = cc
  judged_ready (Health.broken_body e) h = cc
  judged_ready (Health.page success status body) h = elim (Result-cases (m.from_slice body)) [
    | inr (x, e) ↦ ground arith
    | inl (json, e) ↦
        let (succeeded, ready_said) =
          says_ready success (and_then (get (codes "ready") json) as_bool) _ (rw e at h) in
        (status, body, json, ap (λ b. Health.page b status body) succeeded, e, ready_said)
  ]

  probe-SaidReady :
      (w : Worker)
      → (probe_local_stt m base_url w).0 ≡ LocalSttProbe.ready
      → SaidReady (probe_local_stt m base_url w).1
  unfolding probe_local_stt
  probe-SaidReady w e = (w.tick, refl, judged_ready (m.health w.tick (stt_health_url base_url)) e)

  poll-MeansReady :
      (fuel deadline : ℕ) (w : Worker) → MeansReady (poll m base_url config fuel deadline w)
  unfolding poll
  poll-MeansReady zero deadline w = tt
  poll-MeansReady (suc fuel) deadline w =
      let w' = (probe_local_stt m base_url w).1 in
      elim (LocalSttProbe-cases (probe_local_stt m base_url w).0) [
        | inl e ↦ rw (e, poll) (probe-SaidReady w e)
        | inr (inl (d, e)) ↦ rw (e, poll) tt
        | inr (inr (d, e)) ↦
            elim (Option-cases (after_unreachable m base_url config deadline w').0) [
              | inl f ↦
                  rw (e, poll)
                    (rw f (
                      poll-MeansReady fuel deadline
                        (after_unreachable m base_url config deadline w').1))
              | inr (x, f) ↦ rw (e, poll) (rw f tt)
            ]
      ]

  start_and_poll-MeansReady : (w : Worker) → MeansReady (start_and_poll m base_url config w)
  unfolding start_and_poll
  start_and_poll-MeansReady w =
      let w' = (spawn_local_stt_worker m base_url config w).1 in
      elim (Result-cases (spawn_local_stt_worker m base_url config w).0) [
        | inl (u, e) ↦
            rw (e, start_and_poll)
              (poll-MeansReady (poll_fuel m base_url config) (w'.now + config.stt_start_timeout_ms)
                w')
        | inr (x, e) ↦ rw (e, start_and_poll) tt
      ]

  -- Where waiting for the worker succeeds, its last question was a probe whose answer was a success with a
  -- body that says `ready`.
  pub ensure_local_stt_ready-MeansReady :
      (w : Worker) → MeansReady (ensure_local_stt_ready m base_url config w)
  unfolding ensure_local_stt_ready
  ensure_local_stt_ready-MeansReady w =
      let w' = (probe_local_stt m base_url w).1 in
      elim (LocalSttProbe-cases (probe_local_stt m base_url w).0) [
        | inl e ↦ rw (e, ensure_local_stt_ready) (probe-SaidReady w e)
        | inr (inl (d, e)) ↦ rw (e, ensure_local_stt_ready) tt
        | inr (inr (d, e)) ↦
            rw (e, ensure_local_stt_ready)
              (elim (Bool-cases config.stt_autostart) [
                | inl on ↦ if-of_true MeansReady _ on (start_and_poll-MeansReady w')
                | inr off ↦ if-of_false MeansReady _ off tt
              ])
      ]
