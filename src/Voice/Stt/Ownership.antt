-- ===== src/Voice/Stt/Ownership.antt =====
-- The processes that `ensure_local_stt_ready` starts, owns and ends.
use kitt_assistant.Voice.Stt.Processes.{
  inspect-IsAccounted, launch-IsAccounted, Inspected, owned_stt_worker_exit-IsAccounted,
  stop_owned_stt_worker-IsAccounted, IsAccounted,
}
use kitt_assistant.Voice.Stt.Readiness.{LocalSttProbe-cases}
use kitt_assistant.Voice.Stt.Polling.{
  poll_fuel, poll, after_unreachable, ensure_local_stt_ready, start_and_poll,
}
use kitt_assistant.Voice.Stt.{
  common_args, probe_local_stt, resolved_stt_worker_model, local_worker_endpoint,
  spawn_local_stt_worker, start_worker, VoiceConfig, inspect, owned_stt_worker_exit, Machine,
  stop_owned_stt_worker, Worker,
}
use kitt_assistant.Base.{
  ◌≡◌, inl, inr, Bool, true, false, Option, none, some, [], ℕ, zero, suc, ◌+◌, Text, leb, Result,
  ok, err, Bool-cases, Option-cases, Result-cases, if-of_true, if-of_false,
}

module _ {F : Type 0} (m : Machine) (base_url : Text) (config : VoiceConfig F) where
  start_worker-IsAccounted :
      (host : Text) (port : ℕ) (w : Worker)
      → w.child ≡ none
      → IsAccounted w
      → IsAccounted (start_worker m base_url config host port w).1
  unfolding start_worker
  start_worker-IsAccounted host port w e h =
      elim (Option-cases (resolved_stt_worker_model config m.whisper_model m.kitt_whisper_model)) [
        | inl f ↦ rw (f, start_worker) h
        | inr (model, f) ↦
            rw (f, start_worker)
              (launch-IsAccounted m m.candidates (common_args config model host port) [] w e h)
      ]

  spawn_local_stt_worker-IsAccounted :
      (w : Worker) → IsAccounted w → IsAccounted (spawn_local_stt_worker m base_url config w).1
  unfolding spawn_local_stt_worker
  spawn_local_stt_worker-IsAccounted w h =
      elim (Result-cases (local_worker_endpoint m.net base_url)) [
        | inr (x, e) ↦ rw (e, spawn_local_stt_worker) h
        | inl ((host, port), e) ↦
            let (kept, none_owned) = inspect-IsAccounted m w h in
            rw (e, spawn_local_stt_worker) (from host port (inspect m w) kept none_owned)
      ]
    where
      from :
          (host : Text) (port : ℕ) (r : Result Text (Option Bool) × Worker)
          → IsAccounted r.1
          → Inspected m r
          → IsAccounted
              (elim r.0 as (λ _. Result Text (Unit {0}) × Worker) [
                | err e ↦ (err e, r.1)
                | ok (some true) ↦ (ok tt, r.1)
                | ok (some false) ↦ start_worker m base_url config host port r.1
                | ok none ↦ start_worker m base_url config host port r.1
              ]).1
      from host port (err x, w') k i = k
      from host port (ok (some true), w') k i = k
      from host port (ok (some false), w') k i = start_worker-IsAccounted host port w' i k
      from host port (ok none, w') k i = start_worker-IsAccounted host port w' i k

  after_unreachable-IsAccounted :
      (deadline : ℕ) (w : Worker)
      → IsAccounted w
      → IsAccounted (after_unreachable m base_url config deadline w).1
  unfolding after_unreachable
  after_unreachable-IsAccounted deadline w h =
      let w' = (owned_stt_worker_exit m w).1 in
      let k : IsAccounted w' = owned_stt_worker_exit-IsAccounted m w h in
      elim (Result-cases (owned_stt_worker_exit m w).0) [
        | inr (x, e) ↦ rw (e, after_unreachable) k
        | inl (status, e) ↦ elim (Option-cases status) [
          | inr (s, f) ↦ rw (e, after_unreachable) (rw f k)
          | inl f ↦
              rw (e, after_unreachable)
                (rw f (elim (Bool-cases (leb deadline w'.now)) [
                  | inl g ↦
                      if-of_true (λ (r : Option Text × Worker). IsAccounted r.1) _ g
                        (stop_owned_stt_worker-IsAccounted w' k)
                  | inr g ↦ if-of_false (λ (r : Option Text × Worker). IsAccounted r.1) _ g k
                ]))
        ]
      ]

  poll-IsAccounted :
      (fuel deadline : ℕ) (w : Worker)
      → IsAccounted w
      → IsAccounted (poll m base_url config fuel deadline w).1
  unfolding poll probe_local_stt
  poll-IsAccounted zero deadline w h = h
  poll-IsAccounted (suc fuel) deadline w h =
      let w' = (probe_local_stt m base_url w).1 in
      let k = after_unreachable-IsAccounted deadline w' h in
      elim (LocalSttProbe-cases (probe_local_stt m base_url w).0) [
        | inl e ↦ rw (e, poll) h
        | inr (inl (d, e)) ↦ rw (e, poll) (stop_owned_stt_worker-IsAccounted w' h)
        | inr (inr (d, e)) ↦
            elim (Option-cases (after_unreachable m base_url config deadline w').0) [
              | inl f ↦
                  rw (e, poll)
                    (rw f (
                      poll-IsAccounted fuel deadline
                        (after_unreachable m base_url config deadline w').1 k))
              | inr (x, f) ↦ rw (e, poll) (rw f k)
            ]
      ]

  start_and_poll-IsAccounted :
      (w : Worker) → IsAccounted w → IsAccounted (start_and_poll m base_url config w).1
  unfolding start_and_poll
  start_and_poll-IsAccounted w h =
      let w' = (spawn_local_stt_worker m base_url config w).1 in
      let k : IsAccounted w' = spawn_local_stt_worker-IsAccounted w h in
      elim (Result-cases (spawn_local_stt_worker m base_url config w).0) [
        | inl (u, e) ↦
            rw (e, start_and_poll)
              (poll-IsAccounted (poll_fuel m base_url config) (w'.now + config.stt_start_timeout_ms)
                w' k)
        | inr (x, e) ↦ rw (e, start_and_poll) k
      ]

  -- No worker is left behind: if each process that was started is the one that is owned, or was reaped or
  -- killed, then this holds again after waiting for the worker, however that ends, and after
  -- stopping it.
  pub ensure_local_stt_ready-IsAccounted :
      (w : Worker)
      → IsAccounted w
      → IsAccounted (ensure_local_stt_ready m base_url config w).1
        × IsAccounted (stop_owned_stt_worker w)
  unfolding ensure_local_stt_ready probe_local_stt
  ensure_local_stt_ready-IsAccounted w h = (
    (let w' = (probe_local_stt m base_url w).1 in
        elim (LocalSttProbe-cases (probe_local_stt m base_url w).0) [
          | inl e ↦ rw (e, ensure_local_stt_ready) h
          | inr (inl (d, e)) ↦ rw (e, ensure_local_stt_ready) h
          | inr (inr (d, e)) ↦
              rw (e, ensure_local_stt_ready)
                (elim (Bool-cases config.stt_autostart) [
                  | inl on ↦
                      if-of_true (λ (r : Option (Result Text (Unit {0})) × Worker). IsAccounted r.1)
                        _ on (start_and_poll-IsAccounted w' h)
                  | inr off ↦
                      if-of_false
                        (λ (r : Option (Result Text (Unit {0})) × Worker). IsAccounted r.1) _ off h
                ])
        ]),
    stop_owned_stt_worker-IsAccounted w h,
  )
