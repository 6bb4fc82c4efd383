-- ===== src/Daemon/Connections/Tests.antt =====
-- Two clients where one may be served.
use kitt_assistant.Base.{none, arith}
use kitt_assistant.Daemon.Connections.{
  Reaches, IsCounted, Reaches-IsCounted, no_connections, counted, refused, started, here, then_step,
}

-- The second is refused.
one_of_two : Reaches 1 no_connections (record { active = 1; handlers = 1; previous = none })
one_of_two =
    then_step
      (then_step
        (then_step (then_step (here no_connections) (counted 0 0)) (started 1 0 0 (omega arith)))
        (counted 1 1))
      (refused 1 1 1 (omega arith))

Reaches-IsCounted_example : IsCounted 1 (record { active = 1; handlers = 1; previous = none })
Reaches-IsCounted_example = Reaches-IsCounted 1 one_of_two
