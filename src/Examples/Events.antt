-- ===== src/Examples/Events.antt =====
-- The dispatcher's theorem on three crashes of the web service, with a start between them.
use elnssm.Common.{pos, List, [], ◌∷◌, lookup}
use elnssm.Notify.Dispatcher.{Dispatcher}
use elnssm.Notify.Cooldown.{Arrival, sent, IsSpaced, sent-IsSpaced}

abbrev dispatcher : Dispatcher
dispatcher = record { cooldowns = []; cooldown_duration = pos 300 }

abbrev crashes : List Arrival
crashes =
    record { now = 10; finished = 12; key = "web:service_crashed" }
    ∷ record { now = 20; finished = 21; key = "web:service_started" }
    ∷ record { now = 30; finished = 31; key = "web:service_crashed" }
    ∷ record { now = 400; finished = 401; key = "web:service_crashed" }
    ∷ []

sent-IsSpaced_example :
    IsSpaced
      (pos 300)
      (lookup "web:service_crashed" dispatcher.cooldowns)
      (sent "web:service_crashed" crashes dispatcher)
sent-IsSpaced_example = sent-IsSpaced "web:service_crashed" crashes dispatcher
