-- ===== src/Examples/Log.antt =====
-- A query of the event log.
use elnssm.Common.{pos, none, some, List, [], ◌∷◌, Option, filter, ◌≡◌, arith}
use elnssm.Model.{Event, EventType}
use elnssm.Store.Events.{EventFilter, list_events, decoded, up_to, fits, list_events_exact}

abbrev event_log : List (Option Event)
event_log =
    some (record {
      id = "3";
      type = EventType.service_started;
      service_id = "web";
      timestamp = 30;
      message = "";
    })
    ∷ none
    ∷ some (record {
      id = "2";
      type = EventType.service_crashed;
      service_id = "web";
      timestamp = 20;
      message = "";
    })
    ∷ some (record {
      id = "1";
      type = EventType.service_started;
      service_id = "web";
      timestamp = 10;
      message = "";
    })
    ∷ []

abbrev recent : EventFilter
recent = record { service_id = some "web"; type = none; since = some 15; limit = pos 5 }

list_events_exact_example :
    list_events recent 0 event_log ≡ up_to (pos 5) 0 (filter (fits recent) (decoded event_log))
list_events_exact_example = list_events_exact recent event_log (omega arith)
