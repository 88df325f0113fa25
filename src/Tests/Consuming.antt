-- ===== src/Tests/Consuming.antt =====
-- Runs of the worker.
use go_commerce.Base.{refl, true, false, none, some, [], ◌∷◌, arith}
use go_commerce.Base.Text.{text_eq}
use go_commerce.Domain.Order.{pending_payment, is_status}
use go_commerce.Store.Rows.{enqueue}
use go_commerce.Orders.Change.{insert_payment}
use go_commerce.Workers.Audit.{Sinks, unsent, unheard, is_recorded, ensure_indexes, handle_audit}
use go_commerce.Workers.Recorded.{
  Handled, Absorbed, is_answered, acknowledged_is_kept, redelivery_adds_nothing,
}
use go_commerce.Workers.Dispatch.{fetched, Loop, turn}
use go_commerce.Workers.Committed.{wired, Past, committed_is_handled}
use go_commerce.Tests.{env, shop, created_message}

abbrev sinks : Sinks
sinks = record {
  documents = [];
  dead_letters = [];
  is_unique = false;
  replies = unheard ∷ unsent ∷ [];
}

acknowledged_is_kept_example :
    Handled
      (some (λ t. t))
      created_message
      (handle_audit (some (λ t. t)) 100 created_message sinks).1
unfolding handle_audit
acknowledged_is_kept_example = acknowledged_is_kept (some (λ t. t)) 100 created_message sinks refl

-- The sinks after the unique index was made and the message recorded, with an answer lost.
abbrev recorded : Sinks
unfolding handle_audit ensure_indexes
recorded = record (handle_audit none 100 created_message (ensure_indexes sinks).1).1 {
  replies = unsent ∷ unheard ∷ [];
}

redelivery_adds_nothing_example :
    Absorbed recorded (handle_audit (some (λ t. t)) 101 created_message recorded)
unfolding handle_audit ensure_indexes is_recorded text_eq is_answered
redelivery_adds_nothing_example =
    redelivery_adds_nothing (some (λ t. t)) 101 created_message recorded refl refl refl refl

abbrev loop : Loop
loop = record {
  world = record { db = shop pending_payment; faults = []; sinks = sinks };
  committed = 0;
  backoff = 1;
}

committed_is_handled_example :
    Past
      (λ t. t)
      created_message
      (turn (wired (λ t. t)) (fetched 0 env created_message true) loop).world
unfolding turn is_status text_eq insert_payment enqueue
committed_is_handled_example =
    committed_is_handled (λ t. t) 0 env created_message true loop (omega arith) (omega arith)
