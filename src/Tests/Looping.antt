-- ===== src/Tests/Looping.antt =====
-- The extractor's loop: a message is polled, its task ends, and its offset is committed; and, with two
-- slots, the offset of a later message is committed while an earlier one is in flight.
use enterprise_rag_ingestion.Prelude.{
  ◌≡◌, refl, Bool, ◌&&◌, false, true, none, some, [], ◌∷◌, length, arith,
}
use enterprise_rag_ingestion.Exceptions.{ok}
use enterprise_rag_ingestion.Extractor.Worker.{handle}
use enterprise_rag_ingestion.Extractor.Loop.{
  Message, empty, received, Consumer, Broker, collect, resume, pause, deliver, turn, turns, ends,
  Run, begins, goes_on,
}
use enterprise_rag_ingestion.Extractor.Loop.Sound.{IsSound, Run-IsSound}
use enterprise_rag_ingestion.Extractor.Loop.Bounded.{IsBounded, IsSteady, Run-IsBounded}
use enterprise_rag_ingestion.Tests.Converting.{tools, answers}
use enterprise_rag_ingestion.Tests.Data.{fetched, db}

abbrev message : Message
message = record { offset = 0; payload = ok fetched }

abbrev idle : Consumer
idle = record { db = db; inflight = []; paused = false; committed = []; polls = []; outcomes = [] }

abbrev bringing : Broker
bringing = record { commit = λ m. ok tt; poll = received message; assigned = true }

abbrev silent : Broker
silent = record { commit = λ m. ok tt; poll = empty; assigned = true }

abbrev busy : Consumer
busy = (turn 1 bringing idle).1

busy-inflight :
    busy.inflight ≡ (record { message = message; payload = fetched; outcome = none }) ∷ []
unfolding turn collect resume deliver pause
busy-inflight = refl

abbrev over : Consumer
over = record busy {
  db = (handle tools answers fetched busy.db).1;
  inflight =
      (record {
        message = message;
        payload = fetched;
        outcome = some (handle tools answers fetched busy.db).0;
      })
      ∷ [];
}

looping : Run tools 1 idle (turn 1 silent over).1
looping =
    goes_on
      (goes_on (goes_on begins (turns bringing)) (ends [] [] message fetched answers busy-inflight))
      (turns silent)

Run-IsSound_example : IsSound tools 1 (turn 1 silent over).1
Run-IsSound_example =
    Run-IsSound tools 1 idle (turn 1 silent over).1 looping (record { committed = tt; tasks = tt })

and_false : (b : Bool) → (b && false) ≡ false
and_false true = refl
and_false false = refl

looping-IsSteady : IsSteady tools 1 looping
unfolding IsSteady looping turn collect resume deliver pause
looping-IsSteady = ((tt, refl, refl), refl, and_false _)

Run-IsBounded_example : IsBounded 1 (turn 1 silent over).1
Run-IsBounded_example =
    Run-IsBounded tools 1 idle (turn 1 silent over).1 looping looping-IsSteady
      (record { most = omega arith; pauses = refl })

-- A message that a rebalance brings to the paused consumer makes a second task for its one slot.
exceeded : length (turn 1 bringing busy).1.inflight ≡ 2
unfolding turn collect resume deliver pause
exceeded = refl

abbrev later_message : Message
later_message = record { offset = 1; payload = ok fetched }

-- The task of offset 0 runs, and that of offset 1 has ended.
abbrev overtaken : Consumer
overtaken = record idle {
  inflight =
      (record { message = message; payload = fetched; outcome = none })
      ∷ (record { message = later_message; payload = fetched; outcome = some (ok true) })
      ∷ [];
}

overtaken-committed : (turn 2 silent overtaken).1.committed ≡ later_message ∷ []
unfolding turn collect resume deliver
overtaken-committed = refl
