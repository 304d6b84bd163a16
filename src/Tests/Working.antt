-- ===== src/Tests/Working.antt =====
-- The worker inside the server ends a task whose lease was renewed meanwhile.
use taskpulse.Prelude.{
  true, false, List, ◌+◌, ◌<◌, ◌^◌, String, Bool-cases, text_eq, inl, inr, subst, ◌≡◌, refl, none,
  some, pos, [], ◌∷◌, arith, lookup,
}
use taskpulse.Store.Both.{Stores}
use taskpulse.Store.Effect.{LastStep}
use taskpulse.Worker.Processing.{
  Worker, Finishing, Executed, executed, not_executed, heartbeat_failed, outcome_succeeded, finish,
  claim_for_worker, process_next,
}
use taskpulse.System.Runs.{perform-Effect, reachable-IsSound}
use taskpulse.System.{next, perform}
use taskpulse.System.Invariant.{IsSound}
use taskpulse.System.Processing.{IsRound, process_next-IsRound}
use taskpulse.Task.{Task}
use taskpulse.Result.{ok, err, lease_lost}
use taskpulse.Worker.Polling.{Round, run}
use taskpulse.Worker.Polling.Endings.{IsEnding, run-IsEnding}
use taskpulse.System.Working.{Effects, nothing, then, late_finish-LastStep}
use taskpulse.Tests.Fixtures.{plain_json, plain_codec}
use taskpulse.Tests.Server.{
  pickup, to_creation, after_creation, after_pickup, beat, after_beat, picked_task, the_run,
}

abbrev inner_worker : Worker
inner_worker = record {
  id = "w1";
  known = ("resize", tt) ∷ [];
  retry_policies = [];
  lease_duration = pos 30;
}

abbrev at_60 : Finishing
at_60 = record { quoted = λ s. s; now = 60; event_id = "e5" }

picked : lookup "t1" after_pickup.task_store.tasks ≡ some picked_task
unfolding the_run
picked = refl

abbrev success : Executed
success = executed (record { output = "7"; outcome = outcome_succeeded; error_message = "" })

abbrev meanwhile : Effects after_pickup after_beat
meanwhile = then nothing (
    perform-Effect plain_codec none beat after_pickup
      (reachable-IsSound plain_codec (next to_creation none pickup)))

late_finish-LastStep_example :
    LastStep "t1" after_beat
      (finish plain_json (λ n. 0) inner_worker none at_60 picked_task 60 "e6" success after_beat).1
    × ((text : String)
        → success ≡ not_executed (heartbeat_failed lease_lost text)
        → (finish plain_json
            (λ n. 0)
            inner_worker
            none
            at_60
            picked_task
            60
            "e6"
            success
            after_beat).1
          ≡ after_beat)
late_finish-LastStep_example =
    late_finish-LastStep plain_json (λ n. 0) inner_worker none at_60 meanwhile picked_task
      (reachable-IsSound plain_codec (next to_creation none pickup)) picked refl (omega arith) 60
      "e6" success

abbrev after_claim : Stores
after_claim =
    (claim_for_worker plain_json (λ n. 0) inner_worker none at_60 20 "e2" after_creation).1

claimed : after_claim.task_store.tasks ≡ ("t1", picked_task) ∷ []
unfolding the_run claim_for_worker
claimed = refl

only_one :
    (k : String) (t : Task) → lookup k (("t1", picked_task) ∷ []) ≡ some t → t.version + 1 < 2 ^ 64
unfolding lookup
only_one k t h = elim (Bool-cases (text_eq "t1" k)) [
  | inl e ↦ ground (arith, e)
  | inr e ↦ absurd (ground (arith, e))
]

-- An execution with a heartbeat.
abbrev with_beat : Task → Stores → Executed × Stores
with_beat t s = (success, perform plain_codec none beat s)

process_next-IsRound_example :
    let s' =
      (process_next plain_json
        (λ n. 0)
        inner_worker
        none
        at_60
        20
        "e2"
        with_beat
        60
        "e6"
        after_creation).1 in
    IsRound plain_json (λ n. 0) inner_worker none at_60 with_beat 20 "e2" after_creation s'
    × IsSound s'
process_next-IsRound_example =
    process_next-IsRound plain_json (λ n. 0) inner_worker none at_60 1 with_beat 60 "e6" 20 "e2"
      after_creation (reachable-IsSound plain_codec to_creation)
      (λ t u h. (then nothing (perform-Effect plain_codec none beat u h), omega arith))
      (λ k t found. only_one k t (subst (λ m. lookup k m ≡ some t) claimed found))

-- A round of the worker, one that loses its lease, one that finds the context done, and one that is
-- not got to.
abbrev four_rounds : List Round
four_rounds =
    record {
      step = process_next plain_json (λ n. 0) inner_worker none at_60 20 "e2" with_beat 60 "e6";
      stopped = false;
    }
    ∷ record { step = λ s. (err lease_lost, s); stopped = false }
    ∷ record { step = λ s. (ok false, s); stopped = true }
    ∷ record { step = λ s. (ok true, perform plain_codec none pickup s); stopped = false }
    ∷ []

run-IsEnding_example : IsEnding four_rounds after_creation (run (pos 5) four_rounds after_creation)
run-IsEnding_example = run-IsEnding (pos 5) four_rounds after_creation refl
