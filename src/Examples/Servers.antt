-- ===== src/Examples/Servers.antt =====
-- Requests, background executions and connections.
use fuzzy_octo_train.Prelude.{
  string_eq, nat_eq, ℕ, String, true, false, none, some, List, [], ◌∷◌, Dict, get, pos, ◌≡◌, ◌==◌,
  ◌⊎◌, refl, ==_iff, arith, Error, err, any, count, ◌-◌, if◌then◌else◌, insertion_order,
}
use fuzzy_octo_train.Models.{TaskResult, WorkflowStatus}
use fuzzy_octo_train.Dag.{build_dag}
use fuzzy_octo_train.Store
use fuzzy_octo_train.Store.{InMemoryStore}
use fuzzy_octo_train.Store.Contract.{WorkflowStore, in_memory_store, in_memory_store-IsStore}
use fuzzy_octo_train.Schemas.{WorkflowCreate, is_valid}
use fuzzy_octo_train.Routes.{
  Router, created, executing, Move, execute, background, request, finish, create_workflow,
  get_workflow, run_background, step, execute_workflow, enter_background, leave_background,
}
use fuzzy_octo_train.Routes.Responses.{
  answered, invalid_body, unprocessable, submitted, to_response, to_result_responses, or_no_results,
  final_status, equals_text,
}
use fuzzy_octo_train.Routes.Requests.{IsSettled, create_workflow_lem, run_background_lem}
use fuzzy_octo_train.Routes.Executions.{run, quiet_router, IsSound, run-tracked}
use fuzzy_octo_train.Routes.Restarts.{cancel_forgets}
use fuzzy_octo_train.Events.{remove}
use fuzzy_octo_train.Websocket.{
  Turn, sent, skipped, failed, disconnects, raised, returned, broadcast, send_all, change_all,
  disconnect, disconnect_all,
}
use fuzzy_octo_train.Websocket.Broadcast.{is_broken, failed_of, broadcast_lem}
use fuzzy_octo_train.Examples.Tasks.{a_result, workflow}

abbrev memory : WorkflowStore ℕ
memory = in_memory_store ℕ

abbrev kept : InMemoryStore ℕ
kept = record { workflows = ("w1", workflow) ∷ []; results = [] }

abbrev body : WorkflowCreate ℕ
body = record {
  name = "etl";
  tasks =
      record {
        name = "a";
        depends_on = [];
        timeout_seconds = 300;
        retry_count = pos 0;
        metadata = [];
      }
      ∷ [];
  metadata = [];
}

abbrev fresh : ℕ → String
fresh i = "0123"

abbrev show : ℕ → String
show n = "3"

abbrev quiet : Router memory
quiet = quiet_router {o = memory} kept

create_workflow_lem_example :
    ((is_valid body ≡ false)
      × (create_workflow memory insertion_order 0 fresh quiet body "w2" 7 ≡ (invalid_body, quiet)))
    ⊎ (((exception : Error) × (build_dag insertion_order (submitted 0 fresh body "w2" 7).tasks
            ≡ err exception)
          × (create_workflow memory insertion_order 0 fresh quiet body "w2" 7
              ≡ (unprocessable exception, quiet)))
        ⊎ ((s' : Router memory) × (create_workflow memory insertion_order 0 fresh quiet body "w2" 7
              ≡ (answered (to_response (submitted 0 fresh body "w2" 7)), s'))
            × ((k : String)
                → get_workflow memory show s' k ≡ (
                    if "w2" == k
                    then answered (record {
                      workflow = to_response (submitted 0 fresh body "w2" 7);
                      results = to_result_responses show (or_no_results (Store.get_results kept k));
                    })
                    else get_workflow memory show quiet k))))
create_workflow_lem_example =
    create_workflow_lem (in_memory_store-IsStore ℕ) show insertion_order 0 fresh quiet body "w2" 7

-- `w1` is executing.
abbrev busy : Router memory
busy = record {
  store = kept;
  running_workflows = ("w1", 0) ∷ [];
  tasks = (0, ("w1", executing workflow)) ∷ [];
}

abbrev results : Dict String (TaskResult ℕ)
results = ("a", a_result) ∷ []

run_background_lem_example :
    IsSettled
      (in_memory_store-IsStore ℕ)
      show
      "w1"
      workflow
      results
      (run_background memory busy 0 (some results))
unfolding Store.find
run_background_lem_example =
    run_background_lem (in_memory_store-IsStore ℕ) show busy 0 "w1" workflow workflow results refl
      refl

program : Unit {0}
unfolding step create_workflow execute_workflow run_background enter_background leave_background
    Store.find Store.update_status Store.save_results final_status equals_text
program = tt

abbrev moves : List (Move ℕ)
moves = execute "w1" ∷ background 0 none ∷ execute "w1" ∷ []

abbrev late : Router memory
late = run insertion_order 0 fresh (quiet_router {o = memory} kept) moves

entered : get late.tasks 0 ≡ some ("w1", executing workflow)
unfolding program
entered = refl

run-tracked_example : get late.running_workflows "w1" ≡ some 0
run-tracked_example =
    run-tracked memory insertion_order 0 fresh kept moves (tt, (tt, (tt, tt))) "w1" 0
      (executing workflow) entered refl

busy-IsSound : IsSound busy
busy-IsSound = record {
  numbered = λ h e. ground arith;
  registered = λ id h e. (executing workflow, ground (arith, ==_iff "w1" id));
  tracked = λ id h stage e live. ground (arith, ==_iff "w1" id);
}

stored : Store.find kept "w1" ≡ some workflow
unfolding program
stored = refl

cancel_forgets_example :
    let s' : Router memory =
      run insertion_order 0 fresh busy
        (request "w1" ∷ background 0 none ∷ execute "w1" ∷ finish "w1" 0 ∷ []) in
    (get s'.running_workflows "w1" ≡ none)
    × (get s'.tasks 1 ≡ some ("w1", created))
    × (Store.find s'.store "w1"
        ≡ Store.find (Store.update_status kept "w1" WorkflowStatus.cancelled) "w1")
cancel_forgets_example = cancel_forgets busy busy-IsSound refl refl stored insertion_order 0 fresh

-- Connection 2 stands in the list twice, and its second sending fails.
abbrev turns : List Turn
turns = sent [] ∷ sent [] ∷ skipped ∷ failed [] ∷ []

broadcast_lem_example :
    ((any is_broken turns ≡ true)
      × (broadcast turns (1 ∷ 2 ∷ 3 ∷ 2 ∷ []) ≡ raised (1 ∷ 2 ∷ 3 ∷ 2 ∷ [])))
    ⊎ ((any is_broken turns ≡ false)
        × (left : List ℕ) × (broadcast turns (1 ∷ 2 ∷ 3 ∷ 2 ∷ []) ≡ returned left)
        × (count (λ (x : ℕ). x == 2) left
            ≡ count (λ (x : ℕ). x == 2) (1 ∷ 2 ∷ 3 ∷ 2 ∷ [])
              - count (λ (x : ℕ). x == 2) (failed_of turns (1 ∷ 2 ∷ 3 ∷ 2 ∷ []))))
broadcast_lem_example = broadcast_lem turns (1 ∷ 2 ∷ 3 ∷ 2 ∷ []) 2 refl refl

-- While connection 1 is sent to, it is disconnected: connection 2 takes its place and gets nothing.
passed_over :
    broadcast (sent (disconnects 1 ∷ []) ∷ sent [] ∷ []) (1 ∷ 2 ∷ 3 ∷ []) ≡ returned (2 ∷ 3 ∷ [])
unfolding broadcast send_all change_all disconnect disconnect_all remove
passed_over = refl
