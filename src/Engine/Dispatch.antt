-- ===== src/Engine/Dispatch.antt =====
-- Dispatching ready tasks, and what it keeps.
use fuzzy_octo_train.Prelude.{
  string_eq, String, true, false, ◌||◌, List, [], ◌∷◌, Dict, get, has, contains, ◌≡◌, refl, arith,
  ==_iff, ==_refl, Option-cases, Bool-cases, inl, inr, contains-add, has-put, get-has, get-put,
}
use fuzzy_octo_train.Models.{Task, TaskStatus}
use fuzzy_octo_train.Dag.{Dag}
use fuzzy_octo_train.Dag.Edges.{edge}
use fuzzy_octo_train.Dag.Invariant.{IsWellFormed}
use fuzzy_octo_train.Scheduler.{done, mark_running, get_ready_tasks}
use fuzzy_octo_train.Scheduler.Ready.{pending_at, is_listed, get_ready_tasks_iff}
use fuzzy_octo_train.Engine.{Engine, Phase, spawned}
use fuzzy_octo_train.Engine.Steps.{spawn_one, spawn, dispatch}
use fuzzy_octo_train.Engine.Invariant.{touched, IsConsistent, IsNamed-put}

module _ {V : Type 0} where
  spawn_one-IsConsistent :
      {dag : Dag} (s : Engine V) (task : Task V)
      → IsConsistent dag s
      → has s.task_map task.name ≡ true
      → ((u : String)
          → edge dag.adjacency u task.name ≡ true
          → contains (done s.scheduler) u ≡ true)
      → IsConsistent dag (spawn_one s task)
  unfolding spawn_one mark_running
  spawn_one-IsConsistent s task c k ready =
      let task' : Task V = record task { status = TaskStatus.running } in
      let here : Phase V = spawned in
      record {
        named = IsNamed-put s.task_map task.name task' c.named refl;
        tracked = λ n. ground (
          arith,
          c.tracked n,
          get-put s.task_map task.name n task',
          has-put s.task_map task.name n task',
          contains-add s.scheduler.running task.name n,
          ==_iff task.name n,
        );
        known = λ n t. ground (
          arith,
          c.known n,
          has-put s.task_map task.name n task',
          contains-add s.scheduler.running task.name n,
          ==_iff task.name n,
        );
        mapped = λ n.
            ground (arith, c.mapped n, has-put s.task_map task.name n task', ==_iff task.name n);
        satisfied = λ n u t e. ground (
          arith,
          c.satisfied n u,
          ready u,
          contains-add s.scheduler.running task.name n,
          ==_iff task.name n,
        );
        dispatched = λ n f. ground (
          arith,
          c.dispatched n,
          has-put s.pending_futures task.name n here,
          contains-add s.scheduler.running task.name n,
          ==_iff task.name n,
        );
      }

  spawn_one-has :
      (s : Engine V) (task : Task V) (n : String)
      → has s.task_map n ≡ true
      → has (spawn_one s task).task_map n ≡ true
  unfolding spawn_one
  spawn_one-has s task n k =
      ground (arith, has-put s.task_map task.name n (record task { status = TaskStatus.running }))

  -- Starting a task completes none.
  spawn_one-done :
      (s : Engine V) (task : Task V) → done (spawn_one s task).scheduler ≡ done s.scheduler
  unfolding spawn_one mark_running
  spawn_one-done s task = refl

  pending_at-has :
      (tasks : Dict String (Task V)) (n : String)
      → pending_at (get tasks n) ≡ true
      → has tasks n ≡ true
  pending_at-has tasks n p = elim (Option-cases (get tasks n)) [
    | inl missing ↦ absurd (ground (arith, missing))
    | inr (task, e) ↦ get-has tasks n task e
  ]

  spawn-IsConsistent :
      {dag : Dag} (s : Engine V) (ready : List (Task V))
      → IsConsistent dag s
      → ((n : String)
          → is_listed ready n ≡ true
          → (has s.task_map n ≡ true)
            × ((u : String) → edge dag.adjacency u n ≡ true → contains (done s.scheduler) u ≡ true))
      → IsConsistent dag (spawn s ready)
  unfolding spawn
  spawn-IsConsistent s [] c h = c
  spawn-IsConsistent s (task ∷ rest) c h =
      let (known, ready) = h task.name (ground (arith, ==_refl task.name)) in
      spawn-IsConsistent (spawn_one s task) rest (spawn_one-IsConsistent s task c known ready)
        (λ n m.
          let (k, r) = h n (ground arith) in
          (spawn_one-has s task n k, rw (spawn_one-done s task) r))

  pub dispatch-IsConsistent :
      {dag : Dag} (s : Engine V)
      → IsWellFormed dag
      → IsConsistent dag s
      → IsConsistent dag (dispatch dag s)
  unfolding dispatch
  dispatch-IsConsistent {dag} s w c =
      spawn-IsConsistent s (get_ready_tasks s.scheduler dag s.task_map) c (λ n m.
        let ((node, fresh, ready), free) =
          (get_ready_tasks_iff s.scheduler s.task_map c.named w n).0 m in
        (pending_at-has s.task_map n (ground arith), ready))

  -- Which tasks have a future, and which are running, after the loop over the ready ones.
  pub futures-spawn :
      (s : Engine V) (ready : List (Task V)) (n : String)
      → has (spawn s ready).pending_futures n ≡ (has s.pending_futures n || is_listed ready n)
  unfolding spawn spawn_one
  futures-spawn s [] n = ground arith
  futures-spawn s (task ∷ rest) n =
      let here : Phase V = spawned in
      ground
        (arith, futures-spawn (spawn_one s task) rest n, has-put s.pending_futures task.name n here)

  pub running-spawn :
      (s : Engine V) (ready : List (Task V)) (n : String)
      → contains (spawn s ready).scheduler.running n
        ≡ (contains s.scheduler.running n || is_listed ready n)
  unfolding spawn spawn_one mark_running
  running-spawn s [] n = ground arith
  running-spawn s (task ∷ rest) n =
      ground (
        arith,
        running-spawn (spawn_one s task) rest n,
        contains-add s.scheduler.running task.name n,
      )

  -- A dispatched task is not ready again.
  pub ready-touched :
      {dag : Dag} (s : Engine V) (n : String)
      → IsWellFormed dag
      → IsConsistent dag s
      → touched s.scheduler n ≡ true
      → is_listed (get_ready_tasks s.scheduler dag s.task_map) n ≡ false
  ready-touched {dag} s n w c t =
      elim (Bool-cases (is_listed (get_ready_tasks s.scheduler dag s.task_map) n)) [
        | inl listed ↦
            let (ready, free) = (get_ready_tasks_iff s.scheduler s.task_map c.named w n).0 listed in
            absurd (ground (arith, c.tracked n))
        | inr fresh ↦ fresh
      ]

  -- A dispatched task stays dispatched.
  spawn_one-touched :
      (s : Engine V) (task : Task V) (n : String)
      → touched s.scheduler n ≡ true
      → touched (spawn_one s task).scheduler n ≡ true
  unfolding spawn_one mark_running
  spawn_one-touched s task n t = ground (arith, contains-add s.scheduler.running task.name n)

  spawn-touched :
      (s : Engine V) (ready : List (Task V)) (n : String)
      → touched s.scheduler n ≡ true
      → touched (spawn s ready).scheduler n ≡ true
  unfolding spawn
  spawn-touched s [] n t = t
  spawn-touched s (task ∷ rest) n t =
      spawn-touched (spawn_one s task) rest n (spawn_one-touched s task n t)

  pub dispatch-touched :
      (dag : Dag) (s : Engine V) (n : String)
      → touched s.scheduler n ≡ true
      → touched (dispatch dag s).scheduler n ≡ true
  unfolding dispatch
  dispatch-touched dag s n t = spawn-touched s (get_ready_tasks s.scheduler dag s.task_map) n t
