-- ===== src/Engine/Invariant.antt =====
-- The invariant of an execution.
use fuzzy_octo_train.Prelude.{
  string_eq, String, Bool, true, false, not, ◌&&◌, ◌||◌, some, Dict, get, put, has, contains, ◌≡◌,
  ◌==◌, refl, arith, ==_iff, ◌∙◌, sym, contains-add, contains-discard, contains-union, has-put,
  has-pop, get-put,
}
use fuzzy_octo_train.Models.{Task, TaskResult}
use fuzzy_octo_train.Dag.{Dag}
use fuzzy_octo_train.Dag.Edges.{edge}
use fuzzy_octo_train.Scheduler.{
  Scheduler, done, is_pending, mark_completed, mark_failed, mark_skipped,
}
use fuzzy_octo_train.Scheduler.Ready.{IsNamed, pending_at}
use fuzzy_octo_train.Engine.{Engine, Phase, settle_task, goto, end_future}

-- Is the task running, or has it been?
abbrev pub touched : Scheduler → String → Bool
touched s name =
    contains s.running name
    || contains s.completed name
    || contains s.failed name
    || contains s.skipped name

-- A task is pending until it is dispatched; when it is dispatched, its dependencies are completed or
-- skipped; and only dispatched tasks have futures.
pub record IsConsistent {V : Type 0} (dag : Dag) (s : Engine V) : Type 0 where
  pub named : IsNamed s.task_map
  pub tracked :
      (n : String)
      → pending_at (get s.task_map n) ≡ (has s.task_map n && not (touched s.scheduler n))
  pub known : (n : String) → touched s.scheduler n ≡ true → has s.task_map n ≡ true
  -- the graph's nodes are the tasks
  pub mapped : (n : String) → has s.task_map n ≡ has dag.adjacency n
  pub satisfied :
      (n u : String)
      → touched s.scheduler n ≡ true
      → edge dag.adjacency u n ≡ true
      → contains (done s.scheduler) u ≡ true
  pub dispatched : (n : String) → has s.pending_futures n ≡ true → touched s.scheduler n ≡ true

-- What a move for one task leaves alone: which tasks are dispatched, and which are pending. Tasks
-- that are completed or skipped stay so, and there are no new futures.
pub record Advances {V : Type 0} (s s' : Engine V) : Type 0 where
  pub names : IsNamed s.task_map → IsNamed s'.task_map
  pub touches : (n : String) → touched s'.scheduler n ≡ touched s.scheduler n
  pub tasks : (n : String) → has s'.task_map n ≡ has s.task_map n
  pub pendings : (n : String) → pending_at (get s'.task_map n) ≡ pending_at (get s.task_map n)
  pub dones :
      (n : String) → contains (done s.scheduler) n ≡ true → contains (done s'.scheduler) n ≡ true
  pub futures : (n : String) → has s'.pending_futures n ≡ true → has s.pending_futures n ≡ true
  -- a task without a future stays among the running ones, or out of them
  pub runs :
      (n : String)
      → has s.pending_futures n ≡ false
      → contains s'.scheduler.running n ≡ contains s.scheduler.running n

module _ {V : Type 0} where
  pub Advances-refl : (s : Engine V) → Advances s s
  Advances-refl s = record {
    names = λ h. h;
    touches = λ n. refl;
    tasks = λ n. refl;
    pendings = λ n. refl;
    dones = λ n h. h;
    futures = λ n h. h;
    runs = λ n h. refl;
  }

  pub Advances-trans : {r s t : Engine V} → Advances r s → Advances s t → Advances r t
  Advances-trans a b = record {
    names = λ h. b.names (a.names h);
    touches = λ n. b.touches n ∙ a.touches n;
    tasks = λ n. b.tasks n ∙ a.tasks n;
    pendings = λ n. b.pendings n ∙ a.pendings n;
    dones = λ n h. b.dones n (a.dones n h);
    futures = λ n h. a.futures n (b.futures n h);
    runs = λ n h. b.runs n (ground (arith, a.futures n)) ∙ a.runs n h;
  }

  pub Advances-IsConsistent :
      {dag : Dag} {s s' : Engine V} → Advances s s' → IsConsistent dag s → IsConsistent dag s'
  Advances-IsConsistent a c = record {
    named = a.names c.named;
    tracked = λ n. ground (arith, a.pendings n, a.tasks n, a.touches n, c.tracked n);
    known = λ n t. a.tasks n ∙ c.known n (sym (a.touches n) ∙ t);
    mapped = λ n. a.tasks n ∙ c.mapped n;
    satisfied = λ n u t e. a.dones u (c.satisfied n u (sym (a.touches n) ∙ t) e);
    dispatched = λ n f. a.touches n ∙ c.dispatched n (a.futures n f);
  }

  pub goto-Advances :
      (s : Engine V) (task : Task V) (phase : Phase V)
      → has s.pending_futures task.name ≡ true
      → Advances s (goto s task phase)
  goto-Advances s task phase f = record {
    names = λ h. h;
    touches = λ n. refl;
    tasks = λ n. refl;
    pendings = λ n. refl;
    dones = λ n h. h;
    futures =
        λ n h. ground (arith, has-put s.pending_futures task.name n phase, ==_iff task.name n);
    runs = λ n h. refl;
  }

  pub end_future-Advances : (s : Engine V) (task : Task V) → Advances s (end_future s task)
  end_future-Advances s task = record {
    names = λ h. h;
    touches = λ n. refl;
    tasks = λ n. refl;
    pendings = λ n. refl;
    dones = λ n h. h;
    futures = λ n h. ground (arith, has-pop s.pending_futures task.name n);
    runs = λ n h. refl;
  }

-- How a scheduler is told that a task is over.
pub record Marks (s s' : Scheduler) (name : String) : Type 0 where
  pub touches : (n : String) → touched s' n ≡ (touched s n || name == n)
  pub dones : (n : String) → contains (done s) n ≡ true → contains (done s') n ≡ true
  pub runs : (n : String) → (name == n) ≡ false → contains s'.running n ≡ contains s.running n

pub mark_completed-Marks : (s : Scheduler) (name : String) → Marks s (mark_completed s name) name
unfolding mark_completed
mark_completed-Marks s name = record {
  runs = λ n h. ground (arith, contains-discard s.running name n, ==_iff name n, ==_iff n name);
  touches = λ n. ground (
    arith,
    contains-add s.completed name n,
    contains-discard s.running name n,
    ==_iff name n,
    ==_iff n name,
  );
  dones = λ n h. ground (
    arith,
    contains-union s.completed s.skipped n,
    contains-union (mark_completed s name).completed s.skipped n,
    contains-add s.completed name n,
  );
}

pub mark_failed-Marks : (s : Scheduler) (name : String) → Marks s (mark_failed s name) name
unfolding mark_failed
mark_failed-Marks s name = record {
  runs = λ n h. ground (arith, contains-discard s.running name n, ==_iff name n, ==_iff n name);
  touches = λ n. ground (
    arith,
    contains-add s.failed name n,
    contains-discard s.running name n,
    ==_iff name n,
    ==_iff n name,
  );
  dones = λ n h. h;
}

pub mark_skipped-Marks : (s : Scheduler) (name : String) → Marks s (mark_skipped s name) name
unfolding mark_skipped
mark_skipped-Marks s name = record {
  runs = λ n h. ground (arith, contains-discard s.running name n, ==_iff name n, ==_iff n name);
  touches = λ n. ground (
    arith,
    contains-add s.skipped name n,
    contains-discard s.running name n,
    ==_iff name n,
    ==_iff n name,
  );
  dones = λ n h. ground (
    arith,
    contains-union s.completed s.skipped n,
    contains-union s.completed (mark_skipped s name).skipped n,
    contains-add s.skipped name n,
  );
}

module _ {V : Type 0} where
  pub IsNamed-put :
      (d : Dict String (Task V)) (name : String) (task : Task V)
      → IsNamed d
      → task.name ≡ name
      → IsNamed (put d name task)
  IsNamed-put d name task h e k t g = ground (arith, get-put d name k task, ==_iff name k, h k t)

  -- A task that is dispatched and gets its result.
  pub settle-Advances :
      (s : Engine V) (task : Task V) (result : TaskResult V) (scheduler : Scheduler)
      → Marks s.scheduler scheduler task.name
      → has s.task_map task.name ≡ true
      → pending_at (get s.task_map task.name) ≡ false
      → touched s.scheduler task.name ≡ true
      → is_pending result.status ≡ false
      → has s.pending_futures task.name ≡ true
      → Advances s (settle_task s task result scheduler)
  settle-Advances s task result scheduler m k p t r f = record {
    names = λ h.
        IsNamed-put s.task_map task.name
          (record task { status = result.status; result = some result }) h refl;
    touches = λ n. ground (arith, m.touches n, ==_iff task.name n);
    tasks = λ n. ground (
      arith,
      has-put s.task_map task.name n (record task { status = result.status; result = some result }),
      ==_iff task.name n,
    );
    pendings = λ n. ground (
      arith,
      get-put s.task_map task.name n (record task { status = result.status; result = some result }),
      ==_iff task.name n,
    );
    dones = m.dones;
    futures = λ n h. h;
    runs = λ n h. m.runs n (ground (arith, ==_iff task.name n));
  }
