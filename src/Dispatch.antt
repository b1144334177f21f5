-- ===== src/Dispatch.antt =====
-- The dispatcher (tasks.h, tasks.cpp): one thread runs the tasks that all threads add.
-- A lock makes each change of the list one step, so that an execution is a list of steps of the
-- dispatcher's thread and of the others. `accepted`, `finished` and `deleted` are the histories of the
-- tasks: those added to the list, those run or found expired, and those refused.
pub mod Order
pub mod Accepted
pub mod Liveness
mod Examples
use projeto_bruxo.Base.{
  ℕ, zero, suc, ◌+◌, ◌%◌, Bool, true, false, List, [], ◌∷◌, ◌++◌, ◌==◌, ltb, if◌then◌else◌, u64_mod,
}

pub data ThreadState : Type 0 where
  running closing terminated : ThreadState

-- What tasks are: when they expire (0 is SYSTEM_TIME_ZERO), when the dispatcher looks at them, which
-- tasks they add, and whether they are the task of `shutdown`.
pub record Tasks : Type 0 where
  pub expiration : ℕ → ℕ
  pub now : ℕ → ℕ
  pub adds : ℕ → List ℕ
  pub ends : ℕ → Bool

-- `Dispatcher`, with `tmpTaskList` of its thread and the histories.
pub record Dispatcher : Type 0 where
  pub state : ThreadState
  pub task_list : List ℕ
  pub tmp_task_list : List ℕ
  pub dispatcher_cycle : ℕ
  pub accepted : List ℕ
  pub finished : List ℕ
  pub deleted : List ℕ

abbrev pub start : Dispatcher
start = record {
  state = running;
  task_list = [];
  tmp_task_list = [];
  dispatcher_cycle = 0;
  accepted = [];
  finished = [];
  deleted = [];
}

unfoldable pub is_running : ThreadState → Bool
is_running running = true
is_running closing = false
is_running terminated = false

unfoldable pub is_terminated : ThreadState → Bool
is_terminated running = false
is_terminated closing = false
is_terminated terminated = true

-- `Task::hasExpired`
unfoldable pub has_expired : Tasks → ℕ → Bool
has_expired env t = if env.expiration t == 0 then false else ltb (env.expiration t) (env.now t)

unfoldable pub push : ℕ → Dispatcher → Dispatcher
push t d = record d { task_list = d.task_list ++ t ∷ []; accepted = d.accepted ++ t ∷ [] }

-- `Dispatcher::addTask`
unfoldable pub add_task : ℕ → Dispatcher → Dispatcher
add_task t d = if is_running d.state then push t d else record d { deleted = t ∷ d.deleted }

unfoldable pub add_tasks : List ℕ → Dispatcher → Dispatcher
add_tasks [] d = d
add_tasks (t ∷ ts) d = add_tasks ts (add_task t d)

-- `Dispatcher::shutdown`
unfoldable pub shutdown : ℕ → Dispatcher → Dispatcher
shutdown t d = push t d

-- The call of a task.
unfoldable pub execute : Tasks → ℕ → Dispatcher → Dispatcher
execute env t d =
    let called = add_tasks (env.adds t) d in
    if env.ends t then record called { state = terminated } else called

-- One task in the loop over `tmpTaskList`.
unfoldable pub run_task : Tasks → ℕ → Dispatcher → Dispatcher
run_task env t d =
    let rest = record d { finished = d.finished ++ t ∷ [] } in
    if has_expired env t
    then rest
    else execute env t (record rest { dispatcher_cycle = (d.dispatcher_cycle + 1) % u64_mod })

-- What `threadMain` does next, with the tasks that are left of `tmpTaskList`: the next one of them,
-- or, if there is none and the thread goes on, those that wait.
unfoldable pub dispatch_of : List ℕ → Tasks → Dispatcher → Dispatcher
dispatch_of (t ∷ ts) env d = run_task env t (record d { tmp_task_list = ts })
dispatch_of [] env d =
    if is_terminated d.state then d else record d { tmp_task_list = d.task_list; task_list = [] }

unfoldable pub dispatch : Tasks → Dispatcher → Dispatcher
dispatch env d = dispatch_of d.tmp_task_list env d

-- A step of another thread, or of the dispatcher's.
pub data Step : Type 0 where
  adding : ℕ → Step
  shutting : ℕ → Step
  dispatching : Step

unfoldable pub step : Tasks → Step → Dispatcher → Dispatcher
step env (adding t) d = add_task t d
step env (shutting t) d = shutdown t d
step env dispatching d = dispatch env d

unfoldable pub run : Tasks → List Step → Dispatcher → Dispatcher
run env [] d = d
run env (s ∷ ss) d = run env ss (step env s d)

-- How often the dispatcher's thread steps.
unfoldable pub dispatches : List Step → ℕ
dispatches [] = 0
dispatches (dispatching ∷ ss) = suc (dispatches ss)
dispatches (adding t ∷ ss) = dispatches ss
dispatches (shutting t ∷ ss) = dispatches ss
