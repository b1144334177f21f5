-- ===== src/Dispatch/Examples.antt =====
-- A task that adds another, and the end: tests, and the theorems at it.
use projeto_bruxo.Base.{ℕ, ◌≡◌, refl, false, List, [], ◌∷◌, ◌++◌, ◌==◌, if◌then◌else◌, arith}
use projeto_bruxo.Dispatch.{
  Tasks, Dispatcher, Step, adding, shutting, dispatching, start, push, add_task, add_tasks,
  shutdown, execute, run_task, is_running, is_terminated, has_expired, dispatch_of, dispatch, step,
  run, dispatches,
}
use projeto_bruxo.Dispatch.Order.{IsQueue, run-IsQueue}
use projeto_bruxo.Dispatch.Liveness.{run-finishes}

-- Task 1 adds task 3, task 2 expires, task 9 is that of `shutdown`.
abbrev tasks : Tasks
tasks = record {
  expiration = λ t. if t == 2 then 100 else 0;
  now = λ t. 200;
  adds = λ t. if t == 1 then 3 ∷ [] else [];
  ends = λ t. t == 9;
}

abbrev steps : List Step
steps =
    adding 1 ∷ dispatching ∷ adding 2 ∷ dispatching ∷ dispatching ∷ dispatching ∷ dispatching ∷ []

-- The task that was added by another waits behind the one added meanwhile.
finished_in_order :
    ((run tasks steps start).finished ≡ 1 ∷ 2 ∷ 3 ∷ [])
    × ((run tasks steps start).dispatcher_cycle ≡ 2)
unfolding run step dispatch dispatch_of run_task execute has_expired add_task add_tasks push
    is_running is_terminated
finished_in_order = (refl, refl)

-- What waits when the thread has ended is neither run nor deleted.
left_behind :
    (run tasks
      (shutting 9 ∷ dispatching ∷ adding 4 ∷ dispatching ∷ dispatching ∷ [])
      start).task_list
    ≡ 4 ∷ []
unfolding run step dispatch dispatch_of run_task execute has_expired add_task add_tasks push
    is_running is_terminated shutdown
left_behind = refl

start-IsQueue : IsQueue start
start-IsQueue = record { in_order = refl }

run-IsQueue_example : IsQueue (run tasks steps start)
run-IsQueue_example = run-IsQueue tasks steps start start-IsQueue

abbrev waiting : Dispatcher
waiting = add_task 1 start

waiting-IsQueue : IsQueue waiting
unfolding add_task run is_running step
waiting-IsQueue = run-IsQueue tasks (adding 1 ∷ []) start start-IsQueue

still_running :
    is_terminated (run tasks (dispatching ∷ adding 2 ∷ dispatching ∷ []) waiting).state ≡ false
unfolding run step dispatch dispatch_of run_task execute has_expired add_task add_tasks push
    is_running is_terminated
still_running = refl

run-finishes_example :
    (later : List ℕ) × ((run tasks (dispatching ∷ adding 2 ∷ dispatching ∷ []) waiting).finished
      ≡ waiting.accepted ++ later)
unfolding add_task is_running push dispatches
run-finishes_example =
    run-finishes tasks (dispatching ∷ adding 2 ∷ dispatching ∷ []) waiting waiting-IsQueue
      still_running (omega arith)
