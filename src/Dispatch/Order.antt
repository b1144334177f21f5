-- ===== src/Dispatch/Order.antt =====
-- The order of tasks.
use projeto_bruxo.Base.{ℕ, ◌≡◌, refl, sym, ap, ◌∙◌, List, [], ◌∷◌, ◌++◌, if_cases}
use mathlib.Core.List.{append_assoc, append-nil}
use projeto_bruxo.Dispatch.{
  Tasks, Dispatcher, Step, adding, shutting, dispatching, push, add_task, add_tasks, shutdown,
  execute, run_task, is_running, has_expired, dispatch_of, dispatch, step, run, is_terminated,
}

-- What was accepted is finished, being worked on, or waiting, in this order.
pub record IsQueue (d : Dispatcher) : Type 0 where
  pub in_order : d.accepted ≡ d.finished ++ (d.tmp_task_list ++ d.task_list)

append_assoc3 : (a b c e : List ℕ) → (a ++ (b ++ c)) ++ e ≡ a ++ (b ++ (c ++ e))
append_assoc3 a b c e = append_assoc a (b ++ c) e ∙ ap (λ l. a ++ l) (append_assoc b c e)

push-IsQueue : (t : ℕ) (d : Dispatcher) → IsQueue d → IsQueue (push t d)
unfolding push
push-IsQueue t d q = record {
  in_order =
      ap (λ l. l ++ t ∷ []) q.in_order
      ∙ append_assoc3 d.finished d.tmp_task_list d.task_list (t ∷ []);
}

add_task-IsQueue : (t : ℕ) (d : Dispatcher) → IsQueue d → IsQueue (add_task t d)
unfolding add_task
add_task-IsQueue t d q =
    if_cases IsQueue (is_running d.state) (λ e. push-IsQueue t d q)
      (λ e. record { in_order = q.in_order })

add_tasks-IsQueue : (ts : List ℕ) (d : Dispatcher) → IsQueue d → IsQueue (add_tasks ts d)
unfolding add_tasks
add_tasks-IsQueue [] d q = q
add_tasks-IsQueue (t ∷ ts) d q = add_tasks-IsQueue ts (add_task t d) (add_task-IsQueue t d q)

execute-IsQueue : (env : Tasks) (t : ℕ) (d : Dispatcher) → IsQueue d → IsQueue (execute env t d)
unfolding execute
execute-IsQueue env t d q =
    let called = add_tasks-IsQueue (env.adds t) d q in
    if_cases IsQueue (env.ends t) (λ e. record { in_order = called.in_order }) (λ e. called)

run_task-IsQueue :
    (env : Tasks) (t : ℕ) (d : Dispatcher)
    → d.accepted ≡ d.finished ++ (t ∷ (d.tmp_task_list ++ d.task_list))
    → IsQueue (run_task env t d)
unfolding run_task
run_task-IsQueue env t d e =
    let next : d.accepted ≡ (d.finished ++ t ∷ []) ++ (d.tmp_task_list ++ d.task_list) =
      e ∙ sym (append_assoc d.finished (t ∷ []) (d.tmp_task_list ++ d.task_list)) in
    if_cases IsQueue (has_expired env t) (λ _. record { in_order = next })
      (λ _. execute-IsQueue env t _ (record { in_order = next }))

dispatch_of-IsQueue :
    (env : Tasks) (ts : List ℕ) (d : Dispatcher)
    → d.accepted ≡ d.finished ++ (ts ++ d.task_list)
    → d.tmp_task_list ≡ ts
    → IsQueue (dispatch_of ts env d)
unfolding dispatch_of
dispatch_of-IsQueue env [] d e same =
    if_cases IsQueue (is_terminated d.state)
      (λ _. record { in_order = e ∙ ap (λ l. d.finished ++ (l ++ d.task_list)) (sym same) })
      (λ _. record { in_order = e ∙ ap (λ l. d.finished ++ l) (sym (append-nil d.task_list)) })
dispatch_of-IsQueue env (t ∷ ts) d e same =
    run_task-IsQueue env t (record d { tmp_task_list = ts }) e

pub step-IsQueue : (env : Tasks) (s : Step) (d : Dispatcher) → IsQueue d → IsQueue (step env s d)
unfolding step shutdown dispatch
step-IsQueue env (adding t) d q = add_task-IsQueue t d q
step-IsQueue env (shutting t) d q = push-IsQueue t d q
step-IsQueue env dispatching d q = dispatch_of-IsQueue env d.tmp_task_list d q.in_order refl

-- From a queue in order, after any steps of the dispatcher and of other threads: what was accepted
-- is what is finished, then what is being worked on, then what waits, each task as often as it was
-- accepted and in the order of acceptance.
pub run-IsQueue :
    (env : Tasks) (ss : List Step) (d : Dispatcher) → IsQueue d → IsQueue (run env ss d)
unfolding run
run-IsQueue env [] d q = q
run-IsQueue env (s ∷ ss) d q = run-IsQueue env ss (step env s d) (step-IsQueue env s d q)
