-- ===== src/Dispatch/Accepted.antt =====
-- Nothing that was accepted is forgotten.
use projeto_bruxo.Base.{
  ℕ, ◌+◌, ◌≤◌, ◌≡◌, refl, sym, ap, ◌∙◌, List, [], ◌∷◌, ◌++◌, if_cases, length, length-append, arith,
}
use mathlib.Core.List.{append_assoc, append-nil}
use projeto_bruxo.Dispatch.{
  Tasks, Dispatcher, Step, adding, shutting, dispatching, push, add_task, add_tasks, shutdown,
  execute, run_task, is_running, has_expired, is_terminated, dispatch_of, dispatch, step, run,
}

pub record Extends (d e : Dispatcher) : Type 0 where
  pub new : List ℕ
  pub more : e.accepted ≡ d.accepted ++ new

pub Extends-length : (d e : Dispatcher) → Extends d e → length d.accepted ≤ length e.accepted
Extends-length d e x =
    let sum : length e.accepted ≡ length d.accepted + length x.new =
      ap length x.more ∙ length-append d.accepted x.new in
    omega (sum, arith)

Extends-refl : (d : Dispatcher) → Extends d d
Extends-refl d = record { new = []; more = sym (append-nil d.accepted) }

Extends-trans : (d e f : Dispatcher) → Extends d e → Extends e f → Extends d f
Extends-trans d e f x y = record {
  new = x.new ++ y.new;
  more = y.more ∙ ap (λ l. l ++ y.new) x.more ∙ append_assoc d.accepted x.new y.new;
}

pub add_task-Extends : (t : ℕ) (d : Dispatcher) → Extends d (add_task t d)
unfolding add_task push
add_task-Extends t d =
    if_cases (λ (e : Dispatcher). Extends d e) (is_running d.state)
      (λ _. record { new = t ∷ []; more = refl })
      (λ _. record { new = []; more = sym (append-nil d.accepted) })

add_tasks-Extends : (ts : List ℕ) (d : Dispatcher) → Extends d (add_tasks ts d)
unfolding add_tasks
add_tasks-Extends [] d = Extends-refl d
add_tasks-Extends (t ∷ ts) d =
    Extends-trans d (add_task t d) _ (add_task-Extends t d) (add_tasks-Extends ts (add_task t d))

execute-Extends :
    (env : Tasks) (t : ℕ) (d e : Dispatcher) → e.accepted ≡ d.accepted → Extends d (execute env t e)
unfolding execute
execute-Extends env t d e same =
    let k = add_tasks-Extends (env.adds t) e in
    if_cases (λ (e : Dispatcher). Extends d e) (env.ends t)
      (λ _. record { new = k.new; more = k.more ∙ ap (λ l. l ++ k.new) same })
      (λ _. record { new = k.new; more = k.more ∙ ap (λ l. l ++ k.new) same })

dispatch_of-Extends :
    (env : Tasks) (ts : List ℕ) (d : Dispatcher) → Extends d (dispatch_of ts env d)
unfolding dispatch_of run_task
dispatch_of-Extends env [] d =
    if_cases (λ (e : Dispatcher). Extends d e) (is_terminated d.state) (λ _. Extends-refl d)
      (λ _. record { new = []; more = sym (append-nil d.accepted) })
dispatch_of-Extends env (t ∷ ts) d =
    if_cases (λ (e : Dispatcher). Extends d e) (has_expired env t)
      (λ _. record { new = []; more = sym (append-nil d.accepted) })
      (λ _. execute-Extends env t d _ refl)

pub step-Extends : (env : Tasks) (s : Step) (d : Dispatcher) → Extends d (step env s d)
unfolding step shutdown push dispatch
step-Extends env (adding t) d = add_task-Extends t d
step-Extends env (shutting t) d = record { new = t ∷ []; more = refl }
step-Extends env dispatching d = dispatch_of-Extends env d.tmp_task_list d

pub run-Extends : (env : Tasks) (ss : List Step) (d : Dispatcher) → Extends d (run env ss d)
unfolding run
run-Extends env [] d = Extends-refl d
run-Extends env (s ∷ ss) d =
    Extends-trans d (step env s d) _ (step-Extends env s d) (run-Extends env ss (step env s d))
