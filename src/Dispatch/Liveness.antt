-- ===== src/Dispatch/Liveness.antt =====
-- Tasks that were accepted get their turn.
use projeto_bruxo.Base.{
  ℕ, suc, ◌+◌, ◌-◌, ◌<◌, ◌≤◌, ◌≡◌, refl, sym, ap, ◌∙◌, true, false, List, [], ◌∷◌, ◌++◌, leb,
  if◌then◌else◌, if_cases, length, length-append, Bool-cases, inl, inr, arith,
}
use projeto_bruxo.Dispatch.{
  Tasks, Dispatcher, Step, adding, shutting, dispatching, push, add_task, add_tasks, shutdown,
  execute, run_task, is_running, has_expired, dispatch_of, dispatch, step, run, is_terminated,
  dispatches,
}
use projeto_bruxo.Dispatch.Accepted.{Extends-length, step-Extends, run-Extends}
use projeto_bruxo.Dispatch.Order.{IsQueue, step-IsQueue, run-IsQueue}

-- Adding tasks touches the list that waits only.
record Keeps (d e : Dispatcher) : Type 0 where
  same_finished : e.finished ≡ d.finished
  same_tmp : e.tmp_task_list ≡ d.tmp_task_list
  same_state : e.state ≡ d.state

add_task-Keeps : (t : ℕ) (d : Dispatcher) → Keeps d (add_task t d)
unfolding add_task push
add_task-Keeps t d =
    if_cases (Keeps d) (is_running d.state)
      (λ _. record { same_finished = refl; same_tmp = refl; same_state = refl })
      (λ _. record { same_finished = refl; same_tmp = refl; same_state = refl })

add_tasks-Keeps : (ts : List ℕ) (d : Dispatcher) → Keeps d (add_tasks ts d)
unfolding add_tasks
add_tasks-Keeps [] d = record { same_finished = refl; same_tmp = refl; same_state = refl }
add_tasks-Keeps (t ∷ ts) d =
    let one = add_task-Keeps t d in
    let more = add_tasks-Keeps ts (add_task t d) in
    record {
      same_finished = more.same_finished ∙ one.same_finished;
      same_tmp = more.same_tmp ∙ one.same_tmp;
      same_state = more.same_state ∙ one.same_state;
    }

-- A task that had its turn, and the rest as it was; a thread that ended has not begun again.
record Runs (t : ℕ) (d e : Dispatcher) : Type 0 where
  one_more : e.finished ≡ d.finished ++ t ∷ []
  same_rest : e.tmp_task_list ≡ d.tmp_task_list
  still_ended : is_terminated d.state ≡ true → is_terminated e.state ≡ true

execute-Runs :
    (env : Tasks) (t : ℕ) (d e : Dispatcher)
    → e.finished ≡ d.finished ++ t ∷ []
    → e.tmp_task_list ≡ d.tmp_task_list
    → e.state ≡ d.state
    → Runs t d (execute env t e)
unfolding execute is_terminated
execute-Runs env t d e more rest state =
    let k = add_tasks-Keeps (env.adds t) e in
    if_cases (Runs t d) (env.ends t)
      (λ _. record {
        one_more = k.same_finished ∙ more;
        same_rest = k.same_tmp ∙ rest;
        still_ended = λ h. refl;
      })
      (λ _. record {
        one_more = k.same_finished ∙ more;
        same_rest = k.same_tmp ∙ rest;
        still_ended = λ h. ap is_terminated (k.same_state ∙ state) ∙ h;
      })

run_task-Runs : (env : Tasks) (t : ℕ) (d : Dispatcher) → Runs t d (run_task env t d)
unfolding run_task
run_task-Runs env t d =
    if_cases (Runs t d) (has_expired env t)
      (λ _. record { one_more = refl; same_rest = refl; still_ended = λ h. h })
      (λ _. execute-Runs env t d _ refl refl refl)

-- A thread that ended stays so.
dispatch_of-ended :
    (env : Tasks) (ts : List ℕ) (d : Dispatcher)
    → is_terminated d.state ≡ true
    → is_terminated (dispatch_of ts env d).state ≡ true
unfolding dispatch_of
dispatch_of-ended env [] d h =
    if_cases (λ (e : Dispatcher). is_terminated e.state ≡ true) (is_terminated d.state) (λ _. h)
      (λ _. h)
dispatch_of-ended env (t ∷ ts) d h =
    (run_task-Runs env t (record d { tmp_task_list = ts })).still_ended h

step-ended :
    (env : Tasks) (s : Step) (d : Dispatcher)
    → is_terminated d.state ≡ true
    → is_terminated (step env s d).state ≡ true
unfolding step shutdown push dispatch
step-ended env (adding t) d h = ap is_terminated (add_task-Keeps t d).same_state ∙ h
step-ended env (shutting t) d h = h
step-ended env dispatching d h = dispatch_of-ended env d.tmp_task_list d h

run-ended :
    (env : Tasks) (ss : List Step) (d : Dispatcher)
    → is_terminated d.state ≡ true
    → is_terminated (run env ss d).state ≡ true
unfolding run
run-ended env [] d h = h
run-ended env (s ∷ ss) d h = run-ended env ss (step env s d) (step-ended env s d h)

-- How many steps of the dispatcher are enough for the first `n` tasks that were accepted.
abbrev due : ℕ → Dispatcher → ℕ
due n d =
    if leb n (length d.finished)
    then 0
    else if leb n (length d.finished + length d.tmp_task_list)
    then n - length d.finished
    else suc (n - length d.finished)

dispatch_of-due :
    (env : Tasks) (ts : List ℕ) (n : ℕ) (d : Dispatcher)
    → d.tmp_task_list ≡ ts
    → n ≤ length d.finished + (length ts + length d.task_list)
    → is_terminated d.state ≡ false
    → due n (dispatch_of ts env d) ≤ due n d - 1
unfolding dispatch_of
dispatch_of-due env [] n d same most goes =
    let none : length d.tmp_task_list ≡ 0 = ap length same in rw goes (ground (none, most, arith))
dispatch_of-due env (t ∷ ts) n d same most goes =
    let runs = run_task-Runs env t (record d { tmp_task_list = ts }) in
    let some : length d.tmp_task_list ≡ suc (length ts) = ap length same in
    let more : length (run_task env t (record d { tmp_task_list = ts })).finished
        ≡ length d.finished + 1 =
      ap length runs.one_more ∙ length-append d.finished (t ∷ []) in
    let rest : length (run_task env t (record d { tmp_task_list = ts })).tmp_task_list ≡ length ts =
      ap length runs.same_rest in
    ground (some, more, rest, arith)

-- A queue holds at most what it accepted.
waiting_lem :
    (d : Dispatcher)
    → IsQueue d
    → length d.accepted ≡ length d.finished + (length d.tmp_task_list + length d.task_list)
waiting_lem d q =
    ap length q.in_order
    ∙ length-append d.finished (d.tmp_task_list ++ d.task_list)
    ∙ ap (λ n. length d.finished + n) (length-append d.tmp_task_list d.task_list)

add_task-due : (t n : ℕ) (d : Dispatcher) → due n (add_task t d) ≡ due n d
add_task-due t n d =
    let k = add_task-Keeps t d in
    let same : length (add_task t d).finished ≡ length d.finished = ap length k.same_finished in
    let rest : length (add_task t d).tmp_task_list ≡ length d.tmp_task_list =
      ap length k.same_tmp in
    ground (same, rest, arith)

-- A thread that has not ended had not before.
run-alive :
    (env : Tasks) (ss : List Step) (d : Dispatcher)
    → is_terminated (run env ss d).state ≡ false
    → is_terminated d.state ≡ false
run-alive env ss d h = elim (Bool-cases (is_terminated d.state)) [
  | inl e ↦ let ended = run-ended env ss d e in absurd (ground (ended, h, arith))
  | inr e ↦ e
]

dispatch-due :
    (env : Tasks) (n : ℕ) (d : Dispatcher)
    → IsQueue d
    → n ≤ length d.accepted
    → is_terminated d.state ≡ false
    → due n (dispatch env d) ≤ due n d - 1
unfolding dispatch
dispatch-due env n d q most goes =
    dispatch_of-due env d.tmp_task_list n d refl (omega (most, waiting_lem d q, arith)) goes

enough :
    (env : Tasks) (ss : List Step) (n : ℕ) (d : Dispatcher)
    → IsQueue d
    → n ≤ length d.accepted
    → is_terminated (run env ss d).state ≡ false
    → due n d ≤ dispatches ss
    → n ≤ length (run env ss d).finished
unfolding run dispatches step shutdown push
enough env [] n d q most goes h = ground arith
enough env (adding t ∷ ss) n d q most goes h =
    enough env ss n (add_task t d) (step-IsQueue env (adding t) d q)
      (omega (most, Extends-length d _ (step-Extends env (adding t) d), arith)) goes
      (omega (h, add_task-due t n d, arith))
enough env (shutting t ∷ ss) n d q most goes h =
    enough env ss n (shutdown t d) (step-IsQueue env (shutting t) d q)
      (omega (most, length-append d.accepted (t ∷ []), arith)) goes h
enough env (dispatching ∷ ss) n d q most goes h =
    let alive = run-alive env (dispatching ∷ ss) d goes in
    enough env ss n (dispatch env d) (step-IsQueue env dispatching d q)
      (omega (most, Extends-length d _ (step-Extends env dispatching d), arith)) goes
      (omega (dispatch-due env n d q most alive, h, arith))

-- One list that starts as another does, and is as long, starts with it.
starts_with :
    (xs new ys zs : List ℕ)
    → xs ++ new ≡ ys ++ zs
    → length xs ≤ length ys
    → (rest : List ℕ) × (ys ≡ xs ++ rest)
starts_with [] new ys zs e h = (ys, refl)
starts_with (x ∷ xs) new [] zs e h = absurd (omega arith)
starts_with (x ∷ xs) new (y ∷ ys) zs e h =
    let same : y ≡ x = cc e in
    let found = starts_with xs new ys zs (cc e) (omega arith) in (found.0, cc (same, found.1))

-- From a queue in order, and steps after which the thread has not ended, of which one more than the
-- tasks not yet finished, or more, are the dispatcher's: whatever else other threads add and the
-- tasks themselves, every task that was accepted has had its turn, in the order of acceptance.
pub run-finishes :
    (env : Tasks) (ss : List Step) (d : Dispatcher)
    → IsQueue d
    → is_terminated (run env ss d).state ≡ false
    → length d.tmp_task_list + length d.task_list < dispatches ss
    → (later : List ℕ) × ((run env ss d).finished ≡ d.accepted ++ later)
run-finishes env ss d q goes many =
    let sum = waiting_lem d q in
    let started : due (length d.accepted) d ≤ dispatches ss = ground (sum, many, arith) in
    let reached = enough env ss (length d.accepted) d q (omega arith) goes started in
    let all = run-Extends env ss d in
    let e = run env ss d in
    starts_with d.accepted all.new e.finished (e.tmp_task_list ++ e.task_list)
      (sym all.more ∙ (run-IsQueue env ss d q).in_order) reached
