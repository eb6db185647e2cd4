-- ===== src/Scheduler/Dispatch.antt =====
-- src/crawler/scheduler.rs: that a tick starts what is due.
use community_search.Base.{
  ℕ, ◌≤◌, ◌<◌, ◌≡◌, sym, subst, true, false, List, [], ◌∷◌, All, All-map, count_if-append, Text,
  eq_text, eq_text_self, leb, if-cases, arith,
}
use community_search.Crawler.Driver.{visited_contains}
use community_search.Scheduler.{
  CrawlTarget, Collection, DueTarget, Task, Scheduler, start_task, dispatch, tick_once,
  check_capacity, list_due_targets, Steps, fresh_scheduler,
}
use community_search.Scheduler.Exclusive.{
  tasks_of, times_in, IsExclusive, start_task-IsExclusive, dispatch-IsExclusive,
  reachable-IsExclusive,
}

times_in-visited : (id : Text) (rs : List Text) → visited_contains id rs ≡ true → 1 ≤ times_in id rs
unfolding visited_contains
times_in-visited id [] h = cc
times_in-visited id (r ∷ rs) h = ground (arith, h, times_in-visited id rs)

start_task-runs :
    (now : ℕ) (t : DueTarget) (s : Scheduler)
    → IsExclusive s t.id
    → 1 ≤ tasks_of t.id (start_task now t s).tasks
unfolding start_task
start_task-runs now t s h =
    if-cases (λ (s1 : Scheduler). 1 ≤ tasks_of t.id s1.tasks) (visited_contains t.id s.running)
      (λ e. omega (arith, h.tracked, times_in-visited t.id s.running e))
      (λ _.
        subst (λ n. 1 ≤ n)
          (sym (count_if-append (λ (t1 : Task). eq_text t1.target.id t.id) s.tasks _))
          (ground (arith, eq_text_self t.id)))

start_task-keeps :
    (now : ℕ) (t : DueTarget) (s : Scheduler) (id : Text)
    → tasks_of id s.tasks ≤ tasks_of id (start_task now t s).tasks
unfolding start_task
start_task-keeps now t s id =
    if-cases (λ (s1 : Scheduler). tasks_of id s.tasks ≤ tasks_of id s1.tasks)
      (visited_contains t.id s.running) (λ _. omega arith)
      (λ _.
        subst (λ n. tasks_of id s.tasks ≤ n)
          (sym (count_if-append (λ (t1 : Task). eq_text t1.target.id id) s.tasks _)) (omega arith))

dispatch-keeps :
    (now : ℕ) (ts : List DueTarget) (s : Scheduler) (id : Text)
    → tasks_of id s.tasks ≤ tasks_of id (dispatch now ts s).tasks
unfolding dispatch
dispatch-keeps now [] s id = omega arith
dispatch-keeps now (t ∷ ts) s id =
    omega (arith, start_task-keeps now t s id, dispatch-keeps now ts (start_task now t s) id)

dispatch-runs :
    (now : ℕ) (ts : List DueTarget) (s : Scheduler)
    → ((id : Text) → IsExclusive s id)
    → All (λ (t : DueTarget). 1 ≤ tasks_of t.id (dispatch now ts s).tasks) ts
unfolding dispatch
dispatch-runs now [] s h = _
dispatch-runs now (t ∷ ts) s h = (
  omega (arith, start_task-runs now t s (h t.id), dispatch-keeps now ts (start_task now t s) t.id),
  dispatch-runs now ts (start_task now t s) (λ id. start_task-IsExclusive now t s id (h id)),
)

dispatch-once :
    (now : ℕ) (ts : List DueTarget) (s : Scheduler)
    → ((id : Text) → IsExclusive s id)
    → All (λ (t : DueTarget). tasks_of t.id (dispatch now ts s).tasks ≡ 1) ts
dispatch-once now ts s h =
    All-map ts
      (λ t k.
        let after = dispatch-IsExclusive now ts s t.id (h t.id) in
        omega (arith, k, after.tracked, after.at_most_one))
      (dispatch-runs now ts s h)

-- A tick that is not paused, while the index has room, leaves exactly one task for each target that
-- is due, wherever the scheduler stands after its start.
pub tick-dispatches :
    (collections : List Collection) (targets : List CrawlTarget) (s : Scheduler)
    (used max_index_bytes now : ℕ)
    → Steps (fresh_scheduler collections targets) s
    → used < max_index_bytes
    → All
        (λ (t : DueTarget). tasks_of t.id (tick_once false used max_index_bytes now s).tasks ≡ 1)
        (list_due_targets now s.collections s.targets)
unfolding tick_once check_capacity
tick-dispatches collections targets s used max_index_bytes now steps h =
    let room : leb max_index_bytes used ≡ false = ground (arith, h) in
    let exclusive : (id : Text) → IsExclusive s id =
      λ id. reachable-IsExclusive collections targets s id steps in
    rw room (dispatch-once now (list_due_targets now s.collections s.targets) s exclusive)
