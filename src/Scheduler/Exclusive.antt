-- ===== src/Scheduler/Exclusive.antt =====
-- src/crawler/scheduler.rs: that no target is crawled by two tasks at a time.
use community_search.Base.{
  ℕ, ◌+◌, ◌≤◌, ◌≡◌, refl, sym, subst, ap, ◌∙◌, inl, inr, Bool, true, false, not, Bool-cases, List,
  [], ◌∷◌, ◌++◌, count_if, count_if-append, retain, Text, eq_text, eq_text_iff, leb, if-cases,
  if◌then◌else◌, arith,
}
use community_search.Crawler.Driver.{visited_contains}
use community_search.Scheduler.{
  CrawlTarget, Collection, DueTarget, Task, Scheduler, start_task, dispatch, tick_once,
  check_capacity, end_task, Step, ticks, succeeds, fails, edits, Steps, none_yet, then_step,
  fresh_scheduler,
}

-- How many tasks crawl a target, and how often its id is in `running`.
abbrev pub tasks_of : Text → List Task → ℕ
tasks_of id = count_if (λ (t : Task). eq_text t.target.id id)

abbrev pub times_in : Text → List Text → ℕ
times_in id = count_if (λ r. eq_text r id)

-- That a target has as many tasks as entries in `running`, and at most one.
pub record IsExclusive (s : Scheduler) (id : Text) : Type 0 where
  pub tracked : tasks_of id s.tasks ≡ times_in id s.running
  pub at_most_one : times_in id s.running ≤ 1

times_in-contains :
    (id : Text) (rs : List Text) → visited_contains id rs ≡ false → times_in id rs ≡ 0
unfolding visited_contains
times_in-contains id [] h = refl
times_in-contains id (r ∷ rs) h = ground (arith, h, times_in-contains id rs)

-- `running.remove`
times_in-retain_self :
    (id : Text) (rs : List Text) → times_in id (retain (λ r. not (eq_text r id)) rs) ≡ 0
times_in-retain_self id [] = refl
times_in-retain_self id (r ∷ rs) = ground (arith, times_in-retain_self id rs)

eq_text-false :
    (r id other : Text) → eq_text id other ≡ false → eq_text r id ≡ true → eq_text r other ≡ false
eq_text-false r id other h e = subst (λ x. eq_text x other ≡ false) (sym ((eq_text_iff r id).0 e)) h

times_in-retain_other :
    (id other : Text) (rs : List Text)
    → eq_text id other ≡ false
    → times_in other (retain (λ r. not (eq_text r id)) rs) ≡ times_in other rs
times_in-retain_other id other [] h = refl
times_in-retain_other id other (r ∷ rs) h =
    ground (arith, times_in-retain_other id other rs h, eq_text-false r id other h)

pub start_task-IsExclusive :
    (now : ℕ) (t : DueTarget) (s : Scheduler) (id : Text)
    → IsExclusive s id
    → IsExclusive (start_task now t s) id
unfolding start_task
start_task-IsExclusive now t s id h =
    if-cases (λ (s1 : Scheduler). IsExclusive s1 id) (visited_contains t.id s.running) (λ _. h)
      (λ e.
        let absent : eq_text t.id id ≡ true → times_in id s.running ≡ 0 = λ k.
          subst (λ x. times_in x s.running ≡ 0) ((eq_text_iff t.id id).0 k)
            (times_in-contains t.id s.running e) in
        record {
          tracked =
              count_if-append (λ (t : Task). eq_text t.target.id id) s.tasks _
              ∙ ground (arith, h.tracked);
          at_most_one = ground (arith, absent, h.at_most_one);
        })

pub dispatch-IsExclusive :
    (now : ℕ) (ts : List DueTarget) (s : Scheduler) (id : Text)
    → IsExclusive s id
    → IsExclusive (dispatch now ts s) id
unfolding dispatch
dispatch-IsExclusive now [] s id h = h
dispatch-IsExclusive now (t ∷ ts) s id h =
    dispatch-IsExclusive now ts _ id (start_task-IsExclusive now t s id h)

tasks_of-split :
    (id : Text) (before after : List Task) (t : Task)
    → tasks_of id (before ++ t ∷ after)
      ≡ (if eq_text t.target.id id then 1 else 0) + tasks_of id (before ++ after)
tasks_of-split id before after t =
    let p : Task → Bool = λ t. eq_text t.target.id id in
    ground (arith, count_if-append p before (t ∷ after), count_if-append p before after)

end_task-IsExclusive :
    (cts : List CrawlTarget) (before after : List Task) (t : Task) (s : Scheduler) (id : Text)
    → s.tasks ≡ before ++ t ∷ after
    → IsExclusive s id
    → IsExclusive (end_task t.target.id cts (before ++ after) s) id
unfolding end_task
end_task-IsExclusive cts before after t s id e h =
    let split = ap (tasks_of id) e ∙ tasks_of-split id before after t in
    elim (Bool-cases (eq_text t.target.id id)) [
      | inl same ↦
          (let alone : tasks_of id (before ++ after) ≡ 0 =
              ground (arith, same, split, h.tracked, h.at_most_one) in
            let none_left : times_in id (retain (λ r. not (eq_text r t.target.id)) s.running) ≡ 0 =
              subst (λ x. times_in x (retain (λ r. not (eq_text r t.target.id)) s.running) ≡ 0)
                ((eq_text_iff t.target.id id).0 same)
                (times_in-retain_self t.target.id s.running) in
            record { tracked = alone ∙ sym none_left; at_most_one = omega (arith, none_left) })
      | inr other ↦
          (let kept = times_in-retain_other t.target.id id s.running other in
            record {
              tracked = ground (arith, other, split, h.tracked, kept);
              at_most_one = omega (arith, kept, h.at_most_one);
            })
    ]

tick_once-IsExclusive :
    (paused : Bool) (used max_index_bytes now : ℕ) (s : Scheduler) (id : Text)
    → IsExclusive s id
    → IsExclusive (tick_once paused used max_index_bytes now s) id
unfolding tick_once check_capacity
tick_once-IsExclusive paused used max_index_bytes now s id h =
    if-cases (λ (s1 : Scheduler). IsExclusive s1 id) paused (λ _. h)
      (λ _. elim (Bool-cases (leb max_index_bytes used)) [
        | inl full ↦ rw full h
        | inr room ↦ rw room (dispatch-IsExclusive now _ s id h)
      ])

Step-IsExclusive : (s t : Scheduler) (id : Text) → Step s t → IsExclusive s id → IsExclusive t id
Step-IsExclusive _ _ id (ticks paused used max_index_bytes now s) h =
    tick_once-IsExclusive paused used max_index_bytes now s id h
Step-IsExclusive _ _ id (succeeds s before after t e) h =
    end_task-IsExclusive _ before after t s id e h
Step-IsExclusive _ _ id (fails s before after t e) h =
    end_task-IsExclusive _ before after t s id e h
Step-IsExclusive _ _ id (edits s collections targets) h = record {
  tracked = h.tracked;
  at_most_one = h.at_most_one;
}

Steps-IsExclusive : (s t : Scheduler) (id : Text) → Steps s t → IsExclusive s id → IsExclusive t id
Steps-IsExclusive _ _ id (none_yet s) h = h
Steps-IsExclusive _ _ id (then_step s t u steps step) h =
    Step-IsExclusive t u id step (Steps-IsExclusive s t id steps h)

-- From a start at which nothing runs, through any sequence of ticks, ends of tasks with and without
-- success, and edits of the tables, no target is ever crawled by two tasks, and it is in `running`
-- exactly when a task crawls it.
pub reachable-IsExclusive :
    (collections : List Collection) (targets : List CrawlTarget) (s : Scheduler) (id : Text)
    → Steps (fresh_scheduler collections targets) s
    → IsExclusive s id
reachable-IsExclusive collections targets s id steps =
    Steps-IsExclusive (fresh_scheduler collections targets) s id steps
      (record { tracked = refl; at_most_one = omega arith })
