-- ===== src/Inbound/Queue/System.antt =====
-- The queue of one chat as a system: arrivals, timers, commands and the end of what was started, in
-- any order. A timer's callback may run at any time and with any sequence number.
use wazzap_agent_go.Prelude.{
  ℕ, ◌+◌, ◌≤◌, ◌≡◌, refl, Bool, true, false, List, [], ◌∷◌, ◌++◌, Option, none, some, arith,
}
use wazzap_agent_go.Inbound.Queue.{
  ChatQueue, Task, turn, refill, judgment, Left, new_queue, enqueue, start_turn, finish_turn,
  finish_refill, start_command, finish_command, await_judgment, start_judgment, finish_judgment,
  stop_timers,
}
use wazzap_agent_go.Inbound.Queue.Turns.{IsLive, busy, runs, reading, reads}
use wazzap_agent_go.Inbound.Queue.Judgments.{IsJudged, judging, judges}

-- The queue, whether the dispatcher's context is over, and the goroutines that run for the chat.
pub record Chat : Type 0 where
  pub queue : ChatQueue
  pub cancelled : Bool
  pub tasks : List Task

abbrev pub new_chat : Chat
new_chat = record { queue = new_queue; cancelled = false; tasks = [] }

abbrev pub start : Option Task → List Task → List Task
start none tasks = tasks
start (some task) tasks = task ∷ tasks

abbrev pub after : Bool → List Task → Left → Chat
after cancelled tasks left = record {
  queue = left.queue;
  cancelled = cancelled;
  tasks = start left.started tasks;
}

module _ (burst_cap : ℕ) (is_command : ℕ → Bool) where
  -- One section of the dispatcher under its mutex.
  pub data Section (c : Chat) : Chat → Type 0 where
    arrives : (id : ℕ) → Section c (record c { queue = enqueue c.cancelled burst_cap id c.queue })
    held :
        (id : ℕ) → Section c (record c { queue = await_judgment c.cancelled burst_cap id c.queue })
    turn_timer :
        (seq : ℕ)
        → Section c (after c.cancelled c.tasks (start_turn c.cancelled burst_cap seq c.queue))
    judge_timer :
        (seq : ℕ)
        → Section c (after c.cancelled c.tasks (start_judgment c.cancelled burst_cap seq c.queue))
    turn_ends :
        (before rest_tasks : List Task) (batch : List ℕ) (failed : Bool) (rest redo : List ℕ)
        → c.tasks ≡ before ++ turn batch ∷ rest_tasks
        → Section c (
            after c.cancelled
              (before ++ rest_tasks)
              (finish_turn c.cancelled burst_cap failed rest redo c.queue))
    refill_ends :
        (before rest_tasks : List Task) (failed : Bool) (page : List ℕ)
        → c.tasks ≡ before ++ refill ∷ rest_tasks
        → Section c (
            after c.cancelled
              (before ++ rest_tasks)
              (finish_refill c.cancelled burst_cap is_command failed page c.queue))
    judgment_ends :
        (before rest_tasks : List Task) (burst : List ℕ)
        → c.tasks ≡ before ++ judgment burst ∷ rest_tasks
        → Section c (record {
          queue = finish_judgment c.cancelled burst_cap c.queue;
          cancelled = c.cancelled;
          tasks = before ++ rest_tasks;
        })
    command_starts : Section c (record c { queue = start_command c.cancelled burst_cap c.queue })
    command_ends :
        1 ≤ c.queue.users
        → Section c (after c.cancelled c.tasks (finish_command c.cancelled burst_cap c.queue))
    cancel : Section c (record c { cancelled = true })
    stop : c.cancelled ≡ true → Section c (record c { queue = stop_timers c.queue })

  pub data Reaches : Chat → Type 0 where
    new : Reaches new_chat
    next : {c c' : Chat} → Reaches c → Section c c' → Reaches c'

unfoldable pub total : (Task → ℕ) → List Task → ℕ
total weight [] = 0
total weight (task ∷ tasks) = weight task + total weight tasks

pub total-append :
    (weight : Task → ℕ) (before tasks : List Task) (task : Task)
    → total weight (before ++ task ∷ tasks) ≡ weight task + total weight (before ++ tasks)
unfolding total
total-append weight [] tasks task = refl
total-append weight (other ∷ before) tasks task =
    omega (arith, total-append weight before tasks task)

-- The queue is live, and its marks say how many turns, refills and judgments run.
pub record IsSound (c : Chat) : Type 0 where
  pub live : IsLive c.cancelled c.queue
  pub judged : IsJudged c.cancelled c.queue
  pub turns : busy c.queue ≡ total runs c.tasks
  pub refills : reading c.queue ≡ total reads c.tasks
  pub judgments : judging c.queue ≡ total judges c.tasks
