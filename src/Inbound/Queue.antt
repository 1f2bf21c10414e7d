-- ===== src/Inbound/Queue.antt =====
-- internal/inbound/dispatcher.go: the queue of one chat, one section under the dispatcher's mutex at
-- a time. A message is its invocation ID. A timer is the sequence number it was started with: its
-- callback may run late, when a newer timer replaced it.
pub mod Turns
pub mod Endings
pub mod Judgments
pub mod System
pub mod Sound
pub mod Inbox
pub mod Progress
use wazzap_agent_go.Prelude.{
  ℕ, suc, ◌+◌, ◌-◌, u64, Bool, true, false, not, ◌&&◌, ◌||◌, ◌==◌, leb, ltb, if◌then◌else◌, List,
  [], ◌∷◌, ◌++◌, any, length, take, drop, Option, none, some,
}

pub record ChatQueue : Type 0 where
  pub users : ℕ
  pub pending : List ℕ
  pub overflow : Bool
  pub refilling : Bool
  pub timer : Option ℕ
  pub timer_seq : ℕ
  pub running : Bool
  pub retries : ℕ
  pub awaiting : List ℕ
  pub judging : List ℕ
  pub judge_timer : Option ℕ
  pub judge_seq : ℕ

-- A queue that was just created.
abbrev pub new_queue : ChatQueue
new_queue = record {
  users = 0;
  pending = [];
  overflow = false;
  refilling = false;
  timer = none;
  timer_seq = 0;
  running = false;
  retries = 0;
  awaiting = [];
  judging = [];
  judge_timer = none;
  judge_seq = 0;
}

abbrev pub is_nil : List ℕ → Bool
is_nil [] = true
is_nil (_ ∷ _) = false

abbrev pub is_set : Option ℕ → Bool
is_set none = false
is_set (some _) = true

abbrev pub holds : List ℕ → ℕ → Bool
holds ids id = any (λ other. id == other) ids

abbrev pub idle : ChatQueue → Bool
idle q =
    q.users == 0
    && not q.running
    && not (is_set q.timer)
    && is_nil q.pending
    && not (is_set q.judge_timer)
    && is_nil q.awaiting
    && is_nil q.judging

abbrev pub judged_here : ChatQueue → ℕ → Bool
judged_here q id = holds q.awaiting id || holds q.judging id

abbrev pub max_pending : ℕ
max_pending = 256

abbrev pub max_generation_retries : ℕ
max_generation_retries = 2

-- What a section leaves behind: the queue, and the goroutine that it starts.
pub data Task : Type 0 where
  turn : List ℕ → Task
  refill : Task
  judgment : List ℕ → Task

pub record Left : Type 0 where
  pub queue : ChatQueue
  pub started : Option Task

abbrev pub only : ChatQueue → Left
only q = record { queue = q; started = none }

-- The end of Run, of one queue.
abbrev pub stop_timers : ChatQueue → ChatQueue
stop_timers q = record q { timer = none; judge_timer = none }

-- `cancelled` is whether the dispatcher's context is over, and `burst_cap` the option of that name.
module _ (cancelled : Bool) (burst_cap : ℕ) where
  abbrev pub schedule : ChatQueue → ChatQueue
  schedule q = record q {
    timer = if cancelled then none else some (u64 (suc q.timer_seq));
    timer_seq = u64 (suc q.timer_seq);
  }

  -- The last section of admitAI.
  unfoldable pub enqueue : ℕ → ChatQueue → ChatQueue
  enqueue id q =
      if holds q.pending id
      then q
      else if q.overflow || q.refilling || leb max_pending (length q.pending)
      then record q { overflow = true }
      else if q.running
      then record q { pending = q.pending ++ id ∷ [] }
      else schedule (record q { pending = q.pending ++ id ∷ [] })

  -- The smaller of two lengths.
  abbrev pub batch_size : ChatQueue → ℕ
  batch_size q = if leb (length q.pending) burst_cap then length q.pending else burst_cap

  -- The callback of a turn's timer.
  unfoldable pub start_turn : ℕ → ChatQueue → Left
  start_turn seq q =
      if not (seq == q.timer_seq)
      then only q
      else if q.running || is_nil q.pending || cancelled
      then only (record q { timer = none })
      else record {
        queue = record q { timer = none; pending = drop (batch_size q) q.pending; running = true };
        started = some (turn (take (batch_size q) q.pending));
      }

  abbrev pub start_refill : ChatQueue → Left
  start_refill q = record {
    queue = record q { running = true; refilling = true };
    started = some refill;
  }

  -- A turn that failed is run again, a few times.
  abbrev pub runs_again : Bool → List ℕ → ChatQueue → Bool
  runs_again failed redo q =
      failed && not (is_nil redo) && not cancelled && ltb q.retries max_generation_retries

  abbrev pub requeued : Bool → List ℕ → List ℕ → ChatQueue → ChatQueue
  requeued failed rest redo q =
      if runs_again failed redo q
      then record q {
        running = false;
        retries = suc q.retries;
        pending = (redo ++ rest) ++ q.pending;
      }
      else record q { running = false; retries = 0; pending = rest ++ q.pending }

  -- What follows once the messages that a turn left are back in the queue.
  unfoldable pub after_turn : ChatQueue → Left
  after_turn q =
      if is_nil q.pending && q.overflow && not cancelled
      then start_refill (record q { overflow = false })
      else if not (is_nil q.pending)
      then only (schedule q)
      else only q

  -- The end of a turn, with what runTurn returned.
  unfoldable pub finish_turn : Bool → List ℕ → List ℕ → ChatQueue → Left
  unfolding after_turn
  finish_turn failed rest redo q = after_turn (requeued failed rest redo q)

  module _ (is_command : ℕ → Bool) where
    -- The messages of a page that wait for a turn: no commands, and none held for the judge.
    unfoldable pub queueable : ChatQueue → List ℕ → List ℕ
    queueable q [] = []
    queueable q (id ∷ ids) =
        let rest = queueable q ids in if is_command id || judged_here q id then rest else id ∷ rest

    abbrev pub refilled : List ℕ → ChatQueue → ChatQueue
    refilled page q = record q {
      running = false;
      refilling = false;
      overflow = length page == max_pending;
      pending = q.pending ++ queueable q page;
    }

    -- What follows a read of the inbox; `missed` is whether an arrival was left there meanwhile.
    unfoldable pub after_refill : Bool → Bool → ChatQueue → Left
    after_refill failed missed q =
        if not (is_nil q.pending)
        then only (schedule (record q { overflow = q.overflow || missed }))
        else if failed || cancelled
        then only (record q { overflow = false })
        else if missed || (q.overflow && q.users == 0)
        then start_refill q
        else only q

    -- The end of a refill, with the page that readInbox gave.
    unfoldable pub finish_refill : Bool → List ℕ → ChatQueue → Left
    unfolding after_refill queueable
    finish_refill failed page q = after_refill failed q.overflow (refilled page q)

  -- The sections of runCommand around the command.
  abbrev pub start_command : ChatQueue → ChatQueue
  start_command q = record q { users = suc q.users }

  -- The last command to finish reads back what was left in the inbox, when nothing else will.
  abbrev pub must_reread : ChatQueue → Bool
  must_reread q =
      q.overflow
      && q.users == 0
      && not q.running
      && not (is_set q.timer)
      && is_nil q.pending
      && not cancelled

  unfoldable pub finish_command : ChatQueue → Left
  finish_command q =
      let q' = record q { users = q.users - 1 } in
      if must_reread q' then start_refill q' else only q'

  unfoldable pub schedule_judgment : ChatQueue → ChatQueue
  schedule_judgment q = record q {
    judge_timer = if cancelled then none else some (u64 (suc q.judge_seq));
    judge_seq = u64 (suc q.judge_seq);
  }

  unfoldable pub await_judgment : ℕ → ChatQueue → ChatQueue
  unfolding schedule_judgment
  await_judgment id q =
      if judged_here q id
      then q
      else if is_nil q.judging
      then schedule_judgment (record q { awaiting = q.awaiting ++ id ∷ [] })
      else record q { awaiting = q.awaiting ++ id ∷ [] }

  -- The callback of a judgment's timer.
  unfoldable pub start_judgment : ℕ → ChatQueue → Left
  start_judgment seq q =
      if not (seq == q.judge_seq)
      then only q
      else if not (is_nil q.judging) || is_nil q.awaiting || cancelled
      then only (record q { judge_timer = none })
      else record {
        queue = record q { judge_timer = none; judging = q.awaiting; awaiting = [] };
        started = some (judgment q.awaiting);
      }

  unfoldable pub finish_judgment : ChatQueue → ChatQueue
  unfolding schedule_judgment
  finish_judgment q =
      let q' = record q { judging = [] } in
      if not (is_nil q'.awaiting) then schedule_judgment q' else q'
