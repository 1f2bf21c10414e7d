-- ===== src/Tests/Inbound.antt =====
-- The queue of a chat at concrete arrivals.
use wazzap_agent_go.Prelude.{ℕ, zero, suc, ◌≤◌, ◌≡◌, ◌⊎◌, refl, Bool, true, false, [], take, some}
use wazzap_agent_go.Inbound.Queue.{
  turn, judgment, new_queue, is_nil, batch_size, enqueue, start_turn, await_judgment,
  schedule_judgment, start_judgment,
}
use wazzap_agent_go.Inbound.Queue.Turns.{runs, reads}
use wazzap_agent_go.Inbound.Queue.Judgments.{judges}
use wazzap_agent_go.Inbound.Queue.System.{
  Chat, new_chat, after, arrives, held, turn_timer, Reaches, new, next, total,
}
use wazzap_agent_go.Inbound.Queue.Inbox.{inbox_of, follow}
use wazzap_agent_go.Inbound.Queue.Progress.{
  one_at_a_time, waiting_is_served, held_is_judged, left_is_read,
}

abbrev no_command : ℕ → Bool
no_command _ = false

abbrev arrived : Chat
arrived = record new_chat { queue = enqueue false 4 7 new_queue }

abbrev turning : Chat
turning = after false [] (start_turn false 4 1 arrived.queue)

abbrev holding : Chat
holding = record new_chat { queue = await_judgment false 4 7 new_queue }

arrived-Reaches : Reaches 4 no_command arrived
arrived-Reaches = next new (arrives 7)

turning-Reaches : Reaches 4 no_command turning
turning-Reaches = next arrived-Reaches (turn_timer 1)

holding-Reaches : Reaches 4 no_command holding
holding-Reaches = next new (held 7)

one_at_a_time_example : (total runs turning.tasks ≤ 1) × (total judges turning.tasks ≤ 1)
one_at_a_time_example = one_at_a_time 4 no_command turning turning-Reaches

waiting_is_served_example :
    (total runs [] ≡ 1)
    ⊎ ((arrived.queue.timer ≡ some arrived.queue.timer_seq)
        × ((start_turn false 4 arrived.queue.timer_seq arrived.queue).started
            ≡ some (turn (take (batch_size false 4 arrived.queue) arrived.queue.pending))))
unfolding enqueue
waiting_is_served_example = waiting_is_served 4 no_command arrived arrived-Reaches refl refl

held_is_judged_example :
    (total judges [] ≡ 1)
    ⊎ ((holding.queue.judge_timer ≡ some holding.queue.judge_seq)
        × ((start_judgment false 4 holding.queue.judge_seq holding.queue).started
            ≡ some (judgment holding.queue.awaiting))
        × (total judges [] ≡ 0))
unfolding await_judgment schedule_judgment
held_is_judged_example = held_is_judged 4 no_command holding holding-Reaches refl refl

-- A chat in which more messages arrive than its queue holds.
filled : ℕ → Chat
filled zero = new_chat
filled (suc n) =
    let before = filled n in record before { queue = enqueue before.cancelled 4 n before.queue }

filled-Reaches : (n : ℕ) → Reaches 4 no_command (filled n)
unfolding filled
filled-Reaches zero = new
filled-Reaches (suc n) = next (filled-Reaches n) (arrives n)

filled_on : (n : ℕ) → (filled n).cancelled ≡ false
unfolding filled
filled_on zero = refl
filled_on (suc n) = filled_on n

filled_sound : (n : ℕ) → (inbox_of 4 no_command (filled n) (filled-Reaches n)).abandoned ≡ false
unfolding filled filled-Reaches inbox_of follow
filled_sound zero = refl
filled_sound (suc n) = filled_sound n

left_is_read_example :
    ((inbox_of 4 no_command (filled 257) (filled-Reaches 257)).unread ≡ false)
      × ((inbox_of 4 no_command (filled 257) (filled-Reaches 257)).being_read ≡ false)
    ⊎ (total reads (filled 257).tasks ≡ 1)
    ⊎ ((filled 257).queue.overflow ≡ true)
      × ((total runs (filled 257).tasks ≡ 1)
          ⊎ (is_nil (filled 257).queue.pending ≡ false)
          ⊎ (1 ≤ (filled 257).queue.users))
left_is_read_example =
    left_is_read 4 no_command (filled 257) (filled-Reaches 257) (filled_on 257) (filled_sound 257)
