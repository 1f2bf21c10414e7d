-- ===== src/Inbound/Queue/Progress.antt =====
-- What holds of every chat that the dispatcher reaches.
use wazzap_agent_go.Prelude.{
  ℕ, ◌≤◌, ◌≡◌, ◌⊎◌, inl, inr, Bool, true, false, take, some, Bool-cases, arith,
}
use wazzap_agent_go.Inbound.Queue.{
  ChatQueue, turn, judgment, is_nil, batch_size, start_turn, start_judgment,
}
use wazzap_agent_go.Inbound.Queue.Turns.{runs, reads}
use wazzap_agent_go.Inbound.Queue.Judgments.{judges}
use wazzap_agent_go.Inbound.Queue.System.{Chat, Reaches, total}
use wazzap_agent_go.Inbound.Queue.Inbox.{inbox_of, Reaches-IsRemembered}
use wazzap_agent_go.Inbound.Queue.Sound.{Reaches-IsSound}

start_turn-current :
    (cap : ℕ) (q : ChatQueue)
    → q.running ≡ false
    → is_nil q.pending ≡ false
    → (start_turn false cap q.timer_seq q).started
      ≡ some (turn (take (batch_size false cap q) q.pending))
unfolding start_turn
start_turn-current cap q r p = ground arith

start_judgment-current :
    (cap : ℕ) (q : ChatQueue)
    → is_nil q.judging ≡ true
    → is_nil q.awaiting ≡ false
    → (start_judgment false cap q.judge_seq q).started ≡ some (judgment q.awaiting)
unfolding start_judgment
start_judgment-current cap q n a = ground arith

module _ (cap : ℕ) (is_command : ℕ → Bool) (c : Chat) (reached : Reaches cap is_command c) where
  -- At most one goroutine at a time runs a turn or reads the inbox for a chat, and at most one
  -- judges a burst of it, for every order of the sections of its queue.
  pub one_at_a_time : (total runs c.tasks ≤ 1) × (total judges c.tasks ≤ 1)
  one_at_a_time =
      let s = Reaches-IsSound cap is_command c reached in
      let turns = s.turns in let judgments = s.judgments in (ground arith, ground arith)

  -- While the dispatcher runs, a chat with a message in its queue has one turn or refill running, or
  -- its current timer is set and the timer's callback starts a turn with the oldest messages.
  pub waiting_is_served :
      c.cancelled ≡ false
      → is_nil c.queue.pending ≡ false
      → (total runs c.tasks ≡ 1)
        ⊎ ((c.queue.timer ≡ some c.queue.timer_seq)
            × ((start_turn false cap c.queue.timer_seq c.queue).started
                ≡ some (turn (take (batch_size false cap c.queue) c.queue.pending))))
  waiting_is_served on p =
      let s = Reaches-IsSound cap is_command c reached in
      let turns = s.turns in
      elim s.live.awake [
        | inl over ↦ absurd (ground arith)
        | inr (inl empty) ↦ absurd (ground arith)
        | inr (inr (inl r)) ↦ inl (ground arith)
        | inr (inr (inr t)) ↦
            inr (t, start_turn-current cap c.queue (let timed = s.live.timed in ground arith) p)
      ]

  -- While the dispatcher runs, a chat with a message held for the judge has one judgment running, or
  -- its current judge timer is set and the timer's callback starts a judgment of all that is held.
  pub held_is_judged :
      c.cancelled ≡ false
      → is_nil c.queue.awaiting ≡ false
      → (total judges c.tasks ≡ 1)
        ⊎ ((c.queue.judge_timer ≡ some c.queue.judge_seq)
            × ((start_judgment false cap c.queue.judge_seq c.queue).started
                ≡ some (judgment c.queue.awaiting))
            × (total judges c.tasks ≡ 0))
  held_is_judged on a =
      let s = Reaches-IsSound cap is_command c reached in
      let judgments = s.judgments in
      let quiet = is_nil c.queue.judging in
      elim (Bool-cases quiet) [
        | inr busy_judge ↦ inl (ground arith)
        | inl n ↦ elim s.judged [
          | inl over ↦ absurd (ground arith)
          | inr (inl empty) ↦ absurd (ground arith)
          | inr (inr (inl b)) ↦ absurd (ground arith)
          | inr (inr (inr t)) ↦ inr (t, start_judgment-current cap c.queue n a, ground arith)
        ]
      ]

  -- While the dispatcher runs and no read of the inbox failed, a message that was left in the inbox
  -- because the queue was full can be given by a read that is running, or the queue remembers that
  -- one was left, and a turn or another read is running, or a message is in the queue, or a command
  -- is not over; otherwise nothing was left.
  pub left_is_read :
      c.cancelled ≡ false
      → (inbox_of cap is_command c reached).abandoned ≡ false
      → ((inbox_of cap is_command c reached).unread ≡ false)
          × ((inbox_of cap is_command c reached).being_read ≡ false)
        ⊎ (total reads c.tasks ≡ 1)
        ⊎ (c.queue.overflow ≡ true)
          × ((total runs c.tasks ≡ 1) ⊎ (is_nil c.queue.pending ≡ false) ⊎ (1 ≤ c.queue.users))
  left_is_read on sound =
      let s = Reaches-IsSound cap is_command c reached in
      let turns = s.turns in
      let refills = s.refills in
      let reread = s.live.reread in
      let remembered = Reaches-IsRemembered cap is_command c reached in ground arith
