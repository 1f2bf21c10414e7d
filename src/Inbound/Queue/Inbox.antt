-- ===== src/Inbound/Queue/Inbox.antt =====
-- The messages of a chat that were left in the inbox because its queue was full, followed beside the
-- queue.
use wazzap_agent_go.Prelude.{
  ℕ, ◌-◌, ◌==◌, ◌≡◌, refl, ◌⊎◌, inl, inr, Bool, true, false, not, ◌&&◌, ◌||◌, leb, if_intro, List,
  length, Option, some, arith,
}
use wazzap_agent_go.Inbound.Queue.{
  ChatQueue, Task, refill, Left, is_nil, holds, judged_here, max_pending, enqueue, start_turn,
  requeued, runs_again, after_turn, finish_turn, refilled, after_refill, finish_refill, must_reread,
  finish_command, schedule_judgment, await_judgment, start_judgment, finish_judgment,
}
use wazzap_agent_go.Inbound.Queue.System.{
  Chat, Section, arrives, held, turn_timer, judge_timer, turn_ends, refill_ends, judgment_ends,
  command_starts, command_ends, cancel, stop, Reaches, new, next,
}

-- Whether a message was left in the inbox that no read which began since then can have given, or a
-- full page can have left there; whether one was left that the running read can give; and whether a
-- read failed.
pub record Inbox : Type 0 where
  pub unread : Bool
  pub being_read : Bool
  pub abandoned : Bool

abbrev pub empty_inbox : Inbox
empty_inbox = record { unread = false; being_read = false; abandoned = false }

-- The queue leaves the message in the inbox.
abbrev pub leaves : ℕ → ChatQueue → Bool
leaves id q =
    not (holds q.pending id) && (q.overflow || q.refilling || leb max_pending (length q.pending))

-- A read that begins can give what was left so far.
unfoldable pub begins : Option Task → Inbox → Inbox
begins (some refill) i = record {
  unread = false;
  being_read = i.being_read || i.unread;
  abandoned = i.abandoned;
}
begins _ i = i

-- A read that ends: a page of the greatest length may have left something.
unfoldable pub ends : Bool → List ℕ → Inbox → Inbox
ends failed page i = record {
  unread = i.unread || length page == max_pending;
  being_read = false;
  abandoned = i.abandoned || failed;
}

module _ (cap : ℕ) (is_command : ℕ → Bool) where
  unfoldable pub follow : (c c' : Chat) → Section cap is_command c c' → Inbox → Inbox
  unfolding begins ends
  follow c _ (arrives id) i = record i { unread = i.unread || leaves id c.queue }
  follow c _ (held id) i = i
  follow c _ (turn_timer seq) i = begins (start_turn c.cancelled cap seq c.queue).started i
  follow c _ (judge_timer seq) i = begins (start_judgment c.cancelled cap seq c.queue).started i
  follow c _ (turn_ends before others batch failed rest redo e) i =
      begins (finish_turn c.cancelled cap failed rest redo c.queue).started i
  follow c _ (refill_ends before others failed page e) i =
      begins (finish_refill c.cancelled cap is_command failed page c.queue).started
        (ends failed page i)
  follow c _ (judgment_ends before others burst e) i = i
  follow c _ command_starts i = i
  follow c _ (command_ends some_user) i = begins (finish_command c.cancelled cap c.queue).started i
  follow c _ cancel i = i
  follow c _ (stop over) i = i

  -- The inbox that belongs to a chat the dispatcher reached.
  unfoldable pub inbox_of : (c : Chat) → Reaches cap is_command c → Inbox
  unfolding follow
  inbox_of _ new = empty_inbox
  inbox_of c' (next {c = c} r st) = follow c c' st (inbox_of c r)

-- What was left is remembered by the queue's overflow, or a read that can give it is running, unless
-- a read failed or the program ends.
abbrev pub IsRemembered : Bool → ChatQueue → Inbox → Type 0
IsRemembered cancelled q i =
    (cancelled ≡ true)
    ⊎ (i.abandoned ≡ true)
    ⊎ (((i.unread ≡ false) ⊎ (q.overflow ≡ true)) × ((i.being_read ≡ false) ⊎ (q.refilling ≡ true)))

-- What a section leaves, with the read that it may begin.
abbrev pub IsRememberedLeft : Bool → Inbox → Left → Type 0
IsRememberedLeft cancelled i left = IsRemembered cancelled left.queue (begins left.started i)

module _ (cancelled : Bool) (cap : ℕ) (q : ChatQueue) (i : Inbox)
    (m : IsRemembered cancelled q i) where
  enqueue-IsRemembered :
      (id : ℕ)
      → IsRemembered cancelled
          (enqueue cancelled cap id q)
          (record i { unread = i.unread || leaves id q })
  unfolding enqueue
  enqueue-IsRemembered id =
      let P : ChatQueue → Type 0 =
        λ q'. IsRemembered cancelled q' (record i { unread = i.unread || leaves id q }) in
      if_intro P (holds q.pending id) _ _ (λ h. ground arith)
        (λ h.
          if_intro P (q.overflow || q.refilling || leb max_pending (length q.pending)) _ _
            (λ full. ground arith)
            (λ room. if_intro P q.running _ _ (λ r. ground arith) (λ r. ground arith)))

  await_judgment-IsRemembered :
      (id : ℕ) → IsRemembered cancelled (await_judgment cancelled cap id q) i
  unfolding await_judgment schedule_judgment
  await_judgment-IsRemembered id =
      let P : ChatQueue → Type 0 = λ q'. IsRemembered cancelled q' i in
      if_intro P (judged_here q id) _ _ (λ _. m)
        (λ _. if_intro P (is_nil q.judging) _ _ (λ _. m) (λ _. m))

  finish_judgment-IsRemembered : IsRemembered cancelled (finish_judgment cancelled cap q) i
  unfolding finish_judgment schedule_judgment
  finish_judgment-IsRemembered =
      let P : ChatQueue → Type 0 = λ q'. IsRemembered cancelled q' i in
      if_intro P (not (is_nil q.awaiting)) _ _ (λ _. m) (λ _. m)

  start_turn-IsRemembered :
      (seq : ℕ) → IsRememberedLeft cancelled i (start_turn cancelled cap seq q)
  unfolding start_turn begins
  start_turn-IsRemembered seq =
      if_intro (IsRememberedLeft cancelled i) (not (seq == q.timer_seq)) _ _ (λ _. m)
        (λ _.
          if_intro (IsRememberedLeft cancelled i) (q.running || is_nil q.pending || cancelled) _ _
            (λ _. m) (λ _. m))

  start_judgment-IsRemembered :
      (seq : ℕ) → IsRememberedLeft cancelled i (start_judgment cancelled cap seq q)
  unfolding start_judgment begins
  start_judgment-IsRemembered seq =
      if_intro (IsRememberedLeft cancelled i) (not (seq == q.judge_seq)) _ _ (λ _. m)
        (λ _.
          if_intro (IsRememberedLeft cancelled i)
            (not (is_nil q.judging) || is_nil q.awaiting || cancelled) _ _ (λ _. m) (λ _. m))

  finish_command-IsRemembered : IsRememberedLeft cancelled i (finish_command cancelled cap q)
  unfolding finish_command begins
  finish_command-IsRemembered =
      if_intro (IsRememberedLeft cancelled i)
        (must_reread cancelled cap (record q { users = q.users - 1 })) _ _ (λ h. ground arith)
        (λ h. m)

  after_turn-IsRemembered : IsRememberedLeft cancelled i (after_turn cancelled cap q)
  unfolding after_turn begins
  after_turn-IsRemembered =
      if_intro (IsRememberedLeft cancelled i) (is_nil q.pending && q.overflow && not cancelled) _ _
        (λ h. ground arith)
        (λ h.
          if_intro (IsRememberedLeft cancelled i) (not (is_nil q.pending)) _ _ (λ _. m) (λ _. m))

module _ (cancelled : Bool) (cap : ℕ) (q : ChatQueue) (i : Inbox)
    (m : IsRemembered cancelled q i) where
  finish_turn-IsRemembered :
      (failed : Bool) (rest redo : List ℕ)
      → IsRememberedLeft cancelled i (finish_turn cancelled cap failed rest redo q)
  unfolding finish_turn
  finish_turn-IsRemembered failed rest redo =
      after_turn-IsRemembered cancelled cap (requeued cancelled cap failed rest redo q) i (
        if_intro (λ (q' : ChatQueue). IsRemembered cancelled q' i)
          (runs_again cancelled cap failed redo q) _ _ (λ _. m) (λ _. m))

  finish_refill-IsRemembered :
      (is_command : ℕ → Bool) (failed : Bool) (page : List ℕ)
      → IsRememberedLeft cancelled
          (ends failed page i)
          (finish_refill cancelled cap is_command failed page q)
  unfolding finish_refill after_refill begins ends
  finish_refill-IsRemembered is_command failed page =
      let q' = refilled cancelled cap is_command page q in
      let P : Left → Type 0 = IsRememberedLeft cancelled (ends failed page i) in
      if_intro P (not (is_nil q'.pending)) _ _ (λ p. ground arith)
        (λ p.
          if_intro P (failed || cancelled) _ _ (λ h. ground arith)
            (λ h.
              if_intro P (q.overflow || (q'.overflow && q'.users == 0)) _ _ (λ r. ground arith)
                (λ r. ground arith)))

module _ (cap : ℕ) (is_command : ℕ → Bool) where
  follow-IsRemembered :
      (c c' : Chat) (st : Section cap is_command c c') (i : Inbox)
      → IsRemembered c.cancelled c.queue i
      → IsRemembered c'.cancelled c'.queue (follow cap is_command c c' st i)
  unfolding follow
  follow-IsRemembered c _ (arrives id) i m = enqueue-IsRemembered c.cancelled cap c.queue i m id
  follow-IsRemembered c _ (held id) i m = await_judgment-IsRemembered c.cancelled cap c.queue i m id
  follow-IsRemembered c _ (turn_timer seq) i m =
      start_turn-IsRemembered c.cancelled cap c.queue i m seq
  follow-IsRemembered c _ (judge_timer seq) i m =
      start_judgment-IsRemembered c.cancelled cap c.queue i m seq
  follow-IsRemembered c _ (turn_ends before others batch failed rest redo e) i m =
      finish_turn-IsRemembered c.cancelled cap c.queue i m failed rest redo
  follow-IsRemembered c _ (refill_ends before others failed page e) i m =
      finish_refill-IsRemembered c.cancelled cap c.queue i m is_command failed page
  follow-IsRemembered c _ (judgment_ends before others burst e) i m =
      finish_judgment-IsRemembered c.cancelled cap c.queue i m
  follow-IsRemembered c _ command_starts i m = m
  follow-IsRemembered c _ (command_ends some_user) i m =
      finish_command-IsRemembered c.cancelled cap c.queue i m
  follow-IsRemembered c _ cancel i m = inl refl
  follow-IsRemembered c _ (stop over) i m = inl over

  pub Reaches-IsRemembered :
      (c : Chat) (reached : Reaches cap is_command c)
      → IsRemembered c.cancelled c.queue (inbox_of cap is_command c reached)
  unfolding inbox_of
  Reaches-IsRemembered _ new = inr (inr (inl refl, inl refl))
  Reaches-IsRemembered c' (next {c = c} r st) =
      follow-IsRemembered c c' st (inbox_of cap is_command c r) (Reaches-IsRemembered c r)
