-- ===== src/Inbound/Queue/Endings.antt =====
-- What the end of a turn, a refill or a command leaves to the turns of a chat.
use wazzap_agent_go.Prelude.{
  ℕ, ◌-◌, ◌≡◌, refl, inl, inr, Bool, true, false, not, ◌&&◌, ◌||◌, ◌==◌, if_intro, List, none,
  arith,
}
use wazzap_agent_go.Inbound.Queue.{
  ChatQueue, is_nil, requeued, runs_again, after_turn, finish_turn, refilled, after_refill,
  finish_refill, must_reread, finish_command,
}
use wazzap_agent_go.Inbound.Queue.Turns.{
  IsLive, Keeps, busy, reading, schedule-IsLive, start_refill-IsLive,
}

module _ (cancelled : Bool) (cap : ℕ) where
  -- The queue that a turn or a refill left, before what follows it.
  record IsFreed (q : ChatQueue) : Type 0 where
    idle_timer : q.timer ≡ none
    stopped : q.running ≡ false
    refilled_now : q.refilling ≡ false

  -- The queue while a turn or a refill runs.
  abbrev pub Runs : ChatQueue → Type 0
  Runs q = q.running ≡ true

  running_timer : (q : ChatQueue) → IsLive cancelled q → Runs q → q.timer ≡ none
  running_timer q i r = let timed = i.timed in ground arith

  after_turn-Keeps : (q : ChatQueue) → IsFreed q → Keeps cancelled 0 0 (after_turn cancelled cap q)
  unfolding after_turn
  after_turn-Keeps q f =
      let t = f.idle_timer in
      let r = f.stopped in
      let n = f.refilled_now in
      if_intro (Keeps cancelled 0 0) (is_nil q.pending && q.overflow && not cancelled) _ _
        (λ h. record {
          live = start_refill-IsLive cancelled cap (record q { overflow = false }) t;
          counted = refl;
          read = refl;
        })
        (λ h.
          if_intro (Keeps cancelled 0 0) (not (is_nil q.pending)) _ _
            (λ p. record {
              live = schedule-IsLive cancelled cap q (ground arith) r n;
              counted = ground arith;
              read = ground arith;
            })
            (λ p. record {
              live = record {
                awake = ground arith;
                timed = inl t;
                reread = ground arith;
                serial = inl n;
              };
              counted = ground arith;
              read = ground arith;
            }))

  requeued-IsFreed :
      (failed : Bool) (rest redo : List ℕ) (q : ChatQueue)
      → q.timer ≡ none
      → q.refilling ≡ false
      → IsFreed (requeued cancelled cap failed rest redo q)
  requeued-IsFreed failed rest redo q t n =
      if_intro IsFreed (runs_again cancelled cap failed redo q) _ _
        (λ _. record { idle_timer = t; stopped = refl; refilled_now = n })
        (λ _. record { idle_timer = t; stopped = refl; refilled_now = n })

  -- The end of a turn: another section of the same queue cannot be a refill.
  pub finish_turn-Keeps :
      (failed : Bool) (rest redo : List ℕ) (q : ChatQueue)
      → IsLive cancelled q
      → Runs q
      → q.refilling ≡ false
      → Keeps cancelled 0 0 (finish_turn cancelled cap failed rest redo q)
  unfolding finish_turn
  finish_turn-Keeps failed rest redo q i r n =
      after_turn-Keeps (requeued cancelled cap failed rest redo q)
        (requeued-IsFreed failed rest redo q (running_timer q i r) n)

  after_refill-Keeps :
      (is_command : ℕ → Bool) (failed missed : Bool) (q : ChatQueue)
      → IsFreed q
      → Keeps cancelled 0 0 (after_refill cancelled cap is_command failed missed q)
  unfolding after_refill
  after_refill-Keeps is_command failed missed q f =
      let t = f.idle_timer in
      let r = f.stopped in
      let n = f.refilled_now in
      if_intro (Keeps cancelled 0 0) (not (is_nil q.pending)) _ _
        (λ p. record {
          live =
              schedule-IsLive cancelled cap (record q { overflow = q.overflow || missed })
                (ground arith) r n;
          counted = ground arith;
          read = ground arith;
        })
        (λ p.
          if_intro (Keeps cancelled 0 0) (failed || cancelled) _ _
            (λ h. record {
              live = record {
                awake = ground arith;
                timed = inl t;
                reread = inr (inl refl);
                serial = inl n;
              };
              counted = ground arith;
              read = ground arith;
            })
            (λ h.
              if_intro (Keeps cancelled 0 0) (missed || (q.overflow && q.users == 0)) _ _
                (λ m. record {
                  live = start_refill-IsLive cancelled cap q t;
                  counted = refl;
                  read = refl;
                })
                (λ m. record {
                  live = record {
                    awake = ground arith;
                    timed = inl t;
                    reread = ground arith;
                    serial = inl n;
                  };
                  counted = ground arith;
                  read = ground arith;
                })))

  pub finish_refill-Keeps :
      (is_command : ℕ → Bool) (failed : Bool) (page : List ℕ) (q : ChatQueue)
      → IsLive cancelled q
      → Runs q
      → Keeps cancelled 0 0 (finish_refill cancelled cap is_command failed page q)
  unfolding finish_refill
  finish_refill-Keeps is_command failed page q i r =
      after_refill-Keeps is_command failed q.overflow (refilled cancelled cap is_command page q)
        (record { idle_timer = running_timer q i r; stopped = refl; refilled_now = refl })

  pub finish_command-Keeps :
      (q : ChatQueue)
      → IsLive cancelled q
      → Keeps cancelled (busy q) (reading q) (finish_command cancelled cap q)
  unfolding finish_command
  finish_command-Keeps q i =
      let awake = i.awake in
      let timed = i.timed in
      let reread = i.reread in
      let serial = i.serial in
      let left = record q { users = q.users - 1 } in
      if_intro (Keeps cancelled (busy q) (reading q)) (must_reread cancelled cap left) _ _
        (λ h. record {
          live = start_refill-IsLive cancelled cap left (ground arith);
          counted = ground arith;
          read = ground arith;
        })
        (λ h. record {
          live = record { awake = awake; timed = timed; reread = ground arith; serial = serial };
          counted = omega arith;
          read = omega arith;
        })
