-- ===== src/Inbound/Queue/Judgments.antt =====
-- What keeps the judgments of a chat going, section by section.
use wazzap_agent_go.Prelude.{
  ℕ, suc, ◌+◌, ◌-◌, u64, ◌≡◌, refl, ◌⊎◌, inl, inr, Bool, true, false, not, ◌&&◌, ◌||◌, leb, ◌==◌,
  if◌then◌else◌, if_intro, List, [], ◌∷◌, ◌++◌, length, Option, none, some, arith,
}
use wazzap_agent_go.Inbound.Queue.{
  ChatQueue, Task, judgment, Left, only, is_nil, holds, judged_here, max_pending, enqueue,
  start_turn, runs_again, after_turn, finish_turn, refilled, after_refill, finish_refill,
  must_reread, finish_command, schedule_judgment, await_judgment, start_judgment, finish_judgment,
}
use wazzap_agent_go.Inbound.Queue.Turns.{
  IsLive, Keeps, busy, reading, runs, reads, started_runs, started_reads,
}

-- While the program runs, a message that waits for the judge has a judgment running or a timer that
-- will start one.
abbrev pub IsJudged : Bool → ChatQueue → Type 0
IsJudged cancelled q =
    (cancelled ≡ true)
    ⊎ (is_nil q.awaiting ≡ true)
    ⊎ (is_nil q.judging ≡ false)
    ⊎ (q.judge_timer ≡ some q.judge_seq)

-- The judgments that are running.
abbrev pub judging : ChatQueue → ℕ
judging q = if is_nil q.judging then 0 else 1

abbrev pub judges : Task → ℕ
judges (judgment _) = 1
judges _ = 0

abbrev pub started_judges : Option Task → ℕ
started_judges none = 0
started_judges (some task) = judges task

-- What a section leaves to the judge, besides the judgments that ran before.
abbrev pub KeepsJudged : Bool → ℕ → Left → Type 0
KeepsJudged cancelled before left =
    IsJudged cancelled left.queue × (judging left.queue ≡ started_judges left.started + before)

is_nil-append : (ids : List ℕ) (id : ℕ) → is_nil (ids ++ id ∷ []) ≡ false
is_nil-append [] id = refl
is_nil-append (_ ∷ ids) id = refl

module _ (cancelled : Bool) (cap : ℕ) (q : ChatQueue) (j : IsJudged cancelled q) where
  -- The judge's part of a queue is not the turns'.
  turns-Keeps :
      (awaiting judged : List ℕ) (timer : Option ℕ) (seq : ℕ) (started : Option Task)
      → started_runs started ≡ 0
      → started_reads started ≡ 0
      → IsLive cancelled q
      → Keeps cancelled (busy q) (reading q) (record {
        queue = record q {
          awaiting = awaiting;
          judging = judged;
          judge_timer = timer;
          judge_seq = seq;
        };
        started = started;
      })
  turns-Keeps awaiting judged timer seq started runs reads i = record {
    live = record { awake = i.awake; timed = i.timed; reread = i.reread; serial = i.serial };
    counted = omega (arith, runs);
    read = omega (arith, reads);
  }

  unfoldable pub Judged : ChatQueue → Type 0
  Judged q' = IsJudged cancelled q' × (judging q' ≡ judging q)

  unfoldable pub JudgedLeft : Left → Type 0
  JudgedLeft left = KeepsJudged cancelled (judging q) left

  pub enqueue-Judged : (id : ℕ) → Judged (enqueue cancelled cap id q)
  unfolding enqueue Judged
  enqueue-Judged id =
      if_intro Judged (holds q.pending id) _ _ (λ _. (j, refl))
        (λ _.
          if_intro Judged (q.overflow || q.refilling || leb max_pending (length q.pending)) _ _
            (λ _. (j, refl)) (λ _. if_intro Judged q.running _ _ (λ _. (j, refl)) (λ _. (j, refl))))

  pub start_turn-Judged : (seq : ℕ) → JudgedLeft (start_turn cancelled cap seq q)
  unfolding start_turn JudgedLeft
  start_turn-Judged seq =
      if_intro JudgedLeft (not (seq == q.timer_seq)) _ _ (λ _. (j, omega arith))
        (λ _.
          if_intro JudgedLeft (q.running || is_nil q.pending || cancelled) _ _
            (λ _. (j, omega arith)) (λ _. (j, omega arith)))

  pub finish_turn-Judged :
      (failed : Bool) (rest redo : List ℕ)
      → JudgedLeft (finish_turn cancelled cap failed rest redo q)
  unfolding finish_turn after_turn JudgedLeft
  finish_turn-Judged failed rest redo =
      if_intro (λ (q' : ChatQueue). JudgedLeft (after_turn cancelled cap q'))
        (runs_again cancelled cap failed redo q) _ _
        (λ _.
          after
            (record q {
              running = false;
              retries = suc q.retries;
              pending = (redo ++ rest) ++ q.pending;
            })
            j refl)
        (λ _. after (record q { running = false; retries = 0; pending = rest ++ q.pending }) j refl)
    where
      after :
          (q' : ChatQueue)
          → IsJudged cancelled q'
          → judging q' ≡ judging q
          → JudgedLeft (after_turn cancelled cap q')
      after q' j' e =
          if_intro JudgedLeft (is_nil q'.pending && q'.overflow && not cancelled) _ _
            (λ _. (j', omega arith))
            (λ _.
              if_intro JudgedLeft (not (is_nil q'.pending)) _ _ (λ _. (j', omega arith))
                (λ _. (j', omega arith)))

  pub finish_refill-Judged :
      (is_command : ℕ → Bool) (failed : Bool) (page : List ℕ)
      → JudgedLeft (finish_refill cancelled cap is_command failed page q)
  unfolding finish_refill after_refill JudgedLeft
  finish_refill-Judged is_command failed page =
      let q' = refilled cancelled cap is_command page q in
      if_intro JudgedLeft (not (is_nil q'.pending)) _ _ (λ _. (j, omega arith))
        (λ _.
          if_intro JudgedLeft (failed || cancelled) _ _ (λ _. (j, omega arith))
            (λ _.
              if_intro JudgedLeft (q.overflow || (q'.overflow && q'.users == 0)) _ _
                (λ _. (j, omega arith)) (λ _. (j, omega arith))))

  pub finish_command-Judged : JudgedLeft (finish_command cancelled cap q)
  unfolding finish_command JudgedLeft
  finish_command-Judged =
      if_intro JudgedLeft (must_reread cancelled cap (record q { users = q.users - 1 })) _ _
        (λ _. (j, omega arith)) (λ _. (j, omega arith))

  pub await_judgment-Judged : (id : ℕ) → Judged (await_judgment cancelled cap id q)
  unfolding await_judgment schedule_judgment Judged
  await_judgment-Judged id =
      if_intro Judged (judged_here q id) _ _ (λ _. (j, refl))
        (λ _.
          if_intro Judged (is_nil q.judging) _ _ (λ n. (ground arith, refl))
            (λ n. (inr (inr (inl n)), refl)))

  pub await_judgment-Keeps :
      (id : ℕ)
      → IsLive cancelled q
      → Keeps cancelled (busy q) (reading q) (only (await_judgment cancelled cap id q))
  unfolding await_judgment schedule_judgment
  await_judgment-Keeps id i =
      if_intro (λ (q' : ChatQueue). Keeps cancelled (busy q) (reading q) (only q'))
        (judged_here q id) _ _
        (λ _. turns-Keeps q.awaiting q.judging q.judge_timer q.judge_seq none refl refl i)
        (λ _.
          if_intro (λ (q' : ChatQueue). Keeps cancelled (busy q) (reading q) (only q'))
            (is_nil q.judging) _ _
            (λ _.
              turns-Keeps (q.awaiting ++ id ∷ []) q.judging
                (if cancelled then none else some (u64 (suc q.judge_seq))) (u64 (suc q.judge_seq))
                none refl refl i)
            (λ _.
              turns-Keeps (q.awaiting ++ id ∷ []) q.judging q.judge_timer q.judge_seq none refl refl
                i))

  pub start_judgment-Keeps :
      (seq : ℕ)
      → IsLive cancelled q
      → Keeps cancelled (busy q) (reading q) (start_judgment cancelled cap seq q)
  unfolding start_judgment
  start_judgment-Keeps seq i =
      if_intro (Keeps cancelled (busy q) (reading q)) (not (seq == q.judge_seq)) _ _
        (λ _. turns-Keeps q.awaiting q.judging q.judge_timer q.judge_seq none refl refl i)
        (λ _.
          if_intro (Keeps cancelled (busy q) (reading q))
            (not (is_nil q.judging) || is_nil q.awaiting || cancelled) _ _
            (λ _. turns-Keeps q.awaiting q.judging none q.judge_seq none refl refl i)
            (λ _.
              turns-Keeps [] q.awaiting none q.judge_seq (some (judgment q.awaiting)) refl refl i))

  pub finish_judgment-Keeps :
      IsLive cancelled q
      → Keeps cancelled (busy q) (reading q) (only (finish_judgment cancelled cap q))
  unfolding finish_judgment schedule_judgment
  finish_judgment-Keeps i =
      if_intro (λ (q' : ChatQueue). Keeps cancelled (busy q) (reading q) (only q'))
        (not (is_nil q.awaiting)) _ _
        (λ _.
          turns-Keeps q.awaiting [] (if cancelled then none else some (u64 (suc q.judge_seq)))
            (u64 (suc q.judge_seq)) none refl refl i)
        (λ _. turns-Keeps q.awaiting [] q.judge_timer q.judge_seq none refl refl i)

  pub start_judgment-Judged : (seq : ℕ) → JudgedLeft (start_judgment cancelled cap seq q)
  unfolding start_judgment JudgedLeft
  start_judgment-Judged seq =
      if_intro JudgedLeft (not (seq == q.judge_seq)) _ _ (λ _. (j, omega arith))
        (λ _.
          if_intro JudgedLeft (not (is_nil q.judging) || is_nil q.awaiting || cancelled) _ _
            (λ h. (ground arith, omega arith)) (λ h. (inr (inl refl), ground arith)))

  pub finish_judgment-Judged :
      IsJudged cancelled (finish_judgment cancelled cap q)
      × (judging (finish_judgment cancelled cap q) ≡ 0)
  unfolding finish_judgment schedule_judgment
  finish_judgment-Judged =
      if_intro (λ (q' : ChatQueue). IsJudged cancelled q' × (judging q' ≡ 0))
        (not (is_nil q.awaiting)) _ _ (λ h. (ground arith, refl)) (λ h. (ground arith, refl))
