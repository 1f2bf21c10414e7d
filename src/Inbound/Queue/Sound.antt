-- ===== src/Inbound/Queue/Sound.antt =====
-- The sections of a chat's queue, and what each leaves of its soundness.
use wazzap_agent_go.Prelude.{
  ℕ, ◌+◌, ◌≤◌, ◌≡◌, refl, inl, inr, Bool, List, [], ◌∷◌, ◌++◌, Option, none, some, arith,
}
use wazzap_agent_go.Inbound.Queue.{
  ChatQueue, Task, turn, refill, judgment, Left, only, enqueue, start_turn, finish_turn,
  finish_refill, finish_command, await_judgment, start_judgment, finish_judgment,
}
use wazzap_agent_go.Inbound.Queue.Turns.{
  Keeps, busy, runs, started_runs, reading, reads, started_reads, enqueue-Keeps, start_turn-Keeps,
}
use wazzap_agent_go.Inbound.Queue.Endings.{
  finish_turn-Keeps, finish_refill-Keeps, finish_command-Keeps,
}
use wazzap_agent_go.Inbound.Queue.Judgments.{
  judging, judges, started_judges, KeepsJudged, enqueue-Judged, start_turn-Judged,
  finish_turn-Judged, finish_refill-Judged, finish_command-Judged, await_judgment-Judged,
  start_judgment-Judged, finish_judgment-Judged, await_judgment-Keeps, start_judgment-Keeps,
  finish_judgment-Keeps, Judged, JudgedLeft,
}
use wazzap_agent_go.Inbound.Queue.System.{
  Chat, start, after, Section, arrives, held, turn_timer, judge_timer, turn_ends, refill_ends,
  judgment_ends, command_starts, command_ends, cancel, stop, Reaches, new, next, total,
  total-append, IsSound,
}

total-start :
    (weight : Task → ℕ) (started : Option Task) (tasks : List Task)
    → total weight (start started tasks) ≡ total weight (start started []) + total weight tasks
unfolding total
total-start weight none tasks = omega arith
total-start weight (some task) tasks = omega arith

started_runs-total : (started : Option Task) → total runs (start started []) ≡ started_runs started
unfolding total
started_runs-total none = refl
started_runs-total (some task) = omega arith

started_reads-total :
    (started : Option Task) → total reads (start started []) ≡ started_reads started
unfolding total
started_reads-total none = refl
started_reads-total (some task) = omega arith

started_judges-total :
    (started : Option Task) → total judges (start started []) ≡ started_judges started
unfolding total
started_judges-total none = refl
started_judges-total (some task) = omega arith

-- A refill is one of the turns and refills.
reads-runs : (tasks : List Task) → total reads tasks ≤ total runs tasks
unfolding total
reads-runs [] = omega arith
reads-runs (turn _ ∷ tasks) = omega (arith, reads-runs tasks)
reads-runs (refill ∷ tasks) = omega (arith, reads-runs tasks)
reads-runs (judgment _ ∷ tasks) = omega (arith, reads-runs tasks)

-- What a section leaves is sound when it counts right what runs besides the task it starts.
after-IsSound :
    (cancelled : Bool) (tasks : List Task) (left : Left)
    → Keeps cancelled (total runs tasks) (total reads tasks) left
    → KeepsJudged cancelled (total judges tasks) left
    → IsSound (after cancelled tasks left)
after-IsSound cancelled tasks left k (judged, judgments) = record {
  live = k.live;
  judged = judged;
  turns =
      omega
        (arith, k.counted, started_runs-total left.started, total-start runs left.started tasks);
  refills =
      omega (arith, k.read, started_reads-total left.started, total-start reads left.started tasks);
  judgments =
      omega (
        arith,
        judgments,
        started_judges-total left.started,
        total-start judges left.started tasks,
      );
}

-- What a sound chat runs, with one of its tasks apart.
Apart : ChatQueue → Task → List Task → Type 0
Apart q task others =
    (busy q ≡ runs task + total runs others)
    × (reading q ≡ reads task + total reads others)
    × (judging q ≡ judges task + total judges others)
    × (total reads others ≤ total runs others)

IsSound-Apart :
    (c : Chat) (before others : List Task) (task : Task)
    → c.tasks ≡ before ++ task ∷ others
    → IsSound c
    → Apart c.queue task (before ++ others)
unfolding Apart
IsSound-Apart c before others task e s =
    let turns : busy c.queue ≡ total runs (before ++ task ∷ others) = rw (← e) s.turns in
    let refills : reading c.queue ≡ total reads (before ++ task ∷ others) = rw (← e) s.refills in
    let judgments : judging c.queue ≡ total judges (before ++ task ∷ others) =
      rw (← e) s.judgments in
    (
      omega (arith, total-append runs before others task),
      omega (arith, total-append reads before others task),
      omega (arith, total-append judges before others task),
      reads-runs (before ++ others),
    )

module _ (cap : ℕ) (is_command : ℕ → Bool) where
  turn_ends-IsSound :
      (c : Chat) (others : List Task) (batch : List ℕ) (failed : Bool) (rest redo : List ℕ)
      → Apart c.queue (turn batch) others
      → IsSound c
      → IsSound (after c.cancelled others (finish_turn c.cancelled cap failed rest redo c.queue))
  unfolding Apart JudgedLeft
  turn_ends-IsSound c others batch failed rest redo (turns, refills, judgments, least) s =
      let none_runs : total runs others ≡ 0 = ground arith in
      let none_reads : total reads others ≡ 0 = omega arith in
      let same : judging c.queue ≡ total judges others = omega arith in
      after-IsSound c.cancelled others (finish_turn c.cancelled cap failed rest redo c.queue)
        (rw none_runs (
          rw none_reads (
            finish_turn-Keeps c.cancelled cap failed rest redo c.queue s.live (ground arith)
              (ground arith))))
        (rw (← same) (finish_turn-Judged c.cancelled cap c.queue s.judged failed rest redo))

  refill_ends-IsSound :
      (c : Chat) (others : List Task) (failed : Bool) (page : List ℕ)
      → Apart c.queue refill others
      → IsSound c
      → IsSound
          (after c.cancelled others (finish_refill c.cancelled cap is_command failed page c.queue))
  unfolding Apart JudgedLeft
  refill_ends-IsSound c others failed page (turns, refills, judgments, least) s =
      let none_runs : total runs others ≡ 0 = ground arith in
      let none_reads : total reads others ≡ 0 = omega arith in
      let same : judging c.queue ≡ total judges others = omega arith in
      after-IsSound c.cancelled others
        (finish_refill c.cancelled cap is_command failed page c.queue)
        (rw none_runs (
          rw none_reads (
            finish_refill-Keeps c.cancelled cap is_command failed page c.queue s.live
              (ground arith))))
        (rw (← same) (finish_refill-Judged c.cancelled cap c.queue s.judged is_command failed page))

  judgment_ends-IsSound :
      (c : Chat) (others : List Task) (burst : List ℕ)
      → Apart c.queue (judgment burst) others
      → IsSound c
      → IsSound (after c.cancelled others (only (finish_judgment c.cancelled cap c.queue)))
  unfolding Apart
  judgment_ends-IsSound c others burst (turns, refills, judgments, least) s =
      let q = c.queue in
      let same : busy q ≡ total runs others = omega arith in
      let same_reads : reading q ≡ total reads others = omega arith in
      let none_judges : total judges others ≡ 0 = ground arith in
      let (j, n) = finish_judgment-Judged c.cancelled cap q s.judged in
      after-IsSound c.cancelled others (only (finish_judgment c.cancelled cap q))
        (rw (← same) (rw (← same_reads) (finish_judgment-Keeps c.cancelled cap q s.judged s.live)))
        (rw none_judges (j, omega arith))

  -- A section that ends no task.
  goes_on-IsSound :
      (c : Chat) (left : Left)
      → Keeps c.cancelled (busy c.queue) (reading c.queue) left
      → KeepsJudged c.cancelled (judging c.queue) left
      → IsSound c
      → IsSound (after c.cancelled c.tasks left)
  goes_on-IsSound c left k j s =
      after-IsSound c.cancelled c.tasks left (rw (← s.turns) (rw (← s.refills) k))
        (rw (← s.judgments) j)

  Section-IsSound : (c c' : Chat) → Section cap is_command c c' → IsSound c → IsSound c'
  unfolding JudgedLeft Judged
  Section-IsSound c _ (arrives id) s =
      let (j, n) = enqueue-Judged c.cancelled cap c.queue s.judged id in
      goes_on-IsSound c (only (enqueue c.cancelled cap id c.queue))
        (enqueue-Keeps c.cancelled cap c.queue s.live id) (j, omega arith) s
  Section-IsSound c _ (held id) s =
      let (j, n) = await_judgment-Judged c.cancelled cap c.queue s.judged id in
      goes_on-IsSound c (only (await_judgment c.cancelled cap id c.queue))
        (await_judgment-Keeps c.cancelled cap c.queue s.judged id s.live) (j, omega arith) s
  Section-IsSound c _ (turn_timer seq) s =
      goes_on-IsSound c (start_turn c.cancelled cap seq c.queue)
        (start_turn-Keeps c.cancelled cap c.queue s.live seq)
        (start_turn-Judged c.cancelled cap c.queue s.judged seq) s
  Section-IsSound c _ (judge_timer seq) s =
      goes_on-IsSound c (start_judgment c.cancelled cap seq c.queue)
        (start_judgment-Keeps c.cancelled cap c.queue s.judged seq s.live)
        (start_judgment-Judged c.cancelled cap c.queue s.judged seq) s
  Section-IsSound c _ (turn_ends before others batch failed rest redo e) s =
      turn_ends-IsSound c (before ++ others) batch failed rest redo
        (IsSound-Apart c before others (turn batch) e s) s
  Section-IsSound c _ (refill_ends before others failed page e) s =
      refill_ends-IsSound c (before ++ others) failed page
        (IsSound-Apart c before others refill e s) s
  Section-IsSound c _ (judgment_ends before others burst e) s =
      judgment_ends-IsSound c (before ++ others) burst
        (IsSound-Apart c before others (judgment burst) e s) s
  Section-IsSound c _ command_starts s = record {
    live = record {
      awake = s.live.awake;
      timed = s.live.timed;
      reread = (let reread = s.live.reread in ground arith);
      serial = s.live.serial;
    };
    judged = s.judged;
    turns = s.turns;
    refills = s.refills;
    judgments = s.judgments;
  }
  Section-IsSound c _ (command_ends some_user) s =
      goes_on-IsSound c (finish_command c.cancelled cap c.queue)
        (finish_command-Keeps c.cancelled cap c.queue s.live)
        (finish_command-Judged c.cancelled cap c.queue s.judged) s
  Section-IsSound c _ cancel s = record {
    live = record {
      awake = inl refl;
      timed = s.live.timed;
      reread = inl refl;
      serial = s.live.serial;
    };
    judged = inl refl;
    turns = s.turns;
    refills = s.refills;
    judgments = s.judgments;
  }
  Section-IsSound c _ (stop over) s = record {
    live = record { awake = inl over; timed = inl refl; reread = inl over; serial = s.live.serial };
    judged = inl over;
    turns = s.turns;
    refills = s.refills;
    judgments = s.judgments;
  }

  pub Reaches-IsSound : (c : Chat) → Reaches cap is_command c → IsSound c
  unfolding total
  Reaches-IsSound _ new = record {
    live = record {
      awake = inr (inl refl);
      timed = inl refl;
      reread = inr (inl refl);
      serial = inl refl;
    };
    judged = inr (inl refl);
    turns = refl;
    refills = refl;
    judgments = refl;
  }
  Reaches-IsSound c' (next {c = c} r st) = Section-IsSound c c' st (Reaches-IsSound c r)
