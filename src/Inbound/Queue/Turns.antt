-- ===== src/Inbound/Queue/Turns.antt =====
-- What keeps the turns of a chat going, section by section.
use wazzap_agent_go.Prelude.{
  ℕ, ◌+◌, ◌≤◌, ◌≡◌, refl, ◌⊎◌, inl, Bool, true, false, not, ◌||◌, leb, ◌==◌, if◌then◌else◌,
  if_intro, List, [], ◌∷◌, ◌++◌, length, Option, none, some, arith,
}
use wazzap_agent_go.Inbound.Queue.{
  ChatQueue, Task, refill, judgment, Left, only, is_nil, holds, max_pending, schedule, enqueue,
  start_turn, start_refill,
}

-- While the program runs, a waiting message has a running turn or a timer that will start one; a
-- timer is only set for one; and a message left in the inbox has something that will read it back.
pub record IsLive (cancelled : Bool) (q : ChatQueue) : Type 0 where
  pub awake :
      (cancelled ≡ true)
      ⊎ (is_nil q.pending ≡ true)
      ⊎ (q.running ≡ true)
      ⊎ (q.timer ≡ some q.timer_seq)
  pub timed : (q.timer ≡ none) ⊎ ((is_nil q.pending ≡ false) × (q.running ≡ false))
  pub reread :
      (cancelled ≡ true)
      ⊎ (q.overflow ≡ false)
      ⊎ (q.running ≡ true)
      ⊎ (is_nil q.pending ≡ false)
      ⊎ (1 ≤ q.users)
  pub serial : (q.refilling ≡ false) ⊎ (q.running ≡ true)

-- The turns and refills that are running.
abbrev pub busy : ChatQueue → ℕ
busy q = if q.running then 1 else 0

abbrev pub runs : Task → ℕ
runs (judgment _) = 0
runs _ = 1

abbrev pub started_runs : Option Task → ℕ
started_runs none = 0
started_runs (some task) = runs task

-- The refills among them.
abbrev pub reading : ChatQueue → ℕ
reading q = if q.refilling then 1 else 0

abbrev pub reads : Task → ℕ
reads refill = 1
reads _ = 0

abbrev pub started_reads : Option Task → ℕ
started_reads none = 0
started_reads (some task) = reads task

-- A section leaves a live queue, and starts what it marks as running and reading, besides what ran
-- and read before.
pub record Keeps (cancelled : Bool) (before before_reads : ℕ) (left : Left) : Type 0 where
  pub live : IsLive cancelled left.queue
  pub counted : busy left.queue ≡ started_runs left.started + before
  pub read : reading left.queue ≡ started_reads left.started + before_reads

is_nil-append : (ids : List ℕ) (id : ℕ) → is_nil (ids ++ id ∷ []) ≡ false
is_nil-append [] id = refl
is_nil-append (_ ∷ ids) id = refl

is_nil-full : (ids : List ℕ) → leb max_pending (length ids) ≡ true → is_nil ids ≡ false
is_nil-full [] h = absurd (ground arith)
is_nil-full (_ ∷ ids) h = refl

module _ (cancelled : Bool) (cap : ℕ) where
  -- A queue with a message that waits and no turn running, once its timer is set.
  pub schedule-IsLive :
      (q : ChatQueue)
      → is_nil q.pending ≡ false
      → q.running ≡ false
      → q.refilling ≡ false
      → IsLive cancelled (schedule cancelled cap q)
  schedule-IsLive q p r f = record {
    awake = ground arith;
    timed = ground arith;
    reread = ground arith;
    serial = ground arith;
  }

  pub start_refill-IsLive :
      (q : ChatQueue) → q.timer ≡ none → IsLive cancelled (start_refill cancelled cap q).queue
  start_refill-IsLive q t = record {
    awake = ground arith;
    timed = ground arith;
    reread = ground arith;
    serial = ground arith;
  }

  module _ (q : ChatQueue) (i : IsLive cancelled q) where
    open i use {awake, timed, reread, serial}

    overflow-IsLive :
        q.overflow || q.refilling || leb max_pending (length q.pending) ≡ true
        → IsLive cancelled (record q { overflow = true })
    overflow-IsLive h = record {
      awake = awake;
      timed = timed;
      reread = ground (arith, is_nil-full q.pending);
      serial = serial;
    }

    append-IsLive :
        (id : ℕ) → q.running ≡ true → IsLive cancelled (record q { pending = q.pending ++ id ∷ [] })
    append-IsLive id r = record {
      awake = ground arith;
      timed = ground arith;
      reread = ground arith;
      serial = serial;
    }

    unchanged-Keeps : Keeps cancelled (busy q) (reading q) (record { queue = q; started = none })
    unchanged-Keeps = record { live = i; counted = omega arith; read = omega arith }

    same-Keeps :
        (q' : ChatQueue)
        → IsLive cancelled q'
        → q'.running ≡ q.running
        → q'.refilling ≡ q.refilling
        → Keeps cancelled (busy q) (reading q) (only q')
    same-Keeps q' i' r n = record {
      live = i';
      counted = ground (arith, r);
      read = ground (arith, n);
    }

    pub enqueue-Keeps :
        (id : ℕ) → Keeps cancelled (busy q) (reading q) (only (enqueue cancelled cap id q))
    unfolding enqueue
    enqueue-Keeps id =
        let Kept : ChatQueue → Type 0 = λ q'. Keeps cancelled (busy q) (reading q) (only q') in
        if_intro Kept (holds q.pending id) _ _ (λ _. same-Keeps q i refl refl)
          (λ _.
            if_intro Kept (q.overflow || q.refilling || leb max_pending (length q.pending)) _ _
              (λ h. same-Keeps (record q { overflow = true }) (overflow-IsLive h) refl refl)
              (λ h.
                if_intro Kept q.running _ _
                  (λ r.
                    same-Keeps (record q { pending = q.pending ++ id ∷ [] }) (append-IsLive id r)
                      refl refl)
                  (λ r.
                    same-Keeps
                      (schedule cancelled cap (record q { pending = q.pending ++ id ∷ [] }))
                      (schedule-IsLive (record q { pending = q.pending ++ id ∷ [] })
                        (is_nil-append q.pending id) r (ground arith))
                      refl refl)))

    pub start_turn-Keeps :
        (seq : ℕ) → Keeps cancelled (busy q) (reading q) (start_turn cancelled cap seq q)
    unfolding start_turn
    start_turn-Keeps seq =
        if_intro (Keeps cancelled (busy q) (reading q)) (not (seq == q.timer_seq)) _ _
          (λ _. unchanged-Keeps)
          (λ _.
            if_intro (Keeps cancelled (busy q) (reading q))
              (q.running || is_nil q.pending || cancelled) _ _
              (λ h. record {
                live = record {
                  awake = ground arith;
                  timed = inl refl;
                  reread = reread;
                  serial = serial;
                };
                counted = omega arith;
                read = omega arith;
              })
              (λ h. record {
                live = record {
                  awake = ground arith;
                  timed = inl refl;
                  reread = ground arith;
                  serial = ground arith;
                };
                counted = ground arith;
                read = ground arith;
              }))
