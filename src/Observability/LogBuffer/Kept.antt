-- ===== src/Observability/LogBuffer/Kept.antt =====
-- Which full texts the buffer still finds.
use wazzap_agent_go.Prelude.{
  ℕ, zero, suc, ◌^◌, u64_small, ◌+◌, ◌-◌, ◌≤◌, ◌<◌, ◌≡◌, refl, subst, ltb, if◌then◌else◌, if_intro,
  List, [], ◌∷◌, ◌++◌, length, length-append, length-drop, drop, none, some, arith,
}
use wazzap_agent_go.Observability.LogBuffer.{LogEntry, new_log_buffer, find_newest, full_of}
use wazzap_agent_go.Observability.LogBuffer.Latest.{
  log, push_all, latest, push_all-latest, drop-append_short,
}

find_newest-log-none :
    (entries : List LogEntry) (n id : ℕ)
    → n + length entries < 2 ^ 64
    → id ≤ n
    → find_newest id (log entries n) ≡ none
unfolding find_newest log
find_newest-log-none [] n id few h = refl
find_newest-log-none (entry ∷ entries) n id few h =
    rw (find_newest-log-none entries (suc n) id (omega arith) (omega arith))
      (rw (u64_small (suc n) (omega arith)) (ground arith))

find_newest-log :
    (before after : List LogEntry) (entry : LogEntry) (n : ℕ)
    → n + length (before ++ entry ∷ after) < 2 ^ 64
    → find_newest (suc (n + length before)) (log (before ++ entry ∷ after) n) ≡ some entry.full
unfolding find_newest log
find_newest-log [] after entry n few =
    rw (find_newest-log-none after (suc n) (suc (n + 0)) (omega arith) (omega arith))
      (rw (u64_small (suc n) (omega arith)) (ground arith))
find_newest-log (other ∷ before) after entry n few =
    let e : suc (suc n + length before) ≡ suc (n + suc (length before)) = omega arith in
    let es = before ++ entry ∷ after in
    let found =
      subst (λ k. find_newest k (log es (suc n)) ≡ some entry.full) e
        (find_newest-log before after entry (suc n) (omega arith)) in
    rw found refl

drop-log :
    (k : ℕ) (entries : List LogEntry) (n : ℕ)
    → k ≤ length entries
    → drop k (log entries n) ≡ log (drop k entries) (n + k)
unfolding log
drop-log zero entries n h = subst (λ m. log entries n ≡ log entries m) (omega arith) refl
drop-log (suc k) [] n h = absurd (omega (arith, h))
drop-log (suc k) (entry ∷ entries) n h =
    subst (λ m. drop k (log entries (suc n)) ≡ log (drop k entries) m) (omega arith)
      (drop-log k entries (suc n) (omega (arith, h)))

length-log : (entries : List LogEntry) (n : ℕ) → length (log entries n) ≡ length entries
unfolding log
length-log [] n = refl
length-log (_ ∷ entries) n = rw (length-log entries (suc n)) refl

-- What the buffer finds in a log of which the first entries were dropped.
module _ (before after : List LogEntry) (entry : LogEntry) (k : ℕ)
    (few : length (before ++ entry ∷ after) < 2 ^ 64) where
  found-kept :
      k ≤ length before
      → find_newest (suc (length before)) (drop k (log (before ++ entry ∷ after) 0))
        ≡ some entry.full
  found-kept h =
      let l = length-append before (entry ∷ after) in
      let e : suc (k + length (drop k before)) ≡ suc (length before) =
        omega (arith, length-drop k before) in
      rw (drop-log k (before ++ entry ∷ after) 0 (omega arith)) (
        rw (drop-append_short k before (entry ∷ after) h) (
          subst
            (λ id. find_newest id (log (drop k before ++ entry ∷ after) (0 + k)) ≡ some entry.full)
            e
            (find_newest-log-from (drop k before) (
              omega (arith, length-drop k before, length-append (drop k before) (entry ∷ after))))))
    where
      find_newest-log-from :
          (kept : List LogEntry)
          → k + length (kept ++ entry ∷ after) < 2 ^ 64
          → find_newest (suc (k + length kept)) (log (kept ++ entry ∷ after) (0 + k))
            ≡ some entry.full
      find_newest-log-from kept few_kept =
          subst
            (λ m.
              find_newest (suc (k + length kept)) (log (kept ++ entry ∷ after) m) ≡ some entry.full)
            (omega arith) (find_newest-log kept after entry k few_kept)

  found-dropped :
      length before < k
      → k ≤ length (before ++ entry ∷ after)
      → find_newest (suc (length before)) (drop k (log (before ++ entry ∷ after) 0)) ≡ none
  found-dropped h le = rw (drop-log k (before ++ entry ∷ after) 0 le) (
      find_newest-log-none (drop k (before ++ entry ∷ after)) (0 + k) (suc (length before))
        (omega (arith, length-drop k (before ++ entry ∷ after))) (omega arith))

-- After fewer than 2 ^ 64 entries were recorded in a new buffer, the full text of each is found under its number
-- as long as fewer entries were recorded after it than the buffer has room for, and not afterwards.
pub full_of-kept :
    (capacity : ℕ) (before after : List LogEntry) (entry : LogEntry)
    → length (before ++ entry ∷ after) < 2 ^ 64
    → full_of (push_all (before ++ entry ∷ after) (new_log_buffer capacity)) (suc (length before))
      ≡ (if ltb (length after) (new_log_buffer capacity).capacity then some entry.full else none)
unfolding full_of
full_of-kept capacity before after entry few =
    let n = (new_log_buffer capacity).capacity in
    let es = before ++ entry ∷ after in
    let l = length-append before (entry ∷ after) in
    let ll = length-log es 0 in
    rw (push_all-latest capacity es) (
      if_intro (λ found. find_newest (suc (length before)) (latest n (log es 0)) ≡ found)
        (ltb (length after) n) (some entry.full) none
        (λ h. found-kept before after entry (length (log es 0) - n) few (ground arith))
        (λ h.
          found-dropped before after entry (length (log es 0) - n) few (ground arith)
            (omega arith)))
