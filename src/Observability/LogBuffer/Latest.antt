-- ===== src/Observability/LogBuffer/Latest.antt =====
-- The buffer against the log of everything that was recorded.
use wazzap_agent_go.Prelude.{
  ℕ, zero, suc, u64, suc-u64, ◌-◌, ◌≤◌, ◌<◌, ◌≡◌, refl, sym, subst, ◌==◌, if_intro, List, [], ◌∷◌,
  ◌++◌, append-nil, append_assoc, length, length-append, length-drop, drop, arith,
}
use wazzap_agent_go.Observability.LogBuffer.{LogEntry, LogBuffer, new_log_buffer, push}

-- Everything that was recorded, oldest first, numbered from one.
unfoldable pub log : List LogEntry → ℕ → List LogEntry
log [] n = []
log (entry ∷ entries) n = record entry { id = u64 (suc n) } ∷ log entries (suc n)

-- Recording entries one by one.
unfoldable pub push_all : List LogEntry → LogBuffer → LogBuffer
push_all [] buffer = buffer
push_all (entry ∷ entries) buffer = push_all entries (push entry buffer)

abbrev pub latest : {A : Type 0} → ℕ → List A → List A
latest n xs = drop (length xs - n) xs

-- The buffer shows the latest entries of a log.
record IsLatest (n : ℕ) (all : List LogEntry) (buffer : LogBuffer) : Type 0 where
  kept : buffer.capacity ≡ n
  shown : buffer.entries ≡ latest n all
  counted : buffer.next_id ≡ u64 (length all)

pub drop-append_short :
    {A : Type 0} (n : ℕ) (xs ys : List A) → n ≤ length xs → drop n (xs ++ ys) ≡ drop n xs ++ ys
drop-append_short zero xs ys h = refl
drop-append_short (suc n) [] ys h = absurd (omega (arith, h))
drop-append_short (suc n) (_ ∷ xs) ys h = drop-append_short n xs ys (omega (arith, h))

drop-nil : {A : Type 0} (n : ℕ) → drop {A = A} n [] ≡ []
drop-nil zero = refl
drop-nil (suc n) = refl

drop_one-drop : {A : Type 0} (n : ℕ) (xs : List A) → drop 1 (drop n xs) ≡ drop (suc n) xs
drop_one-drop zero xs = refl
drop_one-drop (suc n) [] = refl
drop_one-drop (suc n) (_ ∷ xs) = drop_one-drop n xs

-- Adding one element to a list, seen through its latest ones.
module _ {A : Type 0} (n : ℕ) (xs : List A) (x : A) where
  latest-full :
      1 ≤ n → length (latest n xs) ≡ n → latest n (xs ++ x ∷ []) ≡ drop 1 (latest n xs) ++ x ∷ []
  latest-full room h =
      let l = length-append xs (x ∷ []) in
      let d = length-drop (length xs - n) xs in
      let more : length (xs ++ x ∷ []) - n ≡ suc (length xs - n) = omega (arith, l, d, h, room) in
      let short : suc (length xs - n) ≤ length xs = omega (arith, d, h, room) in
      rw more (
        rw (drop_one-drop (length xs - n) xs)
          (drop-append_short (suc (length xs - n)) xs (x ∷ []) short))

  latest-short : 1 ≤ n → length (latest n xs) < n → latest n (xs ++ x ∷ []) ≡ latest n xs ++ x ∷ []
  latest-short room h =
      let l = length-append xs (x ∷ []) in
      let d = length-drop (length xs - n) xs in
      let more : length (xs ++ x ∷ []) - n ≡ length xs - n = omega (arith, l, d, h, room) in
      rw more (drop-append_short (length xs - n) xs (x ∷ []) (omega arith))

push-IsLatest :
    (n : ℕ) (entry : LogEntry) (all : List LogEntry) (buffer : LogBuffer)
    → 1 ≤ n
    → IsLatest n all buffer
    → IsLatest n (all ++ record entry { id = u64 (suc (length all)) } ∷ []) (push entry buffer)
unfolding push
push-IsLatest n entry all buffer room i =
    let numbered = record entry { id = u64 (suc (length all)) } in
    let size = length-drop (length all - n) all in
    let l : length (all ++ numbered ∷ []) ≡ suc (length all) =
      omega (arith, length-append all (numbered ∷ [])) in
    let shown = i.shown in
    let kept = i.kept in
    record {
      kept = i.kept;
      shown = rw i.shown (
          rw i.kept (
            rw i.counted (
              rw (suc-u64 (length all)) (
                if_intro (λ es. es ≡ latest n (all ++ numbered ∷ [])) (length (latest n all) == n) _
                  _ (λ h. sym (latest-full n all numbered room (ground arith)))
                  (λ h. sym (latest-short n all numbered room (ground arith)))))));
      counted = rw i.counted (rw (suc-u64 (length all)) (rw l refl));
    }

push_all-IsLatest :
    (n : ℕ) (entries all : List LogEntry) (buffer : LogBuffer)
    → 1 ≤ n
    → IsLatest n all buffer
    → IsLatest n (all ++ log entries (length all)) (push_all entries buffer)
unfolding push_all log
push_all-IsLatest n [] all buffer room i = rw (append-nil all) i
push_all-IsLatest n (entry ∷ entries) all buffer room i =
    let numbered = record entry { id = u64 (suc (length all)) } in
    let rest =
      push_all-IsLatest n entries (all ++ numbered ∷ []) (push entry buffer) room
        (push-IsLatest n entry all buffer room i) in
    let l : length (all ++ numbered ∷ []) ≡ suc (length all) =
      omega (arith, length-append all (numbered ∷ [])) in
    let at : ℕ → Type 0 = λ k.
      IsLatest n ((all ++ numbered ∷ []) ++ log entries k) (push_all entries (push entry buffer)) in
    rw (← (append_assoc all (numbered ∷ []) (log entries (suc (length all))))) (subst at l rest)

-- After any entries were recorded in a new buffer, it shows the latest ones of them, as many as it
-- has room for, oldest first and numbered from one by when they were recorded.
pub push_all-latest :
    (capacity : ℕ) (entries : List LogEntry)
    → (push_all entries (new_log_buffer capacity)).entries
      ≡ latest (new_log_buffer capacity).capacity (log entries 0)
push_all-latest capacity entries =
    (push_all-IsLatest (new_log_buffer capacity).capacity entries [] (new_log_buffer capacity)
      (ground arith)
      (record {
        kept = refl;
        shown = sym (drop-nil (0 - (new_log_buffer capacity).capacity));
        counted = refl;
      })).shown
