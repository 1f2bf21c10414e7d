-- ===== src/Observability/LogBuffer.antt =====
-- internal/observability/log_buffer.go: the newest events of the application, kept in memory.
pub mod Latest
pub mod Kept
use wazzap_agent_go.Prelude.{
  ℕ, suc, u64, Bool, ◌==◌, ltb, if◌then◌else◌, List, [], ◌∷◌, ◌++◌, length, drop, Option, none,
  some, Text,
}

-- An entry, its texts as record sanitized them.
pub record LogEntry : Type 0 where
  pub id : ℕ
  pub time : Text
  pub level : Text
  pub message : Text
  pub details : Text
  pub full : Text

pub record LogBuffer : Type 0 where
  pub capacity : ℕ
  pub entries : List LogEntry
  pub next_id : ℕ

abbrev pub new_log_buffer : ℕ → LogBuffer
new_log_buffer capacity = record {
  capacity = if ltb capacity 1 then 500 else capacity;
  entries = [];
  next_id = 0;
}

-- The entries are copied over by the ones after them, and the last one is the new entry.
unfoldable pub push : LogEntry → LogBuffer → LogBuffer
push entry buffer =
    let numbered = record entry { id = u64 (suc buffer.next_id) } in
    record buffer {
      next_id = u64 (suc buffer.next_id);
      entries =
          if length buffer.entries == buffer.capacity
          then drop 1 buffer.entries ++ numbered ∷ []
          else buffer.entries ++ numbered ∷ [];
    }

abbrev pub newest_or : Option Text → ℕ → LogEntry → Option Text
newest_or (some text) id entry = some text
newest_or none id entry = if entry.id == id then some entry.full else none

-- The loop of Full runs from the newest entry to the oldest.
unfoldable pub find_newest : ℕ → List LogEntry → Option Text
find_newest id [] = none
find_newest id (entry ∷ entries) = newest_or (find_newest id entries) id entry

unfoldable pub full_of : LogBuffer → ℕ → Option Text
unfolding find_newest
full_of buffer id = find_newest id buffer.entries
