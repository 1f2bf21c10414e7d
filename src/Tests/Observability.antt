-- ===== src/Tests/Observability.antt =====
-- The log buffer at concrete entries.
use wazzap_agent_go.Prelude.{◌≡◌, [], ◌∷◌, some, text, arith}
use wazzap_agent_go.Observability.LogBuffer.{LogEntry, new_log_buffer, full_of}
use wazzap_agent_go.Observability.LogBuffer.Latest.{log, push_all, latest, push_all-latest}
use wazzap_agent_go.Observability.LogBuffer.Kept.{full_of-kept}

abbrev warning : LogEntry
warning = record {
  id = 0;
  time = text "2026-01-02T03:04:05Z";
  level = text "WARN";
  message = text "send failed";
  details = [];
  full = text "send failed: timeout";
}

abbrev started : LogEntry
started = record warning { level = text "INFO"; message = text "started"; full = [] }

push_all-latest_example :
    (push_all (started ∷ warning ∷ started ∷ []) (new_log_buffer 2)).entries
    ≡ latest 2 (log (started ∷ warning ∷ started ∷ []) 0)
push_all-latest_example = push_all-latest 2 (started ∷ warning ∷ started ∷ [])

full_of-kept_example :
    full_of (push_all (started ∷ warning ∷ started ∷ []) (new_log_buffer 2)) 2
    ≡ some (text "send failed: timeout")
full_of-kept_example = full_of-kept 2 (started ∷ []) (started ∷ []) warning (omega arith)
