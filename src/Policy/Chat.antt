-- ===== src/Policy/Chat.antt =====
-- The kinds of chats, internal/conversation/message.go.
use wazzap_agent_go.Prelude.{ℕ}

pub data ChatKind : Type 0 where
  direct group status : ChatKind
  other : ℕ → ChatKind
