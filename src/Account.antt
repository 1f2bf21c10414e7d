-- ===== src/Account.antt =====
-- internal/account: the runtime of one account.
pub mod Runtime
