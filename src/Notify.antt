-- ===== src/Notify.antt =====
-- internal/notify: the messages that go out through Telegram.
pub mod Telegram
