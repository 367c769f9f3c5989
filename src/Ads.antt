-- ===== src/Ads.antt =====
-- ads/: what is sent to Google.
pub mod Executor
