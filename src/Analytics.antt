-- ===== src/Analytics.antt =====
-- trans_sec/analytics/oinc.py: the analytics engines.
pub mod Extract
pub mod SimpleAe
pub mod Oinc
