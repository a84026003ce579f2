-- ===== src/Traffic.antt =====
-- The scripts of trans_sec/device_software, which send test packets and log those that arrive.
pub mod Receiving
pub mod Reports
pub mod Agreement
pub mod Collecting
pub mod Sending
pub mod Bursts
pub mod Wire
pub mod Hops
pub mod RoundTrip
