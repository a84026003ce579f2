-- ===== src/Controller.antt =====
-- trans_sec/controller: the SDN controller.
pub mod DropReports
pub mod Telescope
pub mod Lengths
pub mod Switches
pub mod Dispatch
pub mod Routing
