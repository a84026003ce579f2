-- ===== src/Examples.antt =====
-- Concrete runs of the modelled code, at which the theorems apply.
mod Detecting
mod Paths
mod Encoding
mod Devices
mod Dropping
mod Controlling
mod Looping
mod Programs
mod Gateways
mod Tables
mod Sniffing
mod Searching
mod Unreached
mod Topologies
mod Naming
