-- ===== src/Examples.antt =====
-- Small states, and runs of the operations on them.
pub mod Lists
pub mod Pools
pub mod Timing
pub mod Mail
pub mod Calls
pub mod Turns
pub mod Boot
pub mod Running
pub mod Waits
pub mod Lost
pub mod Output
pub mod Programs
pub mod Opening
