-- ===== src/Mining.antt =====
-- src/stratum/loop_stratum.rs: the mining loop around a launch. `Mining.Source` is the work intake,
-- `Mining.View` the GPU's sample and the view that the GPU watchdog has of the loop,
-- `Mining.Sweeps` what a sweep leaves, `Mining.Turn` a whole turn.
pub mod Source
pub mod View
pub mod Stall
pub mod Turn
pub mod Sweeps
