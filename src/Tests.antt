-- ===== src/Tests.antt =====
-- Concrete inputs: each module applies the results of a part of the program to them.
mod Hashing
mod Hexes
mod Mining
mod Frames
mod Pools
mod Devices
mod Ranges
mod Backends
mod Texts
mod Turns
mod Sessions
mod Rates
