-- ===== src/Tests.antt =====
-- Runs of the modelled code at concrete inputs, and the theorems at inputs that meet their conditions.
mod Sequences
mod Managers
mod Blending
mod Copying
mod Scheduling
mod Tables
mod Stops
