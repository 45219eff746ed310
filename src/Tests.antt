-- ===== src/Tests.antt =====
-- The theorems at concrete inputs.
mod Data
mod Shells
mod Shows
mod Tasks
mod Boot
mod Memories
mod Texts
mod Screens
mod Machines
mod Devices
mod Kernels
mod Floppies
mod Small
mod Clocks
mod Decembers
mod Events
mod Prints
mod Programs
