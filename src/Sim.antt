-- ===== src/Sim.antt =====
-- The simulator of sim/src: its devices and the bus that the processor reads and writes.
pub mod Via
pub mod Um245
pub mod Bus
pub mod Emulators
pub mod Main
pub mod Labels
pub mod SectorDisk
mod Witnesses
