-- ===== src/Witness.antt =====
-- The theorems at concrete inputs: a table of frames, a TLB, a swap file and an address space, over
-- concrete devices that obey their laws.
pub mod Devices
mod Frames
mod Booting
mod Translation
mod Swapping
mod Loading
mod Preparing
mod Ending
mod Reaping
mod Faulting
mod Locking
mod Filing
mod Processes
mod Executing
mod Threading
mod Starting
mod Calling
mod Forks
mod Menus
