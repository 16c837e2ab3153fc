-- ===== src/Machine.antt =====
-- What all parts of the kernel share: the constants of the MIPS machine and of vm.h, 32-bit words,
-- the outcome of a kernel function (a result, a panic, or a loop that does not end), the error
-- codes, and the interfaces to what the repository does not hold.
mod Words
mod Run
mod ErrorCodes
pub mod Platform
pub mod Threadlists
pub mod Bits
pub use Words.*
pub use Run.*
pub use ErrorCodes.*
