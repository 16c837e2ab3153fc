-- ===== src/Machine/ErrorCodes.antt =====
-- The results of kernel functions: 0, or an error code of kern/errno.h. `other` is a code that comes
-- from outside.
use paging_os.Base.{ℕ, zero, suc}

pub data Errno : Type 0 where
  enomem efault einval enoexec enosys enoent enfile emfile : Errno
  other : ℕ → Errno

pub data Status : Type 0 where
  success : Status
  err : Errno → Status

-- the result of a call that returned this number
abbrev pub status_of : ℕ → Status
status_of zero = success
status_of (suc n) = err (other (suc n))
