-- ===== src/Base/Errno.antt =====
-- Error codes and results. `err e` stands for the negative number `-e` that a function returns.
use Prim.Native.Nat.{ℕ}

pub data Errno : Type 0 where
  eperm enoent eintr_code eio ebadf enomem efault ebusy enodev enotdir eisdir einval emfile : Errno
  enosys eoverflow esrch ebadfd enotty enametoolong eproto echild etimedout eprotonosupport : Errno

pub data Ret : Type 0 where
  ok : ℕ → Ret
  err : Errno → Ret
