-- ===== src/Locks.antt =====
-- The locks of kernel/spinlock.c and kernel/sleeplock.c.
use jklnkhbv.Base.{ℕ, Bool, true, false, Option, none, some, ◌==◌, ◌&&◌, if◌then◌else◌}

-- `struct sleeplock`, without its spinlock and its name.
pub record Sleeplock : Type 0 where
  pub locked : Bool
  pub pid : ℕ

unfoldable pub initsleeplock : Sleeplock
initsleeplock = record { locked = false; pid = 0 }

-- What a pass of the loop of `acquiresleep` by the process `pid` comes to: the lock, or that the
-- process sleeps.
unfoldable pub acquiresleep : ℕ → Sleeplock → Option Sleeplock
acquiresleep pid lk = if lk.locked then none else some (record { locked = true; pid = pid })

-- `releasesleep`, which also wakes the sleepers on the lock.
unfoldable pub releasesleep : Sleeplock → Sleeplock
releasesleep lk = record { locked = false; pid = 0 }

unfoldable pub holdingsleep : ℕ → Sleeplock → Bool
holdingsleep pid lk = lk.locked && lk.pid == pid
