-- ===== src/Livox/Semaphore.antt =====
-- comm/semaphore.h and .cpp: the counting semaphore between the receiving and the publishing thread.
use robot_nav.Prelude.{ℕ, zero, suc, ◌+◌, Option, none, some, ◌==◌, if◌then◌else◌}

unfoldable pub signal : ℕ → ℕ
signal count = count + 1

-- `Wait` blocks (`none`) until the count is positive.
unfoldable pub wait : ℕ → Option ℕ
wait zero = none
wait (suc count) = some count

-- `if (s.GetCount() <= 0) s.Signal();` on a count that is never negative.
unfoldable pub signal_if_idle : ℕ → ℕ
unfolding signal
signal_if_idle count = if count == 0 then signal count else count
