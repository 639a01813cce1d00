-- ===== src/Lock/Nesting.antt =====
-- Nested use of a lock by one process: qwslock_lock and qwslock_unlock of libqwsproto/qws_lock.c.
use qwswayland.Prelude.{ℕ, ◌+◌, ◌-◌, ◌<◌, ◌≡◌, Bool, true, none, some, ltb, arith}
use qwswayland.Prelude.Int.{pos}
use qwswayland.Lock.{
  QwsLock, Triple, get, set, Semaphores, semop_take, semop_add, count_of, with_count, qwslock_lock,
  qwslock_unlock,
}

-- The two nestable semaphores.
pub data Nestable : Type 0 where
  backing_store : Nestable
  communication : Nestable

abbrev pub index_of : Nestable → ℕ
index_of backing_store = 0
index_of communication = 1

abbrev pub held : ℕ → QwsLock → Bool
held i lock = ltb 0 (count_of lock i)

-- Whoever holds a nestable semaphore locks it again at once, without touching the set, and one
-- unlock undoes that exactly.
pub relock_unlock :
    (sems : Semaphores) (lock : QwsLock) (n : Nestable)
    → held (index_of n) lock ≡ true
    → let i = index_of n in
      let again = with_count lock i (count_of lock i + 1) in
      (qwslock_lock sems lock (pos i) ≡ some (pos 0, again, sems))
      × (qwslock_unlock sems again (pos i) ≡ (pos 0, lock, sems))
unfolding qwslock_lock qwslock_unlock
relock_unlock sems lock backing_store e = (ground arith, ground arith)
relock_unlock sems lock communication e = (ground arith, ground arith)

-- Whoever does not hold a nestable semaphore takes one from a positive value, and one unlock gives
-- it back.
pub lock_unlock :
    (values : Triple) (lock : QwsLock) (n : Nestable)
    → count_of lock (index_of n) ≡ 0
    → 0 < get values (index_of n)
    → let i = index_of n in
      let taken = some (set values i (get values i - 1)) in
      (qwslock_lock (some values) lock (pos i) ≡ some (pos 0, with_count lock i 1, taken))
      × (qwslock_unlock taken (with_count lock i 1) (pos i) ≡ (pos 0, lock, some values))
unfolding qwslock_lock qwslock_unlock semop_take semop_add
lock_unlock values lock backing_store e h = (ground arith, ground arith)
lock_unlock values lock communication e h = (ground arith, ground arith)

pub lock_waits :
    (values : Triple) (lock : QwsLock) (n : Nestable)
    → count_of lock (index_of n) ≡ 0
    → get values (index_of n) ≡ 0
    → qwslock_lock (some values) lock (pos (index_of n)) ≡ none
unfolding qwslock_lock semop_take
lock_waits values lock backing_store e h = ground arith
lock_waits values lock communication e h = ground arith
