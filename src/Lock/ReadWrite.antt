-- ===== src/Lock/ReadWrite.antt =====
-- The reader-writer lock of libqwsproto/qws_lock.c: qlock_lock and qlock_unlock in every interleaving.
use qwswayland.Prelude.{
  ℕ, ◌+◌, ◌-◌, ◌<◌, ◌≤◌, ◌≡◌, ◌≢◌, Option, none, some, List, arith, get_elem?, sum, sum-set,
  two_le-sum, set,
}
use qwswayland.Prelude.Int.{pos}
use qwswayland.Lock.{
  Triple, semop_take, semop_add, qlock_init_vals, qlock_max_locks, QLockType, read, write, op_val,
  qlock_lock, qlock_unlock,
}

-- What each process holds.
abbrev pub Holding : Type 0
Holding = Option QLockType

abbrev pub share : Holding → ℕ
share none = 0
share (some type) = op_val type

pub record Users : Type 0 where
  pub values : Triple
  pub holding : List Holding

-- A process that holds nothing locks, or one gives back what it holds.
pub data QStep : Users → Users → Type 0 where
  locks_it :
      {values values' : Triple} {holding : List Holding} (i : ℕ) (type : QLockType)
      → get_elem? holding i ≡ some none
      → qlock_lock (some values) type ≡ some (pos 0, some values')
      → QStep
          (record { values = values; holding = holding })
          (record { values = values'; holding = set holding i (some type) })
  unlocks_it :
      {values values' : Triple} {holding : List Holding} (i : ℕ) (type : QLockType)
      → get_elem? holding i ≡ some (some type)
      → qlock_unlock (some values) type ≡ (pos 0, some values')
      → QStep
          (record { values = values; holding = holding })
          (record { values = values'; holding = set holding i none })

pub data QReachable : Users → Type 0 where
  start :
      (holding : List Holding)
      → sum share holding ≡ 0
      → QReachable (record { values = qlock_init_vals; holding = holding })
  step : {s t : Users} → QReachable s → QStep s t → QReachable t

take_balance :
    (values values' : Triple) (type : QLockType)
    → qlock_lock (some values) type ≡ some (pos 0, some values')
    → values'.at0 + op_val type ≡ values.at0
unfolding qlock_lock semop_take
take_balance values values' read e = ground arith
take_balance values values' write e = ground arith

add_balance :
    (values values' : Triple) (type : QLockType)
    → qlock_unlock (some values) type ≡ (pos 0, some values')
    → values'.at0 ≡ values.at0 + op_val type
unfolding qlock_unlock semop_add
add_balance values values' type e = ground arith

-- The counter and what the processes hold add up to QLOCK_MAX_LOCKS.
pub qlock-balance :
    {s : Users} → QReachable s → s.values.at0 + sum share s.holding ≡ qlock_max_locks
qlock-balance (start holding h) = omega (arith, h)
qlock-balance (step r (locks_it {values} {values'} {holding} i type at e)) = omega (
  arith,
  qlock-balance r,
  take_balance values values' type e,
  sum-set share holding i none (some type) at,
)
qlock-balance (step r (unlocks_it {values} {values'} {holding} i type at e)) = omega (
  arith,
  qlock-balance r,
  add_balance values values' type e,
  sum-set share holding i (some type) none at,
)

share_positive : (type : QLockType) → 1 ≤ share (some type)
share_positive read = omega arith
share_positive write = omega arith

-- However the calls interleave, while one process holds the write lock, no other process holds the
-- lock in any mode, if each process locks only while it holds nothing and unlocks only what it
-- holds.
pub writer_is_alone :
    (s : Users) (i j : ℕ) (type : QLockType)
    → QReachable s
    → get_elem? s.holding i ≡ some (some write)
    → i ≢ j
    → ¬ (get_elem? s.holding j ≡ some (some type))
writer_is_alone s i j type r at_i ne at_j = omega (
  arith,
  two_le-sum share s.holding i j (some write) (some type) at_i at_j ne,
  qlock-balance r,
  share_positive type,
)

-- As long as the shares that are taken leave one of QLOCK_MAX_LOCKS, a reader gets the lock at
-- once.
pub reader_enters :
    (s : Users)
    → QReachable s
    → sum share s.holding < qlock_max_locks
    → qlock_lock (some s.values) read
      ≡ some (pos 0, some (record s.values { at0 = s.values.at0 - 1 }))
unfolding qlock_lock semop_take
reader_enters s r h = let b = qlock-balance r in ground arith
