-- ===== src/Lock/Exclusion.antt =====
-- The processes that share a lock of libqwsproto/qws_lock.c, each with its own qwslock_t on the same
-- semaphore set, and the interleavings of their calls.
use qwswayland.Prelude.{
  ℕ, zero, suc, ◌+◌, ◌≡◌, ◌≢◌, refl, ◌∙◌, true, false, some, List, [], ◌∷◌, if◌then◌else◌, arith,
  get_elem?, sum, sum-set, two_le-sum, set,
}
use qwswayland.Prelude.Int.{ℤ, pos, negsuc}
use qwswayland.Lock.{
  QwsLock, Triple, get, semop_take, semop_add, qwslock_init_vals, qwslock_lock, qwslock_unlock,
}
use qwswayland.Lock.Nesting.{Nestable, backing_store, communication, index_of, held}

abbrev pub weight : Nestable → QwsLock → ℕ
weight n lock = if held (index_of n) lock then 1 else 0

-- Every semaphore that a call gives back is one that the process holds.
abbrev pub MayUnlock : QwsLock → ℤ → Type 0
MayUnlock lock which = (n : Nestable) → which ≡ pos (index_of n) → held (index_of n) lock ≡ true

lock_balance :
    (values values' : Triple) (lock lock' : QwsLock) (which ret : ℤ) (n : Nestable)
    → qwslock_lock (some values) lock which ≡ some (ret, lock', some values')
    → get values' (index_of n) + weight n lock' ≡ get values (index_of n) + weight n lock
unfolding qwslock_lock semop_take
lock_balance values values' lock lock' (pos zero) ret backing_store e = ground arith
lock_balance values values' lock lock' (pos zero) ret communication e = ground arith
lock_balance values values' lock lock' (pos (suc zero)) ret backing_store e = ground arith
lock_balance values values' lock lock' (pos (suc zero)) ret communication e = ground arith
lock_balance values values' lock lock' (pos (suc (suc k))) ret backing_store e = ground arith
lock_balance values values' lock lock' (pos (suc (suc k))) ret communication e = ground arith
lock_balance values values' lock lock' (negsuc k) ret n e = ground arith

unlock_balance :
    (values values' : Triple) (lock lock' : QwsLock) (which ret : ℤ) (n : Nestable)
    → MayUnlock lock which
    → qwslock_unlock (some values) lock which ≡ (ret, lock', some values')
    → get values' (index_of n) + weight n lock' ≡ get values (index_of n) + weight n lock
unfolding qwslock_unlock semop_add
unlock_balance values values' lock lock' (pos zero) ret backing_store m e =
    let h = m backing_store refl in ground arith
unlock_balance values values' lock lock' (pos zero) ret communication m e = ground arith
unlock_balance values values' lock lock' (pos (suc zero)) ret backing_store m e = ground arith
unlock_balance values values' lock lock' (pos (suc zero)) ret communication m e =
    let h = m communication refl in ground arith
unlock_balance values values' lock lock' (pos (suc (suc k))) ret backing_store m e = ground arith
unlock_balance values values' lock lock' (pos (suc (suc k))) ret communication m e = ground arith
unlock_balance values values' lock lock' (negsuc k) ret n m e = ground arith

-- The set and the locks of all processes that use it.
pub record System : Type 0 where
  pub values : Triple
  pub locks : List QwsLock

-- A call of one process that returns; a call that waits is no step.
pub data Step : System → System → Type 0 where
  locks_it :
      {values values' : Triple} {locks : List QwsLock} (i : ℕ) (lock lock' : QwsLock)
      (which ret : ℤ)
      → get_elem? locks i ≡ some lock
      → qwslock_lock (some values) lock which ≡ some (ret, lock', some values')
      → Step
          (record { values = values; locks = locks })
          (record { values = values'; locks = set locks i lock' })
  unlocks_it :
      {values values' : Triple} {locks : List QwsLock} (i : ℕ) (lock lock' : QwsLock)
      (which ret : ℤ)
      → get_elem? locks i ≡ some lock
      → MayUnlock lock which
      → qwslock_unlock (some values) lock which ≡ (ret, lock', some values')
      → Step
          (record { values = values; locks = locks })
          (record { values = values'; locks = set locks i lock' })

-- Nobody holds anything at first.
abbrev pub IsFree : List QwsLock → Type 0
IsFree [] = Unit
IsFree (lock ∷ locks) = ((n : Nestable) → held (index_of n) lock ≡ false) × IsFree locks

pub data Reachable : System → Type 0 where
  start :
      (locks : List QwsLock)
      → IsFree locks
      → Reachable (record { values = qwslock_init_vals; locks = locks })
  step : {s t : System} → Reachable s → Step s t → Reachable t

abbrev pub balance : Nestable → System → ℕ
balance n s = get s.values (index_of n) + sum (weight n) s.locks

free-sum : (n : Nestable) (locks : List QwsLock) → IsFree locks → sum (weight n) locks ≡ 0
free-sum n [] h = refl
free-sum n (lock ∷ locks) (h, hs) = rw (h n) (omega (arith, free-sum n locks hs))

Step-balance : {s t : System} (n : Nestable) → Step s t → balance n t ≡ balance n s
Step-balance n (locks_it {values} {values'} {locks} i lock lock' which ret at e) = omega (
  arith,
  lock_balance values values' lock lock' which ret n e,
  sum-set (weight n) locks i lock lock' at,
)
Step-balance n (unlocks_it {values} {values'} {locks} i lock lock' which ret at m e) = omega (
  arith,
  unlock_balance values values' lock lock' which ret n m e,
  sum-set (weight n) locks i lock lock' at,
)

init_value : (n : Nestable) → get qwslock_init_vals (index_of n) ≡ 1
init_value backing_store = refl
init_value communication = refl

-- In every reachable state, each nestable semaphore is 1 if nobody holds it and 0 if somebody does.
pub reachable-balance : {s : System} (n : Nestable) → Reachable s → balance n s ≡ 1
reachable-balance n (start locks h) = omega (arith, init_value n, free-sum n locks h)
reachable-balance n (step r st) = Step-balance n st ∙ reachable-balance n r

held-weight : (n : Nestable) (lock : QwsLock) → held (index_of n) lock ≡ true → weight n lock ≡ 1
held-weight n lock h = rw h refl

-- However the calls of the processes that share a lock interleave, no two of them hold the same
-- nestable semaphore, if each unlocks only what it holds.
pub mutual_exclusion :
    (s : System) (n : Nestable) (i j : ℕ) (a b : QwsLock)
    → Reachable s
    → get_elem? s.locks i ≡ some a
    → get_elem? s.locks j ≡ some b
    → i ≢ j
    → held (index_of n) a ≡ true
    → ¬ (held (index_of n) b ≡ true)
mutual_exclusion s n i j a b r at_i at_j ne ha hb = omega (
  arith,
  two_le-sum (weight n) s.locks i j a b at_i at_j ne,
  reachable-balance n r,
  held-weight n a ha,
  held-weight n b hb,
)
