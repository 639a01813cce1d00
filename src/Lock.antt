-- ===== src/Lock.antt =====
-- The locks that clients and the proxy share: libqwsproto/qws_lock.c and qws_lock.h, with System V
-- semaphores, the build without QWS_IPC_POSIX. A semaphore set is the array of its values, `none` once
-- it is removed. An operation that would wait has no result (`none`); `semop` that is interrupted has
-- changed nothing and is repeated, so that only its final answer counts. SEM_UNDO, which the kernel
-- applies when a process ends, is not modelled.
pub mod Nesting
pub mod Exclusion
pub mod ReadWrite
use qwswayland.Prelude.{
  ℕ, zero, suc, ◌+◌, ◌-◌, Bool, true, false, ◌&&◌, ◌||◌, Option, none, some, ltb, leb,
  if◌then◌else◌,
}
use qwswayland.Prelude.Int.{ℤ, pos, negsuc, ltb_ℤ, leb_ℤ, eqb_ℤ}
use qwswayland.Wire.Packet.{to_size}

-- An array of LOCK_NUM_SEMS numbers, with the reads and writes that the code makes within it.
pub record Triple : Type 0 where
  pub at0 : ℕ
  pub at1 : ℕ
  pub at2 : ℕ

abbrev pub get : Triple → ℕ → ℕ
get t zero = t.at0
get t (suc zero) = t.at1
get t (suc (suc i)) = t.at2

abbrev pub set : Triple → ℕ → ℕ → Triple
set t zero v = record t { at0 = v }
set t (suc zero) v = record t { at1 = v }
set t (suc (suc i)) v = record t { at2 = v }

-- struct qws_lock with its base; the numeric id is the set's identifier.
pub record QwsLock : Type 0 where
  pub owned : Bool
  pub sysv_semid : ℤ
  pub lock_count : Triple

abbrev pub Semaphores : Type 0
Semaphores = Option Triple

-- LOCK_NUM_SEMS, QLOCK_MAX_LOCKS and the initial values.
abbrev pub lock_num_sems : ℤ
lock_num_sems = pos 3

abbrev pub qlock_max_locks : ℕ
qlock_max_locks = 200

abbrev pub qwslock_init_vals : Triple
qwslock_init_vals = record { at0 = 1; at1 = 1; at2 = 0 }

abbrev pub qlock_init_vals : Triple
qlock_init_vals = record { at0 = qlock_max_locks; at1 = 1; at2 = 1 }

-- `semop` with one operation that takes n: it waits until the value is at least n.
unfoldable pub semop_take : Semaphores → ℕ → ℕ → Option (ℤ × Semaphores)
semop_take none which n = some (negsuc 0, none)
semop_take (some values) which n =
    if leb n (get values which)
    then some (pos 0, some (set values which (get values which - n)))
    else none

-- `semop` with one operation that adds n.
unfoldable pub semop_add : Semaphores → ℕ → ℕ → ℤ × Semaphores
semop_add none which n = (negsuc 0, none)
semop_add (some values) which n = (pos 0, some (set values which (get values which + n)))

abbrev pub no_counts : Triple
no_counts = record { at0 = 0; at1 = 0; at2 = 0 }

-- qwslock_create; `new_set` is what `semget` and SETALL make, an identifier or a failure.
unfoldable pub qwslock_create : Bool → Option ℤ → Option (QwsLock × Semaphores)
qwslock_create malloc_ok none = none
qwslock_create malloc_ok (some semid) =
    if malloc_ok
    then some (
      record { owned = true; sysv_semid = semid; lock_count = no_counts },
      some qwslock_init_vals,
    )
    else none

unfoldable pub qwslock_open : Bool → ℤ → Option QwsLock
qwslock_open malloc_ok id =
    if malloc_ok
    then some (record { owned = false; sysv_semid = id; lock_count = no_counts })
    else none

-- The set afterwards: removed by the owner, or by force.
unfoldable pub qwslock_destroy : Option QwsLock → Bool → Semaphores → Semaphores
qwslock_destroy none force sems = sems
qwslock_destroy (some lock) force sems =
    if (force || lock.owned) && leb_ℤ (pos 0) lock.sysv_semid then none else sems

unfoldable pub qwslock_id : QwsLock → ℤ
qwslock_id lock = lock.sysv_semid

abbrev pub out_of_range : ℤ → Bool
out_of_range which = ltb_ℤ which (pos 0) || leb_ℤ lock_num_sems which

abbrev pub count_of : QwsLock → ℕ → ℕ
count_of lock which = get lock.lock_count which

abbrev pub with_count : QwsLock → ℕ → ℕ → QwsLock
with_count lock which n = record lock { lock_count = set lock.lock_count which n }

-- The end of qwslock_lock: a successful wait for a nestable semaphore sets its count to 1.
abbrev pub finish_lock : QwsLock → ℕ → Option (ℤ × Semaphores) → Option (ℤ × QwsLock × Semaphores)
finish_lock lock which none = none
finish_lock lock which (some (ret, sems)) =
    some (ret, (if eqb_ℤ ret (pos 0) && ltb which 2 then with_count lock which 1 else lock), sems)

-- The result, the lock and the set; `none` where the call waits.
unfoldable pub qwslock_lock : Semaphores → QwsLock → ℤ → Option (ℤ × QwsLock × Semaphores)
unfolding semop_take
qwslock_lock sems lock which =
    let i = to_size which in
    if out_of_range which
    then some (negsuc 0, lock, sems)
    else if ltb i 2 && ltb 0 (count_of lock i)
    then some (pos 0, with_count lock i (count_of lock i + 1), sems)
    else finish_lock lock i (semop_take sems i 1)

unfoldable pub qwslock_unlock : Semaphores → QwsLock → ℤ → ℤ × QwsLock × Semaphores
unfolding semop_add
qwslock_unlock sems lock which =
    let i = to_size which in
    let lock' =
      if ltb i 2 && ltb 0 (count_of lock i)
      then with_count lock i (count_of lock i - 1)
      else lock in
    let (ret, sems') = semop_add sems i 1 in
    if out_of_range which
    then (negsuc 0, lock, sems)
    else if ltb i 2 && (ltb 0 (count_of lock i) && ltb 0 (count_of lock' i))
    then (pos 0, lock', sems)
    else (ret, lock', sems')

unfoldable pub qwslock_wait : Semaphores → QwsLock → ℤ → Option (ℤ × QwsLock × Semaphores)
unfolding qwslock_lock
qwslock_wait sems lock which = qwslock_lock sems lock which

unfoldable pub qwslock_get_value : Semaphores → ℤ → ℤ
qwslock_get_value none which = negsuc 0
qwslock_get_value (some values) which =
    if out_of_range which then negsuc 0 else pos (get values (to_size which))

-- qlock_type_t
pub data QLockType : Type 0 where
  read : QLockType
  write : QLockType

-- What an operation takes from the counter, and gives back.
abbrev pub op_val : QLockType → ℕ
op_val read = 1
op_val write = qlock_max_locks

unfoldable pub qlock_lock : Semaphores → QLockType → Option (ℤ × Semaphores)
unfolding semop_take
qlock_lock sems type = semop_take sems 0 (op_val type)

unfoldable pub qlock_unlock : Semaphores → QLockType → ℤ × Semaphores
unfolding semop_add
qlock_unlock sems type = semop_add sems 0 (op_val type)
