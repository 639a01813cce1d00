-- ===== src/Examples/Locks.antt =====
-- The locks: libqwsproto/qws_lock.c.
use qwswayland.Prelude.{◌≡◌, refl, true, false, none, some, [], ◌∷◌, arith, get_elem?}
use qwswayland.Prelude.Int.{pos}
use qwswayland.Lock.{
  QwsLock, no_counts, qwslock_init_vals, qlock_init_vals, set, with_count, qwslock_lock, semop_take,
  read, write, qlock_lock,
}
use qwswayland.Lock.Nesting.{Nestable, backing_store, communication, index_of, held}
use qwswayland.Lock.Exclusion.{System, locks_it, Reachable, start, step, mutual_exclusion}
use qwswayland.Lock.ReadWrite.{Users, share, QReachable, writer_is_alone, reader_enters}
use qwswayland.Lock.ReadWrite as Rw

-- One process's lock, free, and with the backing store held.
abbrev unheld : QwsLock
unheld = record { owned = true; sysv_semid = pos 5; lock_count = no_counts }

abbrev holder : QwsLock
holder = with_count unheld 0 1

unheld-free : (n : Nestable) → held (index_of n) unheld ≡ false
unheld-free backing_store = refl
unheld-free communication = refl

-- Two processes, the first of which has locked the backing store.
abbrev one_locked : System
one_locked = record { values = set qwslock_init_vals 0 0; locks = holder ∷ unheld ∷ [] }

one_locked-Reachable : Reachable one_locked
unfolding qwslock_lock semop_take
one_locked-Reachable =
    step (start (unheld ∷ unheld ∷ []) (unheld-free, (unheld-free, tt)))
      (locks_it 0 unheld holder (pos 0) (pos 0) refl refl)

mutual_exclusion_example : ¬ (held 0 unheld ≡ true)
mutual_exclusion_example =
    mutual_exclusion one_locked backing_store 0 1 holder unheld one_locked-Reachable refl refl
      (omega arith) refl

-- One process writes, the other has nothing.
abbrev one_writes : Users
one_writes = record { values = set qlock_init_vals 0 0; holding = some write ∷ none ∷ [] }

nobody_yet : QReachable (record { values = qlock_init_vals; holding = none ∷ none ∷ [] })
nobody_yet = Rw.start (none ∷ none ∷ []) refl

one_writes-QReachable : QReachable one_writes
unfolding qlock_lock semop_take
one_writes-QReachable = Rw.step nobody_yet (Rw.locks_it 0 write refl refl)

writer_is_alone_example : ¬ (get_elem? one_writes.holding 1 ≡ some (some read))
writer_is_alone_example =
    writer_is_alone one_writes 0 1 read one_writes-QReachable refl (omega arith)
