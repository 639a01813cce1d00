-- ===== src/Props.antt =====
-- The property store: proxy/property_store.c and proxy/property_store.h. A value's buffer is the list
-- of its bytes, `none` for NULL; `malloc_ok n` tells whether n bytes can be allocated.

pub mod Store
pub mod Laws
pub mod Entries
use qwswayland.Prelude.{
  ℕ, ◌+◌, ◌*◌, ◌^◌, Bool, true, false, Option, none, some, List, [], ◌∷◌, ◌++◌, ltb, if◌then◌else◌,
  take, length,
}
use qwswayland.Prelude.Int.{ℤ, pos, negsuc, ◌+ℤ◌, ltb_ℤ, eqb_ℤ, to_word}
use qwswayland.Wire.Packet.{to_size}
use qwswayland.HashMap.{HashMap}

-- qwswl_prop_val_t
pub record PropVal : Type 0 where
  pub data_ptr : Option (List ℕ)
  pub len : ℤ

-- PROP_KEY: the shifted half and the low half share no bit, so `|` adds them.
unfoldable pub prop_key : ℤ → ℤ → ℕ
prop_key w p = to_word w * 2 ^ 32 + to_word p

-- qws_prop_mode_t, as far as a `switch` on an `int32_t` tells it.
abbrev pub prop_replace : ℤ
prop_replace = pos 0

abbrev pub prop_prepend : ℤ
prop_prepend = pos 1

abbrev pub prop_append : ℤ
prop_append = pos 2

abbrev pub bytes_of : Option (List ℕ) → List ℕ
bytes_of none = []
bytes_of (some bs) = bs

-- What a mode makes of a value: a new one, or the result of an early return.
pub data Outcome : Type 0 where
  store : PropVal → Outcome
  give_up : Bool → Outcome

module _ (malloc_ok : ℕ → Bool) where
  -- QWS_PROP_REPLACE; the `return -1` on a failed `malloc` is `true` as a `bool`.
  unfoldable pub replace_value : List ℕ → ℤ → PropVal → Outcome
  replace_value bytes len v =
      if ltb_ℤ (pos 0) len
      then (if malloc_ok (to_size len)
          then store (record { data_ptr = some (take (to_size len) bytes); len = len })
          else give_up true)
      else store (record { data_ptr = none; len = pos 0 })

  unfoldable pub prepend_value : List ℕ → ℤ → PropVal → Outcome
  prepend_value bytes len v =
      if ltb_ℤ (pos 0) len
      then (let new_len = len +ℤ v.len in
          if malloc_ok (to_size new_len)
          then store (record {
            data_ptr = some (
                take (to_size len) bytes
                ++ (if ltb_ℤ (pos 0) v.len
                    then take (to_size v.len) (bytes_of v.data_ptr)
                    else []));
            len = new_len;
          })
          else give_up false)
      else store v

  -- `realloc` keeps the old bytes, and the new ones are copied behind them.
  unfoldable pub append_value : List ℕ → ℤ → PropVal → Outcome
  append_value bytes len v =
      if ltb_ℤ (pos 0) len
      then (let new_len = v.len +ℤ len in
          if malloc_ok (to_size new_len)
          then store (record {
            data_ptr =
                some (take (to_size v.len) (bytes_of v.data_ptr) ++ take (to_size len) bytes);
            len = new_len;
          })
          else give_up false)
      else store v

  unfoldable pub set_value : ℤ → List ℕ → ℤ → PropVal → Outcome
  unfolding replace_value prepend_value append_value
  set_value mode bytes len v =
      if eqb_ℤ mode prop_replace
      then replace_value bytes len v
      else if eqb_ℤ mode prop_prepend
      then prepend_value bytes len v
      else if eqb_ℤ mode prop_append
      then append_value bytes len v
      else give_up false

-- The answer of qwsprop_get: found or not, `*data_out` and `*len_out`.
pub record Answer : Type 0 where
  pub found : Bool
  pub data_out : Option (List ℕ)
  pub len_out : ℤ

abbrev pub answer : Option PropVal → Answer
answer none = record { found = false; data_out = none; len_out = negsuc 0 }
answer (some v) = record { found = true; data_out = v.data_ptr; len_out = v.len }

abbrev pub is_some {ℓ} : {A : Type ℓ} → Option A → Bool
is_some none = false
is_some (some a) = true

module _ (hm : HashMap PropVal) where
  open hm use {Map, empty, get, insert, update, erase}

  unfoldable pub qwsprop_init : Map
  qwsprop_init = empty

  -- `false` is out of memory in the table itself.
  unfoldable pub qwsprop_add : Bool → Map → ℤ → ℤ → Bool × Map
  unfolding prop_key
  qwsprop_add table_ok m w p =
      if table_ok
      then (true, insert m (prop_key w p) (record { data_ptr = none; len = pos 0 }))
      else (false, m)

  abbrev pub write_found : Map → ℕ → PropVal → Option PropVal → Bool × Map
  write_found m k v none = (false, m)
  write_found m k v (some w) = (true, update m k v)

  unfoldable pub qwsprop_replace_internal : Map → ℤ → ℤ → Option (List ℕ) → ℤ → Bool × Map
  unfolding prop_key
  qwsprop_replace_internal m w p bytes len =
      write_found m (prop_key w p) (record { data_ptr = bytes; len = len }) (get m (prop_key w p))

  abbrev pub finish_set : Map → ℕ → Outcome → Bool × Map
  finish_set m k (store v) = (true, update m k v)
  finish_set m k (give_up b) = (b, m)

  abbrev pub set_found : (ℕ → Bool) → Map → ℕ → ℤ → List ℕ → ℤ → Option PropVal → Bool × Map
  set_found malloc_ok m k mode bytes len none = (false, m)
  set_found malloc_ok m k mode bytes len (some v) =
      finish_set m k (set_value malloc_ok mode bytes len v)

  unfoldable pub qwsprop_set : (ℕ → Bool) → Map → ℤ → ℤ → ℤ → List ℕ → ℤ → Bool × Map
  unfolding prop_key
  qwsprop_set malloc_ok m w p mode bytes len =
      set_found malloc_ok m (prop_key w p) mode bytes len (get m (prop_key w p))

  unfoldable pub qwsprop_remove : Map → ℤ → ℤ → Bool × Map
  unfolding prop_key
  qwsprop_remove m w p = (is_some (get m (prop_key w p)), erase m (prop_key w p))

  unfoldable pub qwsprop_get : Map → ℤ → ℤ → Answer
  unfolding prop_key
  qwsprop_get m w p = answer (get m (prop_key w p))
