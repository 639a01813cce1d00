-- ===== src/Dispatch/Identify.antt =====
-- QWS_CMD_IDENTIFY and QWS_CMD_CREATE of qwswl_dispatch_command in proxy/proxy.c, and the size of the
-- screen from wl_output_mode in proxy/lifecycle.c. `none` is an
-- assertion that fails. The events that are sent are listed with their members.
pub mod Ids
pub mod Screen
use qwswayland.Prelude.{
  ℕ, Bool, ◌&&◌, Option, none, some, List, [], ◌∷◌, ◌++◌, if◌then◌else◌, ◌>>=◌,
}
use qwswayland.Prelude.Int.{ℤ, pos, ◌-ℤ◌, leb_ℤ, ltb_ℤ, eqb_ℤ}
use qwswayland.HashMap.{HashMap}
use qwswayland.Lock.{QwsLock, qwslock_open}
use qwswayland.Client.Windows.{Present, Client, qwswl_allocate_ids, qwswl_client_set_app_name}

-- QWS_EVT_CONNECTED with the client's id, the shared memory and the display's name, QWS_EVT_CREATION,
-- and QWS_EVT_MAX_WINDOW_RECT.
pub data StartEvent : Type 0 where
  connected : ℤ → ℤ → List ℕ → StartEvent
  creation : ℤ → ℤ → StartEvent
  max_window_rect : ℤ → ℤ → ℤ → ℤ → ℤ → StartEvent

-- The members of qwswl_state_t that are told.
pub record Display : Type 0 where
  pub shm_id : ℤ
  pub display_spec : List ℕ
  pub screen_width : ℤ
  pub screen_height : ℤ

-- The mode of an output, and whether it is the current one. A size that was given at the start stays.
unfoldable pub wl_output_mode : Display → Bool → ℤ → ℤ → Display
wl_output_mode d current width height =
    if current && (eqb_ℤ d.screen_width (pos 0) && eqb_ℤ d.screen_height (pos 0))
    then record d { screen_width = width; screen_height = height }
    else d

abbrev pub send_max_region_event : Display → StartEvent
send_max_region_event d =
    max_window_rect (pos 1) (pos 0) (pos 0) (d.screen_width -ℤ pos 1) (d.screen_height -ℤ pos 1)

module _ (windows : HashMap ℕ) (interests : HashMap Present) where
  unfoldable pub create_ids :
      Client windows interests → ℤ → Option (Client windows interests × List StartEvent)
  unfolding qwswl_allocate_ids
  create_ids cl count = qwswl_allocate_ids windows interests cl count >>= λ given.
      some (given.1, creation given.0 count ∷ [])

  -- The client is disconnected, or goes on with its lock.
  pub data Identified : Type 0 where
    disconnected : Identified
    identified : Client windows interests → QwsLock → List StartEvent → Identified

  abbrev pub attached :
      (List ℕ → ℕ → Option (List ℕ))
      → Display
      → Client windows interests
      → List ℕ
      → ℤ
      → Option QwsLock
      → Option Identified
  attached convert d cl name id_len none = some disconnected
  attached convert d cl name id_len (some lock) =
      create_ids (qwswl_client_set_app_name windows interests convert cl name id_len) (pos 30)
      >>= λ made. some (
          identified made.0 lock (
            connected cl.client_id d.shm_id d.display_spec ∷ made.1
            ++ send_max_region_event d ∷ []))

  unfoldable pub identify :
      (List ℕ → ℕ → Option (List ℕ))
      → Bool
      → Display
      → Client windows interests
      → Option QwsLock
      → ℤ
      → List ℕ
      → ℤ
      → Option Identified
  unfolding create_ids qwslock_open qwswl_client_set_app_name
  identify convert malloc_ok d cl lock lock_id name id_len =
      attached convert d cl name id_len
        (if leb_ℤ (pos 0) lock_id then qwslock_open malloc_ok lock_id else lock)

  unfoldable pub create :
      Client windows interests → ℤ → Option (Client windows interests × List StartEvent)
  unfolding create_ids
  create cl count = if ltb_ℤ count (pos 0) then none else create_ids cl count
