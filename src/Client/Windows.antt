-- ===== src/Client/Windows.antt =====
-- A client's windows, ids and subscriptions: qwswl_client_t and the functions on it in
-- proxy/client.c. `none` is an assertion that fails; that of qwswl_remove_window_from_client is met by
-- its only caller, which passes the id of a window that has been added.
pub mod Lookup
use qwswayland.Prelude.{
  ℕ, zero, suc, ◌+◌, ◌-◌, ◌*◌, ◌/◌, Bool, true, false, not, ◌&&◌, ◌>>=◌, Option, none, some, List,
  [], ◌∷◌, if◌then◌else◌, take,
}
use qwswayland.Prelude.Int.{ℤ, pos, negsuc, ◌+ℤ◌, leb_ℤ, ltb_ℤ, to_word, wrap}
use qwswayland.Wire.Packet.{to_size}
use qwswayland.HashMap.{HashMap}
use qwswayland.Props.{prop_key, is_some}
use qwswayland.Client.{
  Window, qwswl_allocate_window_with_id, push_window_to_stack, erase_from_stack,
}

-- The members of a hash set have no value.
pub data Present : Type 0 where
  present : Present

-- `client_id * 1000`
unfoldable pub first_window_id : ℤ → ℤ
first_window_id (pos n) = wrap (pos (n * 1000))
first_window_id (negsuc n) = wrap (negsuc (n * 1000 + 999))

module _ (windows : HashMap ℕ) (interests : HashMap Present) where
  -- qwswl_client_t without the parser, the lock and the cursors, which other modules model.
  pub record Client : Type 0 where
    pub fd : ℤ
    pub client_id : ℤ
    pub window_map : windows.Map
    pub window_stack : List Window
    pub next_window_id : ℤ
    pub subscriptions : interests.Map
    pub app_name : Option (List ℕ)

  unfoldable pub qwswl_create_client : ℤ → ℤ → Client
  unfolding first_window_id
  qwswl_create_client fd id = record {
    fd = fd;
    client_id = id;
    window_map = windows.empty;
    window_stack = [];
    next_window_id = first_window_id id;
    subscriptions = interests.empty;
    app_name = none;
  }

  unfoldable pub qwswl_client_subscribe : Client → ℤ → ℤ → Client
  unfolding prop_key
  qwswl_client_subscribe cl window property = record cl {
    subscriptions = interests.insert cl.subscriptions (prop_key window property) present;
  }

  unfoldable pub qwswl_client_unsubscribe : Client → ℤ → ℤ → Client
  unfolding prop_key
  qwswl_client_unsubscribe cl window property = record cl {
    subscriptions = interests.erase cl.subscriptions (prop_key window property);
  }

  unfoldable pub qwswl_client_is_subscribed : Client → ℤ → ℤ → Bool
  unfolding prop_key
  qwswl_client_is_subscribed cl window property =
      is_some (interests.get cl.subscriptions (prop_key window property))

  unfoldable pub qwswl_allocate_ids : Client → ℤ → Option (ℤ × Client)
  qwswl_allocate_ids cl count =
      if ltb_ℤ (pos 0) count
      then some (
        wrap (cl.next_window_id +ℤ pos 1),
        record cl { next_window_id = wrap (cl.next_window_id +ℤ count) },
      )
      else none

  -- `convert` is qws_convert_from_utf16 on so many 16-bit units, `none` its failure.
  unfoldable pub qwswl_client_set_app_name :
      (List ℕ → ℕ → Option (List ℕ)) → Client → List ℕ → ℤ → Client
  qwswl_client_set_app_name convert cl utf16 byte_len =
      if leb_ℤ byte_len (pos 0)
      then record cl { app_name = none }
      else record cl { app_name = convert utf16 (to_size byte_len / 2) }

  unfoldable pub qwswl_add_window_to_client : Client → Window → Option Client
  qwswl_add_window_to_client cl win =
      if ltb_ℤ (pos 0) win.qws_id && not (is_some (windows.get cl.window_map (to_word win.qws_id)))
      then some
          (record cl { window_map = windows.insert cl.window_map (to_word win.qws_id) win.address })
      else none

  abbrev pub found_or_new : Client → ℕ → ℤ → Option ℕ → Option (ℕ × Client)
  found_or_new cl fresh qws_id (some address) = some (address, cl)
  found_or_new cl fresh qws_id none =
      let win = qwswl_allocate_window_with_id fresh qws_id in
      qwswl_add_window_to_client cl win >>= λ with_window. some (
        fresh,
        record with_window { window_stack = push_window_to_stack with_window.window_stack win },
      )

  -- The pointer that is returned; `fresh` is the address of a window that `calloc` would give.
  unfoldable pub qwswl_find_or_allocate_window : Client → ℕ → ℤ → Option (ℕ × Client)
  unfolding qwswl_allocate_window_with_id qwswl_add_window_to_client push_window_to_stack
  qwswl_find_or_allocate_window cl fresh qws_id =
      if ltb_ℤ (pos 0) qws_id
      then found_or_new cl fresh qws_id (windows.get cl.window_map (to_word qws_id))
      else none

  abbrev pub remove_found : Client → ℤ → Option ℕ → Client
  remove_found cl qws_id none = cl
  remove_found cl qws_id (some address) = record cl {
    window_map = windows.erase cl.window_map (to_word qws_id);
    window_stack = erase_from_stack address cl.window_stack;
  }

  unfoldable pub qwswl_remove_window_from_client : Client → ℤ → Client
  unfolding erase_from_stack
  qwswl_remove_window_from_client cl qws_id =
      remove_found cl qws_id (windows.get cl.window_map (to_word qws_id))
