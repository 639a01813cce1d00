-- ===== src/Dispatch.antt =====
-- The property commands of qwswl_dispatch_command, and the broadcast of property changes, in
-- proxy/proxy.c. The clients are listed in the order in which qwswl_client_foreach (proxy/lifecycle.c)
-- visits them; a command names its client by its place there. What is sent, and what goes on to the
-- clipboard (proxy/clipboard.c), is listed as effects.
pub mod Altitude
pub mod Identify
pub mod Notices
use qwswayland.Prelude.{
  ℕ, zero, suc, Bool, true, false, ◌&&◌, ◌||◌, Option, none, some, List, [], ◌∷◌, if◌then◌else◌,
  get_elem?,
}
use qwswayland.Prelude.Int.{ℤ, pos, negsuc, eqb_ℤ}
use qwswayland.HashMap.{HashMap}
use qwswayland.Wire.Command.{Command, of_type, change_altitude, region, repaint_region, region_move}
use qwswayland.Props.{
  PropVal, Answer, prop_replace, qwsprop_add, qwsprop_set, qwsprop_remove, qwsprop_get,
}
use qwswayland.Client.Windows.{
  Present, Client, qwswl_client_subscribe, qwswl_client_unsubscribe, qwswl_client_is_subscribed,
}

-- QWS_PROPERTY_TEXTCLIPBOARD
abbrev pub text_clipboard : ℤ
text_clipboard = pos 424242

-- qws_prop_notify_state_t
abbrev pub notify_changed : ℤ
notify_changed = pos 0

abbrev pub notify_deleted : ℤ
notify_deleted = pos 1

-- An event to the client with an id, a call of the clipboard, or the end of the program by a failed
-- assertion.
pub data Effect : Type 0 where
  notify : ℤ → ℤ → ℤ → ℤ → Effect
  reply : ℤ → ℤ → ℤ → Option (List ℕ) → ℤ → Effect
  clipboard_set : List ℕ → ℤ → Effect
  reply_from_clipboard : ℤ → ℤ → ℤ → Effect
  assertion_fails : Effect

-- The commands with their payload and its length.
pub data PropertyCommand : Type 0 where
  add_property : ℤ → ℤ → PropertyCommand
  remove_property : ℤ → ℤ → PropertyCommand
  set_property : ℤ → ℤ → ℤ → List ℕ → ℤ → PropertyCommand
  get_property : ℤ → ℤ → PropertyCommand

abbrev pub is_clipboard : ℤ → ℤ → Bool
is_clipboard window property = eqb_ℤ window (pos 0) && eqb_ℤ property text_clipboard

abbrev pub update_at {ℓ} : {A : Type ℓ} → ℕ → (A → A) → List A → List A
update_at i f [] = []
update_at zero f (x ∷ xs) = f x ∷ xs
update_at (suc i) f (x ∷ xs) = x ∷ update_at i f xs

-- The commands for whose end the client waits.
unfoldable pub is_synchronous : Option Command → Bool
is_synchronous (some change_altitude) = true
is_synchronous (some region) = true
is_synchronous (some repaint_region) = true
is_synchronous (some region_move) = true
is_synchronous _ = false

unfoldable pub qws_is_synchronous_command : ℤ → Bool
unfolding is_synchronous of_type
qws_is_synchronous_command type = is_synchronous (of_type type)

module _ (store : HashMap PropVal) (windows : HashMap ℕ) (interests : HashMap Present) where
  -- The part of qwswl_state_t that the property commands use.
  pub record Server : Type 0 where
    pub prop_store : store.Map
    pub clients : List (Client windows interests)

  unfoldable pub qwswl_broadcast_property_notify :
      List (Client windows interests) → ℤ → ℤ → ℤ → List Effect
  qwswl_broadcast_property_notify [] window property state = []
  qwswl_broadcast_property_notify (cl ∷ clients) window property state =
      let rest = qwswl_broadcast_property_notify clients window property state in
      if qwswl_client_is_subscribed windows interests cl window property
      then notify cl.client_id window property state ∷ rest
      else rest

  abbrev pub reply_answer : ℤ → ℤ → ℤ → Answer → List Effect
  reply_answer client window property found =
      reply client window property found.data_out found.len_out ∷ []

  abbrev pub client_id_at : List (Client windows interests) → ℕ → ℤ
  client_id_at [] i = negsuc 0
  client_id_at (cl ∷ clients) zero = cl.client_id
  client_id_at (cl ∷ clients) (suc i) = client_id_at clients i

  -- One property command of the client at place i. The results of qwsprop_add and qwsprop_set are not
  -- looked at.
  unfoldable pub dispatch_property :
      Bool → (ℕ → Bool) → Server → ℕ → PropertyCommand → Server × List Effect
  unfolding qwsprop_add qwsprop_set qwsprop_remove qwsprop_get qwswl_client_subscribe
      qwswl_client_unsubscribe qwswl_broadcast_property_notify
  dispatch_property table_ok malloc_ok s i (add_property w p) = (
    record {
      prop_store = (qwsprop_add store table_ok s.prop_store w p).1;
      clients = update_at i (λ cl. qwswl_client_subscribe windows interests cl w p) s.clients;
    },
    [],
  )
  dispatch_property table_ok malloc_ok s i (remove_property w p) =
      let (removed, props) = qwsprop_remove store s.prop_store w p in
      let clients =
        update_at i (λ cl. qwswl_client_unsubscribe windows interests cl w p) s.clients in
      (
        record { prop_store = props; clients = clients },
        (if removed then qwswl_broadcast_property_notify clients w p notify_deleted else []),
      )
  dispatch_property table_ok malloc_ok s i (set_property w p mode bytes len) =
      if is_clipboard w p
      then (s, (if eqb_ℤ mode prop_replace then clipboard_set bytes len else assertion_fails) ∷ [])
      else (
        record s { prop_store = (qwsprop_set store malloc_ok s.prop_store w p mode bytes len).1 },
        qwswl_broadcast_property_notify s.clients w p notify_changed,
      )
  dispatch_property table_ok malloc_ok s i (get_property w p) =
      if is_clipboard w p
      then (s, reply_from_clipboard (client_id_at s.clients i) w p ∷ [])
      else (s, reply_answer (client_id_at s.clients i) w p (qwsprop_get store s.prop_store w p))
