-- ===== src/Examples/Dispatch.antt =====
-- The property commands of two clients: proxy/proxy.c.
use qwswayland.Prelude.{ℕ, ◌≡◌, refl, Bool, true, false, Option, none, some, List, [], ◌∷◌, arith}
use qwswayland.Prelude.Int.{ℤ, pos}
use qwswayland.HashMap.{HashMap, assoc_map}
use qwswayland.Props.{prop_key, prop_replace, prop_append}
use qwswayland.Examples.Properties.{table, one_property, one-AllValid, found}
use qwswayland.Props.Laws.{view}
use qwswayland.Client.Windows.{Present, Client}
use qwswayland.Dispatch.{
  notify, add_property, set_property, get_property, Server, dispatch_property, notify_changed,
}
use qwswayland.Lock.{QwsLock}
use qwswayland.Dispatch.Identify.{Display}
use qwswayland.Dispatch.Notices.{Among, RepliesWith, set_then_get, subscriber_notified}

abbrev pub windows : HashMap ℕ
windows = assoc_map ℕ

abbrev pub interests : HashMap Present
interests = assoc_map Present

abbrev pub client_with : ℤ → Client windows interests
client_with id = record {
  fd = pos 9;
  client_id = id;
  window_map = [];
  window_stack = [];
  next_window_id = pos 1000;
  subscriptions = [];
  app_name = none;
}

abbrev plenty : ℕ → Bool
plenty n = true

-- Two clients, and property 3 of window 7.
abbrev two_clients : Server table windows interests
two_clients = record {
  prop_store = one_property;
  clients = client_with (pos 1) ∷ client_with (pos 2) ∷ [];
}

holds : view table one_property (prop_key (pos 7) (pos 3)) ≡ some (65 ∷ [])
holds = rw found refl

set_then_get_example :
    let run = dispatch_property table windows interests true plenty in
    let after =
      (run two_clients 0 (set_property (pos 7) (pos 3) prop_replace (66 ∷ 67 ∷ []) (pos 2))).0 in
    RepliesWith table windows interests
      (pos 2)
      (pos 7)
      (pos 3)
      (66 ∷ 67 ∷ [])
      (run after 1 (get_property (pos 7) (pos 3))).1
set_then_get_example =
    set_then_get table windows interests true plenty two_clients 0 1 (pos 7) (pos 3) (65 ∷ [])
      (66 ∷ 67 ∷ []) (λ n. refl) one-AllValid holds refl

subscriber_notified_example :
    let run = dispatch_property table windows interests true plenty in
    let after = (run two_clients 0 (add_property (pos 7) (pos 4))).0 in
    Among
      (notify (pos 1) (pos 7) (pos 4) notify_changed)
      (run after 1 (set_property (pos 7) (pos 4) prop_append (66 ∷ []) (pos 1))).1
subscriber_notified_example =
    subscriber_notified table windows interests true plenty two_clients 0 1 (client_with (pos 1))
      (pos 7) (pos 4) prop_append (66 ∷ []) (pos 1) (omega arith, omega arith)
      (omega arith, omega arith) refl refl

abbrev no_text : List ℕ → ℕ → Option (List ℕ)
no_text bytes n = none

abbrev display : Display
display = record {
  shm_id = pos 4;
  display_spec = 118 ∷ [];
  screen_width = pos 800;
  screen_height = pos 480;
}

abbrev open_lock : QwsLock
open_lock = record {
  owned = false;
  sysv_semid = pos 6;
  lock_count = record { at0 = 0; at1 = 0; at2 = 0 };
}
