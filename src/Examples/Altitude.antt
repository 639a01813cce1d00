-- ===== src/Examples/Altitude.antt =====
-- A change of altitude by a client with two windows: proxy/proxy.c.
use qwswayland.Prelude.{ℕ, ◌≡◌, true, false, Option, none, some, [], ◌∷◌}
use qwswayland.Prelude.Int.{pos, to_word}
use qwswayland.HashMap.{HashMap, assoc_map}
use qwswayland.Client.{Window}
use qwswayland.Client.Windows.{Present, Client}
use qwswayland.Client.Windows.Lookup.{stands}

abbrev windows : HashMap ℕ
windows = assoc_map ℕ

abbrev interests : HashMap Present
interests = assoc_map Present

abbrev shown : ℕ → Window
shown address = record {
  address = address;
  qws_id = pos address;
  on_top = false;
  opacity = 255;
  win_flags = pos 1;
  geometry = record { x1 = pos 0; y1 = pos 0; x2 = pos 9; y2 = pos 9 } ∷ [];
  visible_rects = [];
  parent = none;
  wl_surface = some address;
  wl_subsurface = none;
  xdg_surface = none;
  zqt_shell_surface = some address;
}

abbrev client : Client windows interests
client = record {
  fd = pos 4;
  client_id = pos 1;
  window_map = (to_word (pos 1), 1) ∷ (to_word (pos 2), 2) ∷ [];
  window_stack = shown 1 ∷ shown 2 ∷ [];
  next_window_id = pos 1000;
  subscriptions = [];
  app_name = none;
}

-- The window of an id, if there is one, stands in the stack.
Standing : Option ℕ → Type 0
Standing none = Unit
Standing (some address) = stands address client.window_stack ≡ true
