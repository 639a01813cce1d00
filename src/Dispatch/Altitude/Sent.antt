-- ===== src/Dispatch/Altitude/Sent.antt =====
-- The region events that QWS_CMD_CHANGE_ALTITUDE of proxy/proxy.c sends.
use qwswayland.Prelude.{ℕ, Option, ◌≡◌, Bool, true, false, ◌||◌, some, List, [], ◌∷◌, ◌==◌}
use qwswayland.Prelude.Int.{ℤ}
use qwswayland.HashMap.{HashMap}
use qwswayland.Rect.{Rect}
use qwswayland.Client.Regions.{RegionEvent}
use qwswayland.Client.Windows.{Client}
use qwswayland.Dispatch.Altitude.{Changed}
use qwswayland.Dispatch.Altitude.Found.{Found}

-- An event goes to the window at an address.
abbrev pub has_event : ℕ → List RegionEvent → Bool
has_event address [] = false
has_event address (e ∷ es) = (e.window == address) || has_event address es

module _ (region_subtract : List Rect → List Rect → List Rect) (realloc_ok : Bool)
    (screen_width screen_height : ℤ) where
  abbrev Sends : ℕ → Option Changed → Type 0
  Sends address r =
      (changed : Changed) × (r ≡ some changed) × (has_event address changed.events ≡ true)
