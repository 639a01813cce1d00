-- ===== src/Client/Regions.antt =====
-- qwswl_update_regions of proxy/client.c: the visible region of every window of the stack, and the
-- region events that the proxy sends. `region_subtract` is pixman's, `malloc_ok` and
-- `realloc_ok` tell whether the copies of rectangles can be made and whether the list of blocking
-- rectangles can grow; the growing of the new allocation is not checked by the code and succeeds.
pub mod Events
pub mod Allocated
pub mod Overlap
use qwswayland.Prelude.{
  ℕ, Bool, true, false, not, ◌&&◌, ◌||◌, Option, none, some, List, [], ◌∷◌, ◌++◌, ◌==◌,
  if◌then◌else◌, ltb, length,
}
use qwswayland.Prelude.Int.{ℤ, pos, ◌-ℤ◌, eqb_ℤ}
use qwswayland.Rect.{Rect, qws_clip_rects, qws_rect_subtract}
use qwswayland.Client.{Window}

-- The comparison of the counts and the `memcmp`.
unfoldable pub same_rects : List Rect → List Rect → Bool
same_rects [] [] = true
same_rects [] (s ∷ ss) = false
same_rects (r ∷ rs) [] = false
same_rects (r ∷ rs) (s ∷ ss) =
    (eqb_ℤ r.x1 s.x1 && (eqb_ℤ r.y1 s.y1 && (eqb_ℤ r.x2 s.x2 && eqb_ℤ r.y2 s.y2)))
    && same_rects rs ss

-- QWSRegionEvent::Allocation for the window at an address.
pub record RegionEvent : Type 0 where
  pub window : ℕ
  pub rects : List Rect

abbrev pub is_requesting : Option Window → Window → Bool
is_requesting none w = false
is_requesting (some r) w = w.address == r.address

abbrev pub with_visible : Window → List Rect → Window
with_visible w rs = record w { visible_rects = rs }

-- What one turn of the loop makes of the window, and whether it emits an event.
abbrev pub needs_event : Option Window → Window → List Rect → Bool
needs_event requesting w alloc =
    is_requesting requesting w || not (same_rects alloc w.visible_rects)

abbrev pub update_window : Option Window → Window → List Rect → Window
update_window requesting w alloc =
    if needs_event requesting w alloc then with_visible w alloc else w

abbrev pub extend_blocking : Bool → List Rect → Window → List Rect → List Rect
extend_blocking realloc_ok blocking w alloc =
    if (w.opacity == 255) && (ltb 0 (length alloc) && realloc_ok)
    then blocking ++ w.visible_rects
    else blocking

-- The windows, the events and the flag, with those of the turns that follow.
abbrev pub add_turn :
    Bool
    → Window
    → List Rect
    → List Window × List RegionEvent × Bool
    → List Window × List RegionEvent × Bool
add_turn emits w alloc (windows, events, sent) = (
  w ∷ windows,
  (if emits then record { window = w.address; rects = alloc } ∷ events else events),
  sent,
)

abbrev pub late_event : Option Window → Bool → List RegionEvent
late_event none sent = []
late_event (some r) sent =
    if not sent then record { window = r.address; rects = r.visible_rects } ∷ [] else []

module _ (region_subtract : List Rect → List Rect → List Rect) (malloc_ok realloc_ok : Bool)
    (screen_width screen_height : ℤ) where
  -- The loop over `win->geometry.rects`.
  unfoldable pub unblocked : List Rect → List Rect → List Rect
  unblocked [] blocking = []
  unblocked (r ∷ rs) blocking =
      qws_rect_subtract region_subtract malloc_ok (r ∷ []) blocking ++ unblocked rs blocking

  unfoldable pub new_alloc : List Rect → List Rect → List Rect
  unfolding unblocked
  new_alloc geometry blocking =
      qws_clip_rects (unblocked geometry blocking) (screen_width -ℤ pos 1) (screen_height -ℤ pos 1)

  -- The loop: the windows afterwards, the events, and the flag that an event has gone to the
  -- requesting window.
  unfoldable pub region_loop :
      Option Window → List Window → List Rect → Bool → List Window × List RegionEvent × Bool
  unfolding new_alloc same_rects
  region_loop requesting [] blocking sent = ([], [], sent)
  region_loop requesting (w ∷ ws) blocking sent =
      let alloc = new_alloc w.geometry blocking in
      let w' = update_window requesting w alloc in
      add_turn (needs_event requesting w alloc) w' alloc (
        region_loop requesting ws (extend_blocking realloc_ok blocking w' alloc)
          (is_requesting requesting w || sent))

  -- `uninitialised` is the value that `event_for_requesting_win_sent` happens to have at first.
  unfoldable pub qwswl_update_regions :
      Bool → Option Window → List Window → List Window × List RegionEvent
  unfolding region_loop
  qwswl_update_regions uninitialised requesting stack =
      let (windows, events, sent) = region_loop requesting stack [] uninitialised in
      (windows, events ++ late_event requesting sent)
