-- ===== src/Client/Regions/Allocated.antt =====
-- What qwswl_update_regions of proxy/client.c leaves in the window stack, and which events it sends.
use qwswayland.Prelude.{
  ◌≡◌, refl, sym, ap, ap₂, ◌∙◌, Bool, true, false, not, ◌||◌, Option, none, List, [], ◌∷◌, ◌++◌,
  ◌==◌, if◌then◌else◌, map, flatten, length, arith, suc, lt→ltb, Bool-cases, inl, inr,
}
use mathlib.Core.List.{append-nil}
use qwswayland.Prelude.Int.{ℤ, pos, ◌-ℤ◌}
use qwswayland.Rect.{Rect, qws_rect_subtract, qws_clip_rects}
use qwswayland.Client.{Window}
use qwswayland.Client.Regions.{
  same_rects, is_requesting, with_visible, unblocked, new_alloc, update_window, needs_event,
  extend_blocking, add_turn, region_loop, late_event, qwswl_update_regions,
}
use qwswayland.Client.Regions.Events.{
  same_rects_eq, turn_events, turn_found, dec_rects, differ, events_for, in_stack, events_lem,
  found_lem, owed, owed_lem,
}

-- A window that has been updated shows the new allocation, whether an event went out or not.
visible_after :
    (requesting : Option Window) (w : Window) (alloc : List Rect) (b : Bool)
    → is_requesting requesting w ≡ b
    → (if b || not (same_rects alloc w.visible_rects) then with_visible w alloc else w)
      ≡ with_visible w alloc
visible_after requesting w alloc true e = refl
visible_after requesting w alloc false e = elim (Bool-cases (same_rects alloc w.visible_rects)) [
  | inl s ↦ rw s (ap (with_visible w) (sym (same_rects_eq alloc w.visible_rects s)))
  | inr s ↦ rw s refl
]

or_swap : (a b c : Bool) → a || (b || c) ≡ (b || a) || c
or_swap a b c = ground arith

-- The rectangles that a window adds to those that hide what is below it.
abbrev pub hidden_by : List Rect → Window → List Rect
hidden_by blocking w = if w.opacity == 255 then blocking ++ w.visible_rects else blocking

module _ (region_subtract : List Rect → List Rect → List Rect)
    (screen_width screen_height : ℤ) where
  -- What is left of each rectangle of a geometry, one behind the other, on the screen.
  abbrev pub visible_part : List Rect → List Rect → List Rect
  visible_part geometry blocking =
      qws_clip_rects
        (flatten (map (λ r. qws_rect_subtract region_subtract true (r ∷ []) blocking) geometry))
        (screen_width -ℤ pos 1) (screen_height -ℤ pos 1)

  unblocked_lem :
      (geometry blocking : List Rect)
      → unblocked region_subtract true true screen_width screen_height geometry blocking
        ≡ flatten (map (λ r. qws_rect_subtract region_subtract true (r ∷ []) blocking) geometry)
  unfolding unblocked flatten
  unblocked_lem [] blocking = refl
  unblocked_lem (r ∷ geometry) blocking =
      ap (λ l. qws_rect_subtract region_subtract true (r ∷ []) blocking ++ l)
        (unblocked_lem geometry blocking)

  pub new_alloc_lem :
      (geometry blocking : List Rect)
      → new_alloc region_subtract true true screen_width screen_height geometry blocking
        ≡ visible_part geometry blocking
  unfolding new_alloc
  new_alloc_lem geometry blocking =
      ap (λ l. qws_clip_rects l (screen_width -ℤ pos 1) (screen_height -ℤ pos 1))
        (unblocked_lem geometry blocking)

  -- Every window shows its geometry less the opaque windows above it, clipped to the screen.
  abbrev pub allocate : List Rect → List Window → List Window
  allocate blocking [] = []
  allocate blocking (w ∷ ws) =
      let w' = with_visible w (visible_part w.geometry blocking) in
      w' ∷ allocate (hidden_by blocking w') ws

  extend_hidden :
      (blocking : List Rect) (w : Window) (alloc : List Rect)
      → w.visible_rects ≡ alloc
      → extend_blocking true blocking w alloc ≡ hidden_by blocking w
  extend_hidden blocking w [] e = elim (Bool-cases (w.opacity == 255)) [
    | inl o ↦ rw (o, e) (sym (append-nil blocking))
    | inr o ↦ rw o refl
  ]
  extend_hidden blocking w (r ∷ rs) e = elim (Bool-cases (w.opacity == 255)) [
    | inl o ↦ rw (o, lt→ltb 0 (suc (length rs)) (omega arith)) refl
    | inr o ↦ rw o refl
  ]

  loop_lem :
      (requesting : Option Window) (ws : List Window) (blocking : List Rect) (sent : Bool)
      → region_loop region_subtract true true screen_width screen_height requesting ws blocking sent
        ≡ (
          allocate blocking ws,
          turn_events requesting ws (allocate blocking ws),
          turn_found requesting ws || sent,
        )
  unfolding region_loop
  loop_lem requesting [] blocking sent = refl
  loop_lem requesting (w ∷ ws) blocking sent =
      let alloc = visible_part w.geometry blocking in
      let req = is_requesting requesting w in
      let w' = with_visible w alloc in
      let loop = region_loop region_subtract true true screen_width screen_height requesting ws in
      ap
        (λ a.
          let v = update_window requesting w a in
          add_turn (needs_event requesting w a) v a
            (loop (extend_blocking true blocking v a) (req || sent)))
        (new_alloc_lem w.geometry blocking)
      ∙ ap
          (λ v.
            add_turn (needs_event requesting w alloc) v alloc
              (loop (extend_blocking true blocking v alloc) (req || sent)))
          (visible_after requesting w alloc req refl)
      ∙ ap (λ b. add_turn (needs_event requesting w alloc) w' alloc (loop b (req || sent)))
          (extend_hidden blocking w' alloc refl)
      ∙ ap (add_turn (needs_event requesting w alloc) w' alloc)
          (loop_lem requesting ws (hidden_by blocking w') (req || sent))
      ∙ ap
          (λ s. (
            allocate blocking (w ∷ ws),
            turn_events requesting (w ∷ ws) (allocate blocking (w ∷ ws)),
            s,
          ))
          (or_swap (turn_found requesting ws) req sent)

  -- With memory, an update gives every window its geometry less the opaque windows above, clipped
  -- to the screen, and sends an event to exactly the windows whose part has changed and to the
  -- requesting one, which gets an event after the loop if it is not in the stack and the
  -- uninitialised flag happens to be false.
  pub update_regions_lem :
      (uninitialised : Bool) (requesting : Option Window) (stack : List Window)
      → qwswl_update_regions region_subtract true true screen_width screen_height uninitialised
          requesting stack
        ≡ (
          allocate [] stack,
          events_for requesting stack (allocate [] stack)
              ++ owed requesting (in_stack requesting stack || uninitialised),
        )
  unfolding qwswl_update_regions
  update_regions_lem uninitialised requesting stack =
      let after = allocate [] stack in
      ap (λ r. (r.0, r.1 ++ late_event requesting r.2)) (loop_lem requesting stack [] uninitialised)
      ∙ ap₂ (λ es found. (after, es ++ late_event requesting (found || uninitialised)))
          (events_lem requesting stack after) (found_lem requesting stack)
      ∙ ap (λ late. (allocate [] stack, events_for requesting stack (allocate [] stack) ++ late))
          (owed_lem requesting (in_stack requesting stack || uninitialised))

  allocate_idempotent :
      (blocking : List Rect) (ws : List Window)
      → allocate blocking (allocate blocking ws) ≡ allocate blocking ws
  allocate_idempotent blocking [] = refl
  allocate_idempotent blocking (w ∷ ws) =
      let alloc = visible_part w.geometry blocking in
      ap (λ l. with_visible w alloc ∷ l)
        (allocate_idempotent (hidden_by blocking (with_visible w alloc)) ws)

  unchanged : (rs : List Rect) (d : Dec (rs ≡ rs)) → differ d ≡ false
  unchanged rs (yes p) = refl
  unchanged rs (no n) = absurd (n refl)

  no_events : (ws : List Window) → events_for none ws ws ≡ []
  no_events [] = refl
  no_events (w ∷ ws) =
      rw (unchanged w.visible_rects (dec_rects w.visible_rects w.visible_rects)) (no_events ws)

  -- With memory, a second update without a requesting window changes no window and sends no event,
  -- whatever the first one was asked and whatever the flag holds.
  pub update_regions_idempotent :
      (uninitialised again : Bool) (requesting : Option Window) (stack : List Window)
      → let update = qwswl_update_regions region_subtract true true screen_width screen_height in
        let after = (update uninitialised requesting stack).0 in
        update again none after ≡ (after, [])
  update_regions_idempotent uninitialised again requesting stack =
      let after = allocate [] stack in
      rw (update_regions_lem uninitialised requesting stack) (
        update_regions_lem again none after
        ∙ ap₂ (λ ws es. (ws, es ++ [])) (allocate_idempotent [] stack)
            (ap (events_for none after) (allocate_idempotent [] stack) ∙ no_events after))
