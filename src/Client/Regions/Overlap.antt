-- ===== src/Client/Regions/Overlap.antt =====
-- The points of the visible regions that qwswl_update_regions of proxy/client.c computes, in pixman's
-- reading of the rectangles.
use qwswayland.Prelude.{
  subst, sym, Bool, true, Option, List, [], ◌∷◌, ◌++◌, ◌==◌, if◌then◌else◌, arith, Bool-cases, inl,
  inr, ◌↔◌, ◌⊎◌,
}
use qwswayland.Prelude.Int.{ℤ, pos, ◌-ℤ◌, ◌≤ℤ◌, ◌<ℤ◌}
use qwswayland.Rect.{Rect, qws_clip_rects, clip_rect, clamp, clamp_x1, qws_rect_subtract}
use qwswayland.Rect.Subtract.{InBox, InRegion, IsSubtract, subtract-InRegion}
use qwswayland.Client.{Window}
use qwswayland.Client.Regions.{unblocked, new_alloc, with_visible, qwswl_update_regions}
use qwswayland.Client.Regions.Allocated.{
  allocate, hidden_by, update_regions_lem, new_alloc_lem, visible_part,
}

clip_axis : (a b hi v : ℤ) → pos 0 ≤ℤ hi → clamp a hi ≤ℤ v → v <ℤ clamp b hi → (a ≤ℤ v) × (v <ℤ b)
unfolding clamp
clip_axis a b hi v h l r = (ground arith, ground arith)

clip_x_axis :
    (a b hi v : ℤ) → pos 0 ≤ℤ hi → clamp_x1 a hi ≤ℤ v → v <ℤ clamp b hi → (a ≤ℤ v) × (v <ℤ b)
unfolding clamp clamp_x1
clip_x_axis a b hi v h l r = (ground arith, ground arith)

clip-InBox :
    (max_x max_y : ℤ) (r : Rect) (x y : ℤ)
    → pos 0 ≤ℤ max_x
    → pos 0 ≤ℤ max_y
    → InBox (clip_rect max_x max_y r) x y
    → InBox r x y
unfolding clip_rect
clip-InBox max_x max_y r x y wide high h =
    let (l, e) = clip_x_axis r.x1 r.x2 max_x x wide h.from_left h.before_right in
    let (t, b) = clip_axis r.y1 r.y2 max_y y high h.from_top h.before_bottom in
    record { from_left = l; from_top = t; before_right = e; before_bottom = b }

clip-InRegion :
    (max_x max_y : ℤ) (rs : List Rect) (x y : ℤ)
    → pos 0 ≤ℤ max_x
    → pos 0 ≤ℤ max_y
    → InRegion (qws_clip_rects rs max_x max_y) x y
    → InRegion rs x y
unfolding qws_clip_rects
clip-InRegion max_x max_y [] x y wide high h = h
clip-InRegion max_x max_y (r ∷ rs) x y wide high (inl h) =
    inl (clip-InBox max_x max_y r x y wide high h)
clip-InRegion max_x max_y (r ∷ rs) x y wide high (inr h) =
    inr (clip-InRegion max_x max_y rs x y wide high h)

pub append-InRegion :
    (rs ss : List Rect) (x y : ℤ) → InRegion (rs ++ ss) x y ↔ (InRegion rs x y ⊎ InRegion ss x y)
append-InRegion [] ss x y = (λ h. inr h, λ h. elim h [ inl e ↦ absurd e | inr e ↦ e ])
append-InRegion (r ∷ rs) ss x y =
    let ih = append-InRegion rs ss x y in
    (
      λ h. elim h [
        | inl e ↦ inl (inl e)
        | inr e ↦ elim (ih.0 e) [ inl f ↦ inl (inr f) | inr f ↦ inr f ]
      ],
      λ h. elim h [
        | inl e ↦ elim e [ inl f ↦ inl f | inr f ↦ inr (ih.1 (inl f)) ]
        | inr e ↦ inr (ih.1 (inr e))
      ],
    )

-- No window of the list shows the point.
abbrev pub NotShown : List Window → ℤ → ℤ → Type 0
NotShown [] x y = Unit
NotShown (w ∷ ws) x y = ¬ (InRegion w.visible_rects x y) × NotShown ws x y

abbrev pub HidesFrom : Window → List Window → Type 0
HidesFrom w ws = (x y : ℤ) → InRegion w.visible_rects x y → NotShown ws x y

-- A window shows points of its own geometry only, and an opaque one hides all its points from the
-- windows below.
abbrev pub IsSeparated : List Window → Type 0
IsSeparated [] = Unit
IsSeparated (w ∷ ws) =
    ((x y : ℤ) → InRegion w.visible_rects x y → InRegion w.geometry x y)
    × (if w.opacity == 255 then HidesFrom w ws else Unit)
    × IsSeparated ws

module _ (region_subtract : List Rect → List Rect → List Rect) (spec : IsSubtract region_subtract)
    (screen_width screen_height : ℤ) (wide : pos 0 ≤ℤ (screen_width -ℤ pos 1))
    (high : pos 0 ≤ℤ (screen_height -ℤ pos 1)) where
  unblocked-InRegion :
      (geometry blocking : List Rect) (x y : ℤ)
      → InRegion
          (unblocked region_subtract true true screen_width screen_height geometry blocking)
          x
          y
      → InRegion geometry x y × ¬ (InRegion blocking x y)
  unfolding unblocked
  unblocked-InRegion [] blocking x y h = absurd h
  unblocked-InRegion (r ∷ rs) blocking x y h =
      elim ((append-InRegion (qws_rect_subtract region_subtract true (r ∷ []) blocking) _ x y).0
        h) [
          | inl e ↦
              let (a, b) = (subtract-InRegion region_subtract spec (r ∷ []) blocking x y).0 e in
              (elim a [ inl f ↦ inl f | inr f ↦ absurd f ], b)
          | inr e ↦ let (a, b) = unblocked-InRegion rs blocking x y e in (inr a, b)
        ]

  alloc-InRegion :
      (geometry blocking : List Rect) (x y : ℤ)
      → InRegion (visible_part region_subtract screen_width screen_height geometry blocking) x y
      → InRegion geometry x y × ¬ (InRegion blocking x y)
  unfolding new_alloc
  alloc-InRegion geometry blocking x y h =
      let whole =
        subst (λ l. InRegion l x y)
          (sym (new_alloc_lem region_subtract screen_width screen_height geometry blocking)) h in
      unblocked-InRegion geometry blocking x y (clip-InRegion _ _ _ x y wide high whole)

  hidden-InRegion :
      (blocking : List Rect) (w : Window) (x y : ℤ)
      → InRegion blocking x y
      → InRegion (hidden_by blocking w) x y
  hidden-InRegion blocking w x y h = elim (Bool-cases (w.opacity == 255)) [
    | inl o ↦ rw o ((append-InRegion blocking w.visible_rects x y).1 (inl h))
    | inr o ↦ rw o h
  ]

  blocked-NotShown :
      (ws : List Window) (blocking : List Rect) (x y : ℤ)
      → InRegion blocking x y
      → NotShown (allocate region_subtract screen_width screen_height blocking ws) x y
  blocked-NotShown [] blocking x y h = tt
  blocked-NotShown (w ∷ ws) blocking x y h =
      let alloc = visible_part region_subtract screen_width screen_height w.geometry blocking in
      (
        λ s. (alloc-InRegion w.geometry blocking x y s).1 h,
        blocked-NotShown ws _ x y (hidden-InRegion blocking (with_visible w alloc) x y h),
      )

  allocate-IsSeparated :
      (ws : List Window) (blocking : List Rect)
      → IsSeparated (allocate region_subtract screen_width screen_height blocking ws)
  allocate-IsSeparated [] blocking = tt
  allocate-IsSeparated (w ∷ ws) blocking = (
    λ x y h. (alloc-InRegion w.geometry blocking x y h).0,
    elim (Bool-cases (w.opacity == 255)) [
      | inl o ↦
          rw o (λ x y h. blocked-NotShown ws _ x y ((append-InRegion blocking _ x y).1 (inr h)))
      | inr o ↦ rw o tt
    ],
    allocate-IsSeparated ws _,
  )

  -- If pixman subtracts as documented, memory suffices and the screen has a pixel, then after an
  -- update every window shows points of its geometry only, and no point that an opaque window above
  -- it shows, in pixman's reading of the rectangles.
  pub update_regions-IsSeparated :
      (uninitialised : Bool) (requesting : Option Window) (stack : List Window)
      → IsSeparated
          (qwswl_update_regions region_subtract true true screen_width screen_height uninitialised
            requesting stack).0
  update_regions-IsSeparated uninitialised requesting stack =
      rw
        (update_regions_lem region_subtract screen_width screen_height uninitialised requesting
          stack)
        (allocate-IsSeparated stack [])
