-- ===== src/Examples/Regions.antt =====
-- The visible regions of a window stack (proxy/client.c) and the subtraction of rectangles
-- (libqwsproto/qws_rect.c), with one function in pixman's place that meets its documentation.
use qwswayland.Prelude.{
  ℕ, ◌≡◌, true, false, none, some, List, [], ◌∷◌, ◌++◌, ◌↔◌, ◌⊎◌, inl, inr, ◌||◌, if◌then◌else◌,
  arith,
}
use qwswayland.Prelude.Int.{ℤ, pos, ◌≤ℤ◌, ◌<ℤ◌, ◌+ℤ◌, ltb_ℤ, int_laws}
use qwswayland.Rect.{Rect, qws_rect_subtract}
use qwswayland.Rect.Subtract.{InBox, InRegion, CoveredBy, IsSubtract, subtract_overlaps}
use qwswayland.Client.{Window, qwswl_allocate_window_with_id}
use qwswayland.Client.Regions.{qwswl_update_regions}
use qwswayland.Client.Regions.Allocated.{allocate, update_regions_lem, update_regions_idempotent}
use qwswayland.Client.Regions.Events.{events_for, owed, in_stack}
use qwswayland.Client.Regions.Overlap.{append-InRegion, IsSeparated, update_regions-IsSeparated}

abbrev max_ℤ : ℤ → ℤ → ℤ
max_ℤ a b = if ltb_ℤ a b then b else a

abbrev min_ℤ : ℤ → ℤ → ℤ
min_ℤ a b = if ltb_ℤ a b then a else b

-- The four parts of a box that lie above, below, to the left and to the right of another.
abbrev cut : Rect → Rect → List Rect
cut a b =
    record { x1 = a.x1; y1 = a.y1; x2 = a.x2; y2 = min_ℤ a.y2 b.y1 }
    ∷ record { x1 = a.x1; y1 = max_ℤ a.y1 b.y2; x2 = a.x2; y2 = a.y2 }
    ∷ record { x1 = a.x1; y1 = a.y1; x2 = min_ℤ a.x2 b.x1; y2 = a.y2 }
    ∷ record { x1 = max_ℤ a.x1 b.x2; y1 = a.y1; x2 = a.x2; y2 = a.y2 }
    ∷ []

abbrev cut_all : List Rect → Rect → List Rect
cut_all [] b = []
cut_all (a ∷ rest) b = cut a b ++ cut_all rest b

abbrev pub subtract_boxes : List Rect → List Rect → List Rect
subtract_boxes boxes [] = boxes
subtract_boxes boxes (b ∷ bs) = subtract_boxes (cut_all boxes b) bs

max_le : (a b x : ℤ) → (max_ℤ a b ≤ℤ x) ↔ ((a ≤ℤ x) × (b ≤ℤ x))
max_le a b x = (λ h. (ground arith, ground arith), λ h. ground arith)

lt_min : (a b x : ℤ) → (x <ℤ min_ℤ a b) ↔ ((x <ℤ a) × (x <ℤ b))
lt_min a b x = (λ h. (ground arith, ground arith), λ h. ground arith)

le_or_gt : (a b : ℤ) → (a ≤ℤ b) ⊎ (b <ℤ a)
le_or_gt a b = ground arith

cut-InRegion : (a b : Rect) (x y : ℤ) → InRegion (cut a b) x y ↔ (InBox a x y × ¬ (InBox b x y))
cut-InRegion a b x y = (forward, λ h. backward h.0 h.1)
  where
    forward : InRegion (cut a b) x y → InBox a x y × ¬ (InBox b x y)
    forward (inl h) =
        let m = (lt_min a.y2 b.y1 y).0 h.before_bottom in (omega arith, λ k. omega arith)
    forward (inr (inl h)) =
        let m = (max_le a.y1 b.y2 y).0 h.from_top in (omega arith, λ k. omega arith)
    forward (inr (inr (inl h))) =
        let m = (lt_min a.x2 b.x1 x).0 h.before_right in (omega arith, λ k. omega arith)
    forward (inr (inr (inr (inl h)))) =
        let m = (max_le a.x1 b.x2 x).0 h.from_left in (omega arith, λ k. omega arith)
    forward (inr (inr (inr (inr h)))) = absurd h

    backward : InBox a x y → ¬ (InBox b x y) → InRegion (cut a b) x y
    backward h n = elim (le_or_gt b.y1 y) [
      | inr above ↦ inl (record {
        from_left = h.from_left;
        from_top = h.from_top;
        before_right = h.before_right;
        before_bottom = (lt_min a.y2 b.y1 y).1 (h.before_bottom, above);
      })
      | inl below ↦ elim (le_or_gt b.y2 y) [
        | inl under ↦ inr (
            inl (record {
              from_left = h.from_left;
              from_top = (max_le a.y1 b.y2 y).1 (h.from_top, under);
              before_right = h.before_right;
              before_bottom = h.before_bottom;
            }))
        | inr beside ↦ elim (le_or_gt b.x1 x) [
          | inr left ↦ inr (
              inr (
                inl (record {
                  from_left = h.from_left;
                  from_top = h.from_top;
                  before_right = (lt_min a.x2 b.x1 x).1 (h.before_right, left);
                  before_bottom = h.before_bottom;
                })))
          | inl behind ↦ elim (le_or_gt b.x2 x) [
            | inl right ↦ inr (
                inr (
                  inr (
                    inl (record {
                      from_left = (max_le a.x1 b.x2 x).1 (h.from_left, right);
                      from_top = h.from_top;
                      before_right = h.before_right;
                      before_bottom = h.before_bottom;
                    }))))
            | inr inside ↦ absurd (
                n (record {
                  from_left = behind;
                  from_top = below;
                  before_right = inside;
                  before_bottom = beside;
                }))
          ]
        ]
      ]
    ]

cut_all-InRegion :
    (boxes : List Rect) (b : Rect) (x y : ℤ)
    → InRegion (cut_all boxes b) x y ↔ (InRegion boxes x y × ¬ (InBox b x y))
cut_all-InRegion [] b x y = (λ h. absurd h, λ h. h.0)
cut_all-InRegion (a ∷ rest) b x y =
    let here = cut-InRegion a b x y in
    let there = cut_all-InRegion rest b x y in
    let both = append-InRegion (cut a b) (cut_all rest b) x y in
    (
      λ h. elim (both.0 h) [
        | inl k ↦ let (p, n) = here.0 k in (inl p, n)
        | inr k ↦ let (p, n) = there.0 k in (inr p, n)
      ],
      λ h. elim h.0 [
        | inl k ↦ both.1 (inl (here.1 (k, h.1)))
        | inr k ↦ both.1 (inr (there.1 (k, h.1)))
      ],
    )

subtract_boxes-IsSubtract : IsSubtract subtract_boxes
subtract_boxes-IsSubtract boxes [] x y = (λ h. (h, λ n. n), λ h. h.0)
subtract_boxes-IsSubtract boxes (b ∷ bs) x y =
    let first = cut_all-InRegion boxes b x y in
    let later = subtract_boxes-IsSubtract (cut_all boxes b) bs x y in
    (
      λ h.
          let (p, n) = later.0 h in
          let (q, m) = first.0 p in (q, λ k. elim k [ inl e ↦ m e | inr e ↦ n e ]),
      λ h. later.1 (first.1 (h.0, λ e. h.1 (inl e)), λ e. h.1 (inr e)),
    )

abbrev box : ℕ → ℕ → ℕ → ℕ → Rect
box x1 y1 x2 y2 = record { x1 = pos x1; y1 = pos y1; x2 = pos x2; y2 = pos y2 }

-- A window on the left half above one on the whole screen of 100 times 100 pixels.
abbrev left_half : Window
left_half = record (qwswl_allocate_window_with_id 1 (pos 1001)) { geometry = box 0 0 49 99 ∷ [] }

abbrev whole : Window
whole = record (qwswl_allocate_window_with_id 2 (pos 1002)) { geometry = box 0 0 99 99 ∷ [] }

abbrev two_windows : List Window
two_windows = left_half ∷ whole ∷ []

update_regions-IsSeparated_example :
    IsSeparated
      (qwswl_update_regions subtract_boxes true true (pos 100) (pos 100) true none two_windows).0
update_regions-IsSeparated_example =
    update_regions-IsSeparated subtract_boxes subtract_boxes-IsSubtract (pos 100) (pos 100)
      (omega int_laws) (omega int_laws) true none two_windows

update_regions_lem_example :
    qwswl_update_regions subtract_boxes true true (pos 100) (pos 100) true (some whole) two_windows
    ≡ (
      allocate subtract_boxes (pos 100) (pos 100) [] two_windows,
      events_for
            (some whole)
            two_windows
            (allocate subtract_boxes (pos 100) (pos 100) [] two_windows)
          ++ owed (some whole) (in_stack (some whole) two_windows || true),
    )
update_regions_lem_example =
    update_regions_lem subtract_boxes (pos 100) (pos 100) true (some whole) two_windows

update_regions_idempotent_example :
    let update = qwswl_update_regions subtract_boxes true true (pos 100) (pos 100) in
    let after = (update true (some whole) two_windows).0 in update false none after ≡ (after, [])
update_regions_idempotent_example =
    update_regions_idempotent subtract_boxes (pos 100) (pos 100) true false (some whole) two_windows

-- What is left of ten pixels when the ones from 5 on are taken away still ends in pixel 5.
subtract_overlaps_example :
    CoveredBy
      (qws_rect_subtract subtract_boxes true (box 0 0 9 9 ∷ []) (box 5 0 9 9 ∷ []))
      (pos 4 +ℤ pos 1)
      (pos 3)
    × CoveredBy (box 5 0 9 9 ∷ []) (pos 4 +ℤ pos 1) (pos 3)
subtract_overlaps_example =
    subtract_overlaps subtract_boxes subtract_boxes-IsSubtract (box 0 0 9 9 ∷ []) (box 5 0 9 9 ∷ [])
      (pos 4) (pos 3) (inl (omega arith)) (λ h. elim h [ inl k ↦ omega arith | inr k ↦ absurd k ])
      (inl (omega int_laws))
