-- ===== src/Dispatch/Identify/Screen.antt =====
-- The size of the screen, in proxy/lifecycle.c.
use qwswayland.Prelude.{◌≡◌, refl, ap, ◌∙◌, Bool, true, false, ◌&&◌, List, [], ◌∷◌, arith}
use qwswayland.Prelude.Int.{ℤ, pos, eqb_ℤ}
use qwswayland.Dispatch.Identify.{Display, wl_output_mode}

-- The modes that are reported, one after the other.
abbrev pub modes : Display → List (Bool × ℤ × ℤ) → Display
modes d [] = d
modes d ((current, width, height) ∷ rest) = modes (wl_output_mode d current width height) rest

-- A screen that has a width keeps its size, whatever modes are reported.
pub modes_kept :
    (d : Display) (reports : List (Bool × ℤ × ℤ))
    → eqb_ℤ d.screen_width (pos 0) ≡ false
    → modes d reports ≡ d
unfolding wl_output_mode
modes_kept d [] known = refl
modes_kept d ((current, width, height) ∷ rest) known =
    let same : wl_output_mode d current width height ≡ d = ground (arith, known) in
    ap (λ s. modes s rest) same ∙ modes_kept d rest known

-- So the first current mode of a screen without a size decides, if its width is not zero.
pub first_mode_decides :
    (d : Display) (width height : ℤ) (reports : List (Bool × ℤ × ℤ))
    → eqb_ℤ d.screen_width (pos 0) && eqb_ℤ d.screen_height (pos 0) ≡ true
    → eqb_ℤ width (pos 0) ≡ false
    → modes d ((true, width, height) ∷ reports)
      ≡ record d { screen_width = width; screen_height = height }
unfolding wl_output_mode
first_mode_decides d width height reports unset wide =
    ap (λ s. modes s reports)
      (let e : wl_output_mode d true width height
            ≡ record d { screen_width = width; screen_height = height } =
          ground (arith, unset) in
        e)
    ∙ modes_kept (record d { screen_width = width; screen_height = height }) reports wide
