-- ===== src/Cursor/Sizes.antt =====
-- The sizes that proxy/cursor.c computes in `int`, where they do not overflow.
use qwswayland.Prelude.{ℕ, ◌+◌, ◌*◌, ◌%◌, ◌^◌, ◌≤◌, ◌<◌, ◌≡◌, ap, ap₂, ◌∙◌, arith}
use qwswayland.Prelude.Int.{ℤ, pos, ◌+ℤ◌, to_word, of_word}
use qwswayland.Wire.Packet.{to_size}
use qwswayland.Cursor.Bitmaps.{Bitmap, stride_of}
use qwswayland.Cursor.Store.{mul_int, add_int, eighth, plane_size, needed_size}

to_word-pos : (n : ℕ) → n < 2 ^ 32 → to_word (pos n) ≡ n
unfolding to_word
to_word-pos n h = omega arith

of_word-pos : (n : ℕ) → n < 2 ^ 31 → of_word n ≡ pos n
unfolding of_word
of_word-pos n h = ground arith

pub mul_int_lem :
    (a b : ℕ) → a < 2 ^ 31 → b < 2 ^ 31 → a * b < 2 ^ 31 → mul_int (pos a) (pos b) ≡ pos (a * b)
mul_int_lem a b p q r =
    ap (λ (t : ℕ). of_word (t % 2 ^ 32))
      (ap₂ ◌*◌ (to_word-pos a (omega arith)) (to_word-pos b (omega arith)))
    ∙ ap of_word (omega arith)
    ∙ of_word-pos (a * b) r

add_int_lem : (a b : ℕ) → a + b < 2 ^ 31 → add_int (pos a) (pos b) ≡ pos (a + b)
unfolding of_word to_word ◌+ℤ◌
add_int_lem a b h = ground arith

pub mul_comm : (a b : ℕ) → a * b ≡ b * a
mul_comm a b = grind arith

-- A product of positive numbers bounds its factors.
pub le-mul : (a b : ℕ) → 0 < b → a ≤ a * b
le-mul a b h = grind arith

pub plane_size_lem :
    (w h : ℕ)
    → w < 2 ^ 30
    → h < 2 ^ 31
    → h * stride_of w < 2 ^ 31
    → plane_size (pos w) (pos h) ≡ pos (h * stride_of w)
unfolding plane_size
plane_size_lem w h p q r =
    rw (add_int_lem w 7 (omega arith)) (mul_int_lem h (stride_of w) q (omega arith) r)

pub needed_size_lem :
    (bm : Bitmap)
    → bm.width < 2 ^ 31
    → bm.height < 2 ^ 31
    → bm.width * bm.height * 4 < 2 ^ 31
    → needed_size bm ≡ bm.width * bm.height * 4
unfolding needed_size
needed_size_lem bm p q r =
    let area = bm.width * bm.height in
    ap to_size (
      ap (λ (t : ℤ). mul_int t (pos 4)) (mul_int_lem bm.width bm.height p q (omega arith))
      ∙ mul_int_lem area 4 (omega arith) (omega arith) r)

-- The bytes of a row are at most its pixels.
stride-le : (w : ℕ) → 0 < w → stride_of w ≤ w
stride-le w h = omega arith

pub plane-le : (w h : ℕ) → 0 < w → h * stride_of w ≤ w * h
plane-le w h p = grind (arith, stride-le)

-- The size of a plane and of the surface where the products are multiples of 2^32.
module _ (k h m : ℕ) (width_fits : 8 * k + 7 < 2 ^ 31) (height_fits : h < 2 ^ 31)
    (whole : h * k ≡ 2 ^ 32 * m) where
  pub plane_size-overflow : plane_size (pos (8 * k)) (pos h) ≡ pos 0
  unfolding plane_size
  plane_size-overflow =
      let stride : stride_of (8 * k) ≡ k = omega arith in
      ap (λ (t : ℤ). mul_int (pos h) (eighth t)) (add_int_lem (8 * k) 7 (omega arith))
      ∙ ap (λ (t : ℕ). mul_int (pos h) (pos t)) stride
      ∙ ap (λ (t : ℕ). of_word (t % 2 ^ 32))
          (ap₂ ◌*◌ (to_word-pos h (omega arith)) (to_word-pos k (omega arith)))
      ∙ ap of_word (omega (arith, whole))
      ∙ of_word-pos 0 (omega arith)

  pub needed_size-overflow : (bm : Bitmap) → bm.width ≡ 8 * k → bm.height ≡ h → needed_size bm ≡ 0
  unfolding needed_size
  needed_size-overflow bm w e =
      let eightfold : 8 * k * h ≡ 8 * (h * k) = grind arith in
      ap (λ (t : ℤ). to_size (mul_int t (pos 4)))
        (ap₂ (λ (a b : ℕ). mul_int (pos a) (pos b)) w e
          ∙ ap (λ (t : ℕ). of_word (t % 2 ^ 32))
              (ap₂ ◌*◌ (to_word-pos (8 * k) (omega arith)) (to_word-pos h (omega arith)))
          ∙ ap of_word (omega (arith, whole, eightfold))
          ∙ of_word-pos 0 (omega arith))
      ∙ ap to_size (mul_int_lem 0 4 (omega arith) (omega arith) (omega arith))
