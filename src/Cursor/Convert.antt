-- ===== src/Cursor/Convert.antt =====
-- The conversion of cursors to pixels, in libqwsproto/qws_cursor.c.
use qwswayland.Prelude.{
  ℕ, zero, suc, ◌+◌, ◌*◌, ◌/◌, ◌%◌, ◌≤◌, ◌<◌, ◌≡◌, refl, ap, ap₂, ◌∙◌, ◌⊎◌, inl, inr, some, List,
  [], ◌∷◌, lt→ltb, length, length-set, get_elem?-set_self, get_elem?-set_ne, get_elem?, get_or, set,
  arith, dec_lt,
}
use qwswayland.Cursor.Bitmaps.{
  Bitmap, stride_of, bit_of, pixel_of, read_pixel, put_pixel, paint_row, paint_rows,
  qws_cursor_to_argb,
}

get_elem?-or {ℓ} :
    {A : Type ℓ} (xs : List A) (i : ℕ) (d : A)
    → i < length xs
    → get_elem? xs i ≡ some (get_or xs i d)
get_elem?-or [] i d h = elim h [ ]
get_elem?-or (x ∷ xs) zero d h = refl
get_elem?-or (x ∷ xs) (suc i) d h = get_elem?-or xs i d (omega arith)

-- The planes have all the bytes that the size asks for.
pub record PlanesFit (bm : Bitmap) : Type 0 where
  pub data_fits : bm.height * stride_of bm.width ≤ length bm.data_plane
  pub mask_fits : bm.height * stride_of bm.width ≤ length bm.mask

-- A bit of a byte, from the least one on.
abbrev pub bit : ℕ → ℕ → ℕ
bit b zero = b % 2
bit b (suc k) = bit (b / 2) k

-- The colours as ARGB: transparent outside the mask, and black on white inside.
abbrev pub colour : ℕ → ℕ → ℕ
colour zero shape = 0
colour (suc mask) zero = 0xFFFFFFFF
colour (suc mask) (suc shape) = 0xFF000000

-- The pixel in a column and a row, where rows begin at whole bytes.
abbrev pub pixel_at : Bitmap → ℕ → ℕ → ℕ
pixel_at bm x y =
    let byte_idx = y * ((bm.width + 7) / 8) + x / 8 in
    colour (bit (get_or bm.mask byte_idx 0) (x % 8)) (bit (get_or bm.data_plane byte_idx 0) (x % 8))

bit_lem : (b k : ℕ) → k < 8 → bit_of b k ≡ bit b k
bit_lem b zero h = omega arith
bit_lem b (suc zero) h = omega arith
bit_lem b (suc (suc zero)) h = omega arith
bit_lem b (suc (suc (suc zero))) h = omega arith
bit_lem b (suc (suc (suc (suc zero)))) h = omega arith
bit_lem b (suc (suc (suc (suc (suc zero))))) h = omega arith
bit_lem b (suc (suc (suc (suc (suc (suc zero)))))) h = omega arith
bit_lem b (suc (suc (suc (suc (suc (suc (suc zero))))))) h = omega arith
bit_lem b (suc (suc (suc (suc (suc (suc (suc (suc k)))))))) h = absurd (omega arith)

colour_lem : (d m : ℕ) → pixel_of d m ≡ colour m d
colour_lem d zero = refl
colour_lem zero (suc m) = ground arith
colour_lem (suc d) (suc m) = ground arith

painted_lem :
    (d m x : ℕ)
    → pixel_of (bit_of d (x % 8)) (bit_of m (x % 8)) ≡ colour (bit m (x % 8)) (bit d (x % 8))
painted_lem d m x =
    ap₂ pixel_of (bit_lem d (x % 8) (omega arith)) (bit_lem m (x % 8) (omega arith))
    ∙ colour_lem (bit d (x % 8)) (bit m (x % 8))

pub in_plane : (h s y c : ℕ) → y < h → c < s → y * s + c < h * s
in_plane h s y c p q = grind arith

suc_mul : (y w : ℕ) → suc y * w ≡ y * w + w
suc_mul y w = grind arith

put_pixel_lem :
    (out : List ℕ) (i px : ℕ) → i < length out → put_pixel out i px ≡ some (set out i px)
unfolding put_pixel
put_pixel_lem out i px h = rw (lt→ltb i (length out) h) refl

row_le : (y h w : ℕ) → y < h → suc y * w ≤ h * w
row_le y h w p = grind arith

module _ (bm : Bitmap) (fit : PlanesFit bm) where
  read_pixel_lem :
      (y x : ℕ) → y < bm.height → x < bm.width → read_pixel bm y x ≡ some (pixel_at bm x y)
  unfolding read_pixel
  read_pixel_lem y x p q =
      let inside = in_plane bm.height (stride_of bm.width) y (x / 8) p (omega arith) in
      let d =
        get_elem?-or bm.data_plane (y * stride_of bm.width + x / 8) 0
          (omega (arith, fit.data_fits, inside)) in
      let m =
        get_elem?-or bm.mask (y * stride_of bm.width + x / 8) 0
          (omega (arith, fit.mask_fits, inside)) in
      rw (d, m)
        (ap some (
          painted_lem (get_or bm.data_plane (y * stride_of bm.width + x / 8) 0)
            (get_or bm.mask (y * stride_of bm.width + x / 8) 0) x))

  record Row (y x n : ℕ) (out out' : List ℕ) : Type 0 where
    size : length out' ≡ length out
    painted :
        (i : ℕ) → x ≤ i → i < x + n → get_elem? out' (y * bm.width + i) ≡ some (pixel_at bm i y)
    kept :
        (j : ℕ)
        → (j < y * bm.width + x) ⊎ (y * bm.width + x + n ≤ j)
        → get_elem? out' j ≡ get_elem? out j

  paint_row_lem :
      (y x n : ℕ) (out : List ℕ)
      → y < bm.height
      → x + n ≤ bm.width
      → y * bm.width + x + n ≤ length out
      → (out' : List ℕ) × (paint_row bm y x n out ≡ some out') × Row y x n out out'
  unfolding paint_row
  paint_row_lem y x zero out p q r = (
    out,
    refl,
    record { size = refl; painted = λ i a b. absurd (omega arith); kept = λ j k. refl },
  )
  paint_row_lem y x (suc n) out p q r =
      let px = pixel_at bm x y in
      let at = y * bm.width + x in
      let out1 = set out at px in
      let len = length-set out at px in
      let (out', run, row) = paint_row_lem y (suc x) n out1 p (omega arith) (omega (arith, len)) in
      (
        out',
        rw (read_pixel_lem y x p (omega arith)) (rw (put_pixel_lem out at px (omega arith)) run),
        record {
          size = row.size ∙ len;
          painted = λ i a b. elim (dec_lt x i) [
            | yes later ↦ row.painted i (omega arith) (omega arith)
            | no here ↦
                let e : i ≡ x = omega arith in
                rw e (row.kept at (inl (omega arith)) ∙ get_elem?-set_self out at px (omega arith))
          ];
          kept = λ j k. row.kept j (ground arith) ∙ get_elem?-set_ne out px (ground arith);
        },
      )

  -- What painting the rows from `y` on, `n` of them, does to a buffer.
  record Rows (y n : ℕ) (out out' : List ℕ) : Type 0 where
    size : length out' ≡ length out
    painted :
        (j i : ℕ)
        → y ≤ j
        → j < y + n
        → i < bm.width
        → get_elem? out' (j * bm.width + i) ≡ some (pixel_at bm i j)
    kept :
        (k : ℕ) → (k < y * bm.width) ⊎ ((y + n) * bm.width ≤ k) → get_elem? out' k ≡ get_elem? out k

  paint_rows_lem :
      (y n : ℕ) (out : List ℕ)
      → y + n ≤ bm.height
      → (y + n) * bm.width ≤ length out
      → (out' : List ℕ) × (paint_rows bm y n out ≡ some out') × Rows y n out out'
  unfolding paint_rows
  paint_rows_lem y zero out p q = (
    out,
    refl,
    record { size = refl; painted = λ j i a b c. absurd (omega arith); kept = λ k h. refl },
  )
  paint_rows_lem y (suc n) out p q =
      let w = bm.width in
      let here = suc_mul y w in
      let below = row_le y (y + suc n) w (omega arith) in
      let shift : (suc y + n) * w ≡ (y + suc n) * w = ap (λ (t : ℕ). t * w) (omega arith) in
      let (out1, run, row) =
        paint_row_lem y 0 w out (omega arith) (omega arith) (omega (arith, here, below)) in
      let (out', run', rows) =
        paint_rows_lem (suc y) n out1 (omega arith) (omega (arith, shift, row.size)) in
      (
        out',
        rw run run',
        record {
          size = rows.size ∙ row.size;
          painted = λ j i a b c. elim (dec_lt y j) [
            | yes later ↦ rows.painted j i (omega arith) (omega arith) c
            | no same ↦
                let e : j ≡ y = omega arith in
                rw e (
                  rows.kept (y * w + i) (inl (omega (arith, here)))
                  ∙ row.painted i (omega arith) (omega arith))
          ];
          kept = λ k h.
              rows.kept k (ground (arith, here, shift)) ∙ row.kept k (ground (arith, here, below));
        },
      )

  -- If both planes have all their bytes and the buffer has room for the pixels, the conversion
  -- succeeds, leaves the length of the buffer and what is behind the pixels alone, and the pixel in
  -- every column and row is the one that the bits of the planes say, from the least bit of a byte
  -- on: transparent outside the mask, and inside it black for a set bit of the shape and white for
  -- a clear one.
  pub to_argb_lem :
      (out : List ℕ)
      → bm.height * bm.width ≤ length out
      → (out' : List ℕ) × (qws_cursor_to_argb bm (some out) ≡ some (some out'))
        × (length out' ≡ length out)
        × ((x y : ℕ)
            → x < bm.width
            → y < bm.height
            → get_elem? out' (y * bm.width + x) ≡ some (pixel_at bm x y))
        × ((k : ℕ) → bm.height * bm.width ≤ k → get_elem? out' k ≡ get_elem? out k)
  unfolding qws_cursor_to_argb
  to_argb_lem out h =
      let all : (0 + bm.height) * bm.width ≡ bm.height * bm.width =
        ap (λ (t : ℕ). t * bm.width) (omega arith) in
      let (out', run, rows) = paint_rows_lem 0 bm.height out (omega arith) (omega (arith, all)) in
      (
        out',
        rw run refl,
        rows.size,
        λ x y p q. rows.painted y x (omega arith) (omega arith) p,
        λ k p. rows.kept k (inr (omega (arith, all))),
      )
