-- ===== src/Cursor/Safe.antt =====
-- Cursors that fit their planes are shown without an access outside a buffer, in proxy/cursor.c.
use qwswayland.Prelude.{
  ℕ, zero, suc, ◌*◌, ◌≤◌, ◌≡◌, refl, sym, ap, ◌∙◌, Bool, true, false, ◌&&◌, Option, none, some,
  List, [], ◌∷◌, leb, ltb, length, replicate, length-replicate, arith, Bool-cases, inl, inr,
}
use qwswayland.Prelude.Int.{ℤ, pos, negsuc, to_word}
use qwswayland.HashMap.{HashMap}
use qwswayland.Cursor.Bitmaps.{Bitmap, stride_of, entry_at, cursor_table, qws_cursor_bitmap}
use qwswayland.Cursor.Convert.{PlanesFit, to_argb_lem}
use qwswayland.Cursor.Shapes.{WpShape, shape_of}
use qwswayland.Cursor.Store.{needed_size}
use qwswayland.Cursor.Select.{
  Cursor, CursorRequest, Resources, attach_cursor, show_bitmap, show_found, or_defined, is_blank,
  named, qwswl_cursor_init, qwswl_cursor_select, select_named,
}
use qwswayland.Cursor.Sizes.{mul_comm, needed_size_lem}

-- The planes fit the size, and the size that the code computes is the one that is needed.
pub record Drawable (bm : Bitmap) : Type 0 where
  pub planes : PlanesFit bm
  pub needs : needed_size bm ≡ bm.width * bm.height * 4

-- The pool is mapped in its full size.
pub record Ready (c : Cursor) : Type 0 where
  pub buffer : List ℕ
  pub mapped : c.pixels ≡ some buffer
  pub room : length buffer ≡ 1024
  pub size : c.shm_size ≡ 4096

-- A successful start with a surface makes the cursor ready.
pub init-Ready :
    (r : Resources) (has_pointer : Bool) (c : Cursor)
    → r.surface_ok ≡ true
    → (qwswl_cursor_init r has_pointer c).1 ≡ true
    → Ready (qwswl_cursor_init r has_pointer c).0
unfolding qwswl_cursor_init
init-Ready r has_pointer c s e =
    elim (Bool-cases (r.memfd_ok && (r.truncate_ok && (r.mmap_ok && r.pool_ok)))) [
      | inl ok ↦
          rw (s, ok)
            (record {
              buffer = replicate 1024 0;
              mapped = refl;
              room = length-replicate {A = ℕ} 1024 0;
              size = refl;
            })
      | inr bad ↦ (let q = rw (s, bad) at e in cc)
    ]

-- The small sizes and planes of the system cursors, by evaluation.
abbrev fits : Option Bitmap → Bool
fits none = true
fits (some bm) =
    leb (bm.height * stride_of bm.width) (length bm.data_plane)
    && leb (bm.height * stride_of bm.width) (length bm.mask)
    && leb bm.width 32
    && leb bm.height 32

abbrev all_fit : List (Option Bitmap) → Bool
all_fit [] = true
all_fit (e ∷ es) = fits e && all_fit es

all_fit-entry :
    (es : List (Option Bitmap)) (i : ℕ) → all_fit es ≡ true → fits (entry_at es i) ≡ true
all_fit-entry [] i h = refl
all_fit-entry (e ∷ es) zero h = ground arith
all_fit-entry (e ∷ es) (suc i) h = all_fit-entry es i (ground arith)

table_fits : all_fit cursor_table ≡ true
unfolding cursor_table
table_fits = refl

small_area : (w h : ℕ) → w ≤ 32 → h ≤ 32 → w * h ≤ 1024
small_area w h p q = grind arith

fits-Drawable : (bm : Bitmap) → fits (some bm) ≡ true → Drawable bm
fits-Drawable bm h =
    let w32 : bm.width ≤ 32 = ground arith in
    let h32 : bm.height ≤ 32 = ground arith in
    record {
      planes = record { data_fits = ground arith; mask_fits = ground arith };
      needs =
          needed_size_lem bm (omega arith) (omega arith)
            (omega (arith, small_area bm.width bm.height w32 h32));
    }

system-Drawable : (id : ℤ) (bm : Bitmap) → qws_cursor_bitmap id ≡ some bm → Drawable bm
unfolding qws_cursor_bitmap
system-Drawable (pos id) bm e =
    fits-Drawable bm (ap fits (sym e) ∙ all_fit-entry cursor_table id table_fits)
system-Drawable (negsuc n) bm e = cc

abbrev pub Runs : Cursor → Option (Cursor × List CursorRequest) → Type 0
Runs c r = (c' : Cursor) × (rs : List CursorRequest) × (r ≡ some (c', rs)) × Ready c'

stays : (c : Cursor) (rs : List CursorRequest) → Ready c → Runs c (some (c, rs))
stays c rs r = (c, rs, refl, r)

attach-Ready :
    (c : Cursor) (serial : ℕ) (bm : Bitmap) (create_ok : Bool) (out : List ℕ)
    → length out ≡ 1024
    → c.shm_size ≡ 4096
    → Ready (attach_cursor c serial bm create_ok out).0
attach-Ready c serial bm true out l z = record { buffer = out; mapped = refl; room = l; size = z }
attach-Ready c serial bm false out l z = record { buffer = out; mapped = refl; room = l; size = z }

show_bitmap-Runs :
    (c : Cursor) (serial : ℕ) (bm : Bitmap) (create_ok : Bool)
    → Ready c
    → Drawable bm
    → Runs c (show_bitmap c serial bm create_ok)
unfolding show_bitmap
show_bitmap-Runs c serial bm create_ok r d = elim (Bool-cases (ltb c.shm_size (needed_size bm))) [
  | inl big ↦ rw big (stays c [] r)
  | inr fine ↦
      let small : bm.width * bm.height ≤ 1024 = ground (arith, d.needs, r.size) in
      let (out, run, len, painted, kept) =
        to_argb_lem bm d.planes r.buffer (omega (arith, mul_comm bm.height bm.width, r.room)) in
      let after = attach_cursor c serial bm create_ok out in
      (
        after.0,
        after.1,
        rw fine (rw r.mapped (rw run refl)),
        attach-Ready c serial bm create_ok out (len ∙ r.room) r.size,
      )
]

show_found-Runs :
    (c : Cursor) (serial : ℕ) (create_ok : Bool) (found : Option Bitmap)
    → Ready c
    → ((bm : Bitmap) → found ≡ some bm → Drawable bm)
    → Runs c (show_found c serial create_ok found)
show_found-Runs c serial create_ok none r d = stays c [] r
show_found-Runs c serial create_ok (some bm) r d =
    show_bitmap-Runs c serial bm create_ok r (d bm refl)

or_defined-Drawable :
    (system own : Option Bitmap)
    → ((bm : Bitmap) → system ≡ some bm → Drawable bm)
    → ((bm : Bitmap) → own ≡ some bm → Drawable bm)
    → (bm : Bitmap) → or_defined system own ≡ some bm
    → Drawable bm
or_defined-Drawable none own p q = q
or_defined-Drawable (some b) own p q = p

module _ (cursors : HashMap Bitmap) where
  abbrev pub AllDrawable : cursors.Map → Type 0
  AllDrawable store = (k : ℕ) (bm : Bitmap) → cursors.get store k ≡ some bm → Drawable bm

  select_named-Runs :
      (c : Cursor) (store : cursors.Map) (serial : ℕ) (create_ok : Bool) (id : ℤ)
      (shape : Option WpShape)
      → Ready c
      → AllDrawable store
      → Runs c (select_named cursors c store serial create_ok id shape)
  select_named-Runs c store serial create_ok id (some shape) r a = stays c _ r
  select_named-Runs c store serial create_ok id none r a =
      show_found-Runs c serial create_ok _ r
        (or_defined-Drawable _ _ (system-Drawable id) (a (to_word id)))

  pub select-Runs :
      (has_pointer : Bool) (c : Cursor) (store : cursors.Map) (serial : ℕ) (create_ok : Bool)
      (id : ℤ)
      → Ready c
      → AllDrawable store
      → Runs c (qwswl_cursor_select cursors has_pointer c store serial create_ok id)
  unfolding qwswl_cursor_select
  select-Runs false c store serial create_ok id r a = stays c [] r
  select-Runs true c store serial create_ok id r a = elim (Bool-cases (is_blank (shape_of id))) [
    | inl blank ↦ rw blank (stays c _ r)
    | inr shown ↦
        rw shown
          (select_named-Runs c store serial create_ok id (named c.shape_device (shape_of id)) r a)
  ]
