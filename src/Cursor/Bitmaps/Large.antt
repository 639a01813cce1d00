-- ===== src/Cursor/Bitmaps/Large.antt =====
-- The bitmaps of libqwsproto/qws_cursor.c, 32 pixels wide: one bit for a pixel, the lowest first.
use qwswayland.Prelude.{ℕ, List, [], ◌∷◌}

abbrev pub wait_data_bits : List ℕ
wait_data_bits =
    0x00 ∷ 0x00 ∷ 0x00 ∷ 0x00 ∷ 0x00 ∷ 0x00 ∷ 0x00 ∷ 0x00 ∷ 0x00 ∷ 0x00 ∷ 0x00 ∷ 0x00 ∷ 0x00 ∷ 0x00
    ∷ 0x00 ∷ 0x00 ∷ 0x00 ∷ 0x00 ∷ 0x00 ∷ 0x00 ∷ 0x00 ∷ 0xfc ∷ 0x7f ∷ 0x00 ∷ 0x00 ∷ 0x04 ∷ 0x40
    ∷ 0x00 ∷ 0x00 ∷ 0xfc ∷ 0x7f ∷ 0x00 ∷ 0x00 ∷ 0x08 ∷ 0x20 ∷ 0x00 ∷ 0x00 ∷ 0x08 ∷ 0x20 ∷ 0x00
    ∷ 0x00 ∷ 0x08 ∷ 0x20 ∷ 0x00 ∷ 0x00 ∷ 0x08 ∷ 0x20 ∷ 0x00 ∷ 0x00 ∷ 0x50 ∷ 0x15 ∷ 0x00 ∷ 0x00
    ∷ 0xa0 ∷ 0x0a ∷ 0x00 ∷ 0x00 ∷ 0x40 ∷ 0x05 ∷ 0x00 ∷ 0x00 ∷ 0x80 ∷ 0x02 ∷ 0x00 ∷ 0x00 ∷ 0x40
    ∷ 0x04 ∷ 0x00 ∷ 0x00 ∷ 0x20 ∷ 0x08 ∷ 0x00 ∷ 0x00 ∷ 0x10 ∷ 0x10 ∷ 0x00 ∷ 0x00 ∷ 0x08 ∷ 0x21
    ∷ 0x00 ∷ 0x00 ∷ 0x88 ∷ 0x22 ∷ 0x00 ∷ 0x00 ∷ 0x48 ∷ 0x25 ∷ 0x00 ∷ 0x00 ∷ 0xa8 ∷ 0x2a ∷ 0x00
    ∷ 0x00 ∷ 0xfc ∷ 0x7f ∷ 0x00 ∷ 0x00 ∷ 0x04 ∷ 0x40 ∷ 0x00 ∷ 0x00 ∷ 0xfc ∷ 0x7f ∷ 0x00 ∷ 0x00
    ∷ 0x00 ∷ 0x00 ∷ 0x00 ∷ 0x00 ∷ 0x00 ∷ 0x00 ∷ 0x00 ∷ 0x00 ∷ 0x00 ∷ 0x00 ∷ 0x00 ∷ 0x00 ∷ 0x00
    ∷ 0x00 ∷ 0x00 ∷ 0x00 ∷ 0x00 ∷ 0x00 ∷ 0x00 ∷ 0x00 ∷ 0x00 ∷ 0x00 ∷ 0x00 ∷ []

abbrev pub wait_mask_bits : List ℕ
wait_mask_bits =
    0x00 ∷ 0x00 ∷ 0x00 ∷ 0x00 ∷ 0x00 ∷ 0x00 ∷ 0x00 ∷ 0x00 ∷ 0x00 ∷ 0x00 ∷ 0x00 ∷ 0x00 ∷ 0x00 ∷ 0x00
    ∷ 0x00 ∷ 0x00 ∷ 0x00 ∷ 0x00 ∷ 0x00 ∷ 0x00 ∷ 0x00 ∷ 0xfc ∷ 0x7f ∷ 0x00 ∷ 0x00 ∷ 0xfc ∷ 0x7f
    ∷ 0x00 ∷ 0x00 ∷ 0xfc ∷ 0x7f ∷ 0x00 ∷ 0x00 ∷ 0xf8 ∷ 0x3f ∷ 0x00 ∷ 0x00 ∷ 0xf8 ∷ 0x3f ∷ 0x00
    ∷ 0x00 ∷ 0xf8 ∷ 0x3f ∷ 0x00 ∷ 0x00 ∷ 0xf8 ∷ 0x3f ∷ 0x00 ∷ 0x00 ∷ 0xf0 ∷ 0x1f ∷ 0x00 ∷ 0x00
    ∷ 0xe0 ∷ 0x0f ∷ 0x00 ∷ 0x00 ∷ 0xc0 ∷ 0x07 ∷ 0x00 ∷ 0x00 ∷ 0x80 ∷ 0x03 ∷ 0x00 ∷ 0x00 ∷ 0xc0
    ∷ 0x07 ∷ 0x00 ∷ 0x00 ∷ 0xe0 ∷ 0x0f ∷ 0x00 ∷ 0x00 ∷ 0xf0 ∷ 0x1f ∷ 0x00 ∷ 0x00 ∷ 0xf8 ∷ 0x3f
    ∷ 0x00 ∷ 0x00 ∷ 0xf8 ∷ 0x3f ∷ 0x00 ∷ 0x00 ∷ 0xf8 ∷ 0x3f ∷ 0x00 ∷ 0x00 ∷ 0xf8 ∷ 0x3f ∷ 0x00
    ∷ 0x00 ∷ 0xfc ∷ 0x7f ∷ 0x00 ∷ 0x00 ∷ 0xfc ∷ 0x7f ∷ 0x00 ∷ 0x00 ∷ 0xfc ∷ 0x7f ∷ 0x00 ∷ 0x00
    ∷ 0x00 ∷ 0x00 ∷ 0x00 ∷ 0x00 ∷ 0x00 ∷ 0x00 ∷ 0x00 ∷ 0x00 ∷ 0x00 ∷ 0x00 ∷ 0x00 ∷ 0x00 ∷ 0x00
    ∷ 0x00 ∷ 0x00 ∷ 0x00 ∷ 0x00 ∷ 0x00 ∷ 0x00 ∷ 0x00 ∷ 0x00 ∷ 0x00 ∷ 0x00 ∷ []

abbrev pub hsplit_bits : List ℕ
hsplit_bits =
    0x00 ∷ 0x00 ∷ 0x00 ∷ 0x00 ∷ 0x00 ∷ 0x00 ∷ 0x00 ∷ 0x00 ∷ 0x00 ∷ 0x00 ∷ 0x00 ∷ 0x00 ∷ 0x00 ∷ 0x00
    ∷ 0x00 ∷ 0x00 ∷ 0x00 ∷ 0x00 ∷ 0x00 ∷ 0x00 ∷ 0x00 ∷ 0x00 ∷ 0x00 ∷ 0x00 ∷ 0x00 ∷ 0x00 ∷ 0x00
    ∷ 0x00 ∷ 0x00 ∷ 0x40 ∷ 0x02 ∷ 0x00 ∷ 0x00 ∷ 0x40 ∷ 0x02 ∷ 0x00 ∷ 0x00 ∷ 0x40 ∷ 0x02 ∷ 0x00
    ∷ 0x00 ∷ 0x40 ∷ 0x02 ∷ 0x00 ∷ 0x00 ∷ 0x40 ∷ 0x02 ∷ 0x00 ∷ 0x00 ∷ 0x41 ∷ 0x82 ∷ 0x00 ∷ 0x80
    ∷ 0x41 ∷ 0x82 ∷ 0x01 ∷ 0xc0 ∷ 0x7f ∷ 0xfe ∷ 0x03 ∷ 0x80 ∷ 0x41 ∷ 0x82 ∷ 0x01 ∷ 0x00 ∷ 0x41
    ∷ 0x82 ∷ 0x00 ∷ 0x00 ∷ 0x40 ∷ 0x02 ∷ 0x00 ∷ 0x00 ∷ 0x40 ∷ 0x02 ∷ 0x00 ∷ 0x00 ∷ 0x40 ∷ 0x02
    ∷ 0x00 ∷ 0x00 ∷ 0x40 ∷ 0x02 ∷ 0x00 ∷ 0x00 ∷ 0x40 ∷ 0x02 ∷ 0x00 ∷ 0x00 ∷ 0x40 ∷ 0x02 ∷ 0x00
    ∷ 0x00 ∷ 0x00 ∷ 0x00 ∷ 0x00 ∷ 0x00 ∷ 0x00 ∷ 0x00 ∷ 0x00 ∷ 0x00 ∷ 0x00 ∷ 0x00 ∷ 0x00 ∷ 0x00
    ∷ 0x00 ∷ 0x00 ∷ 0x00 ∷ 0x00 ∷ 0x00 ∷ 0x00 ∷ 0x00 ∷ 0x00 ∷ 0x00 ∷ 0x00 ∷ 0x00 ∷ 0x00 ∷ 0x00
    ∷ 0x00 ∷ 0x00 ∷ 0x00 ∷ 0x00 ∷ 0x00 ∷ 0x00 ∷ 0x00 ∷ 0x00 ∷ 0x00 ∷ 0x00 ∷ []

abbrev pub hsplitm_bits : List ℕ
hsplitm_bits =
    0x00 ∷ 0x00 ∷ 0x00 ∷ 0x00 ∷ 0x00 ∷ 0x00 ∷ 0x00 ∷ 0x00 ∷ 0x00 ∷ 0x00 ∷ 0x00 ∷ 0x00 ∷ 0x00 ∷ 0x00
    ∷ 0x00 ∷ 0x00 ∷ 0x00 ∷ 0x00 ∷ 0x00 ∷ 0x00 ∷ 0x00 ∷ 0x00 ∷ 0x00 ∷ 0x00 ∷ 0x00 ∷ 0xe0 ∷ 0x07
    ∷ 0x00 ∷ 0x00 ∷ 0xe0 ∷ 0x07 ∷ 0x00 ∷ 0x00 ∷ 0xe0 ∷ 0x07 ∷ 0x00 ∷ 0x00 ∷ 0xe0 ∷ 0x07 ∷ 0x00
    ∷ 0x00 ∷ 0xe2 ∷ 0x47 ∷ 0x00 ∷ 0x00 ∷ 0xe3 ∷ 0xc7 ∷ 0x00 ∷ 0x80 ∷ 0xe3 ∷ 0xc7 ∷ 0x01 ∷ 0xc0
    ∷ 0xff ∷ 0xff ∷ 0x03 ∷ 0xe0 ∷ 0xff ∷ 0xff ∷ 0x07 ∷ 0xc0 ∷ 0xff ∷ 0xff ∷ 0x03 ∷ 0x80 ∷ 0xe3
    ∷ 0xc7 ∷ 0x01 ∷ 0x00 ∷ 0xe3 ∷ 0xc7 ∷ 0x00 ∷ 0x00 ∷ 0xe2 ∷ 0x47 ∷ 0x00 ∷ 0x00 ∷ 0xe0 ∷ 0x07
    ∷ 0x00 ∷ 0x00 ∷ 0xe0 ∷ 0x07 ∷ 0x00 ∷ 0x00 ∷ 0xe0 ∷ 0x07 ∷ 0x00 ∷ 0x00 ∷ 0xe0 ∷ 0x07 ∷ 0x00
    ∷ 0x00 ∷ 0x00 ∷ 0x00 ∷ 0x00 ∷ 0x00 ∷ 0x00 ∷ 0x00 ∷ 0x00 ∷ 0x00 ∷ 0x00 ∷ 0x00 ∷ 0x00 ∷ 0x00
    ∷ 0x00 ∷ 0x00 ∷ 0x00 ∷ 0x00 ∷ 0x00 ∷ 0x00 ∷ 0x00 ∷ 0x00 ∷ 0x00 ∷ 0x00 ∷ 0x00 ∷ 0x00 ∷ 0x00
    ∷ 0x00 ∷ 0x00 ∷ 0x00 ∷ 0x00 ∷ 0x00 ∷ 0x00 ∷ 0x00 ∷ 0x00 ∷ 0x00 ∷ 0x00 ∷ []

abbrev pub vsplit_bits : List ℕ
vsplit_bits =
    0x00 ∷ 0x00 ∷ 0x00 ∷ 0x00 ∷ 0x00 ∷ 0x00 ∷ 0x00 ∷ 0x00 ∷ 0x00 ∷ 0x00 ∷ 0x00 ∷ 0x00 ∷ 0x00 ∷ 0x00
    ∷ 0x00 ∷ 0x00 ∷ 0x00 ∷ 0x00 ∷ 0x00 ∷ 0x00 ∷ 0x00 ∷ 0x00 ∷ 0x00 ∷ 0x00 ∷ 0x00 ∷ 0x80 ∷ 0x00
    ∷ 0x00 ∷ 0x00 ∷ 0xc0 ∷ 0x01 ∷ 0x00 ∷ 0x00 ∷ 0xe0 ∷ 0x03 ∷ 0x00 ∷ 0x00 ∷ 0x80 ∷ 0x00 ∷ 0x00
    ∷ 0x00 ∷ 0x80 ∷ 0x00 ∷ 0x00 ∷ 0x00 ∷ 0x80 ∷ 0x00 ∷ 0x00 ∷ 0x00 ∷ 0x80 ∷ 0x00 ∷ 0x00 ∷ 0x00
    ∷ 0x80 ∷ 0x00 ∷ 0x00 ∷ 0x00 ∷ 0xff ∷ 0x7f ∷ 0x00 ∷ 0x00 ∷ 0x00 ∷ 0x00 ∷ 0x00 ∷ 0x00 ∷ 0x00
    ∷ 0x00 ∷ 0x00 ∷ 0x00 ∷ 0xff ∷ 0x7f ∷ 0x00 ∷ 0x00 ∷ 0x80 ∷ 0x00 ∷ 0x00 ∷ 0x00 ∷ 0x80 ∷ 0x00
    ∷ 0x00 ∷ 0x00 ∷ 0x80 ∷ 0x00 ∷ 0x00 ∷ 0x00 ∷ 0x80 ∷ 0x00 ∷ 0x00 ∷ 0x00 ∷ 0x80 ∷ 0x00 ∷ 0x00
    ∷ 0x00 ∷ 0xe0 ∷ 0x03 ∷ 0x00 ∷ 0x00 ∷ 0xc0 ∷ 0x01 ∷ 0x00 ∷ 0x00 ∷ 0x80 ∷ 0x00 ∷ 0x00 ∷ 0x00
    ∷ 0x00 ∷ 0x00 ∷ 0x00 ∷ 0x00 ∷ 0x00 ∷ 0x00 ∷ 0x00 ∷ 0x00 ∷ 0x00 ∷ 0x00 ∷ 0x00 ∷ 0x00 ∷ 0x00
    ∷ 0x00 ∷ 0x00 ∷ 0x00 ∷ 0x00 ∷ 0x00 ∷ 0x00 ∷ 0x00 ∷ 0x00 ∷ 0x00 ∷ 0x00 ∷ []

abbrev pub vsplitm_bits : List ℕ
vsplitm_bits =
    0x00 ∷ 0x00 ∷ 0x00 ∷ 0x00 ∷ 0x00 ∷ 0x00 ∷ 0x00 ∷ 0x00 ∷ 0x00 ∷ 0x00 ∷ 0x00 ∷ 0x00 ∷ 0x00 ∷ 0x00
    ∷ 0x00 ∷ 0x00 ∷ 0x00 ∷ 0x00 ∷ 0x00 ∷ 0x00 ∷ 0x00 ∷ 0x80 ∷ 0x00 ∷ 0x00 ∷ 0x00 ∷ 0xc0 ∷ 0x01
    ∷ 0x00 ∷ 0x00 ∷ 0xe0 ∷ 0x03 ∷ 0x00 ∷ 0x00 ∷ 0xf0 ∷ 0x07 ∷ 0x00 ∷ 0x00 ∷ 0xf8 ∷ 0x0f ∷ 0x00
    ∷ 0x00 ∷ 0xc0 ∷ 0x01 ∷ 0x00 ∷ 0x00 ∷ 0xc0 ∷ 0x01 ∷ 0x00 ∷ 0x00 ∷ 0xc0 ∷ 0x01 ∷ 0x00 ∷ 0x80
    ∷ 0xff ∷ 0xff ∷ 0x00 ∷ 0x80 ∷ 0xff ∷ 0xff ∷ 0x00 ∷ 0x80 ∷ 0xff ∷ 0xff ∷ 0x00 ∷ 0x80 ∷ 0xff
    ∷ 0xff ∷ 0x00 ∷ 0x80 ∷ 0xff ∷ 0xff ∷ 0x00 ∷ 0x80 ∷ 0xff ∷ 0xff ∷ 0x00 ∷ 0x00 ∷ 0xc0 ∷ 0x01
    ∷ 0x00 ∷ 0x00 ∷ 0xc0 ∷ 0x01 ∷ 0x00 ∷ 0x00 ∷ 0xc0 ∷ 0x01 ∷ 0x00 ∷ 0x00 ∷ 0xf8 ∷ 0x0f ∷ 0x00
    ∷ 0x00 ∷ 0xf0 ∷ 0x07 ∷ 0x00 ∷ 0x00 ∷ 0xe0 ∷ 0x03 ∷ 0x00 ∷ 0x00 ∷ 0xc0 ∷ 0x01 ∷ 0x00 ∷ 0x00
    ∷ 0x80 ∷ 0x00 ∷ 0x00 ∷ 0x00 ∷ 0x00 ∷ 0x00 ∷ 0x00 ∷ 0x00 ∷ 0x00 ∷ 0x00 ∷ 0x00 ∷ 0x00 ∷ 0x00
    ∷ 0x00 ∷ 0x00 ∷ 0x00 ∷ 0x00 ∷ 0x00 ∷ 0x00 ∷ 0x00 ∷ 0x00 ∷ 0x00 ∷ 0x00 ∷ []

abbrev pub phand_bits : List ℕ
phand_bits =
    0x00 ∷ 0x00 ∷ 0x00 ∷ 0x00 ∷ 0xfe ∷ 0x01 ∷ 0x00 ∷ 0x00 ∷ 0x01 ∷ 0x02 ∷ 0x00 ∷ 0x00 ∷ 0x7e ∷ 0x04
    ∷ 0x00 ∷ 0x00 ∷ 0x08 ∷ 0x08 ∷ 0x00 ∷ 0x00 ∷ 0x70 ∷ 0x08 ∷ 0x00 ∷ 0x00 ∷ 0x08 ∷ 0x08 ∷ 0x00
    ∷ 0x00 ∷ 0x70 ∷ 0x14 ∷ 0x00 ∷ 0x00 ∷ 0x08 ∷ 0x22 ∷ 0x00 ∷ 0x00 ∷ 0x30 ∷ 0x41 ∷ 0x00 ∷ 0x00
    ∷ 0xc0 ∷ 0x20 ∷ 0x00 ∷ 0x00 ∷ 0x40 ∷ 0x12 ∷ 0x00 ∷ 0x00 ∷ 0x80 ∷ 0x08 ∷ 0x00 ∷ 0x00 ∷ 0x00
    ∷ 0x05 ∷ 0x00 ∷ 0x00 ∷ 0x00 ∷ 0x02 ∷ 0x00 ∷ 0x00 ∷ 0x00 ∷ 0x00 ∷ 0x00 ∷ 0x00 ∷ 0x00 ∷ 0x00
    ∷ 0x00 ∷ 0x00 ∷ 0x00 ∷ 0x00 ∷ 0x00 ∷ 0x00 ∷ 0x00 ∷ 0x00 ∷ 0x00 ∷ 0x00 ∷ 0x00 ∷ 0x00 ∷ 0x00
    ∷ 0x00 ∷ 0x00 ∷ 0x00 ∷ 0x00 ∷ 0x00 ∷ 0x00 ∷ 0x00 ∷ 0x00 ∷ 0x00 ∷ 0x00 ∷ 0x00 ∷ 0x00 ∷ 0x00
    ∷ 0x00 ∷ 0x00 ∷ 0x00 ∷ 0x00 ∷ 0x00 ∷ 0x00 ∷ 0x00 ∷ 0x00 ∷ 0x00 ∷ 0x00 ∷ 0x00 ∷ 0x00 ∷ 0x00
    ∷ 0x00 ∷ 0x00 ∷ 0x00 ∷ 0x00 ∷ 0x00 ∷ 0x00 ∷ 0x00 ∷ 0x00 ∷ 0x00 ∷ 0x00 ∷ 0x00 ∷ 0x00 ∷ 0x00
    ∷ 0x00 ∷ 0x00 ∷ 0x00 ∷ 0x00 ∷ 0x00 ∷ 0x00 ∷ 0x00 ∷ 0x00 ∷ 0x00 ∷ 0x00 ∷ []

abbrev pub phandm_bits : List ℕ
phandm_bits =
    0xfe ∷ 0x01 ∷ 0x00 ∷ 0x00 ∷ 0xff ∷ 0x03 ∷ 0x00 ∷ 0x00 ∷ 0xff ∷ 0x07 ∷ 0x00 ∷ 0x00 ∷ 0xff ∷ 0x0f
    ∷ 0x00 ∷ 0x00 ∷ 0xfe ∷ 0x1f ∷ 0x00 ∷ 0x00 ∷ 0xf8 ∷ 0x1f ∷ 0x00 ∷ 0x00 ∷ 0xfc ∷ 0x1f ∷ 0x00
    ∷ 0x00 ∷ 0xf8 ∷ 0x3f ∷ 0x00 ∷ 0x00 ∷ 0xfc ∷ 0x7f ∷ 0x00 ∷ 0x00 ∷ 0xf8 ∷ 0xff ∷ 0x00 ∷ 0x00
    ∷ 0xf0 ∷ 0x7f ∷ 0x00 ∷ 0x00 ∷ 0xe0 ∷ 0x3f ∷ 0x00 ∷ 0x00 ∷ 0xc0 ∷ 0x1f ∷ 0x00 ∷ 0x00 ∷ 0x80
    ∷ 0x0f ∷ 0x00 ∷ 0x00 ∷ 0x00 ∷ 0x07 ∷ 0x00 ∷ 0x00 ∷ 0x00 ∷ 0x02 ∷ 0x00 ∷ 0x00 ∷ 0x00 ∷ 0x00
    ∷ 0x00 ∷ 0x00 ∷ 0x00 ∷ 0x00 ∷ 0x00 ∷ 0x00 ∷ 0x00 ∷ 0x00 ∷ 0x00 ∷ 0x00 ∷ 0x00 ∷ 0x00 ∷ 0x00
    ∷ 0x00 ∷ 0x00 ∷ 0x00 ∷ 0x00 ∷ 0x00 ∷ 0x00 ∷ 0x00 ∷ 0x00 ∷ 0x00 ∷ 0x00 ∷ 0x00 ∷ 0x00 ∷ 0x00
    ∷ 0x00 ∷ 0x00 ∷ 0x00 ∷ 0x00 ∷ 0x00 ∷ 0x00 ∷ 0x00 ∷ 0x00 ∷ 0x00 ∷ 0x00 ∷ 0x00 ∷ 0x00 ∷ 0x00
    ∷ 0x00 ∷ 0x00 ∷ 0x00 ∷ 0x00 ∷ 0x00 ∷ 0x00 ∷ 0x00 ∷ 0x00 ∷ 0x00 ∷ 0x00 ∷ 0x00 ∷ 0x00 ∷ 0x00
    ∷ 0x00 ∷ 0x00 ∷ 0x00 ∷ 0x00 ∷ 0x00 ∷ 0x00 ∷ 0x00 ∷ 0x00 ∷ 0x00 ∷ 0x00 ∷ []
