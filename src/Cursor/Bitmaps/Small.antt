-- ===== src/Cursor/Bitmaps/Small.antt =====
-- The bitmaps of libqwsproto/qws_cursor.c, 16 pixels wide or 20: one bit for a pixel, the lowest first.
use qwswayland.Prelude.{ℕ, List, [], ◌∷◌}

abbrev pub cur_arrow_bits : List ℕ
cur_arrow_bits =
    0x07 ∷ 0x00 ∷ 0x39 ∷ 0x00 ∷ 0xc1 ∷ 0x01 ∷ 0x02 ∷ 0x0e ∷ 0x02 ∷ 0x10 ∷ 0x02 ∷ 0x08 ∷ 0x04 ∷ 0x04
    ∷ 0x04 ∷ 0x02 ∷ 0x04 ∷ 0x04 ∷ 0x88 ∷ 0x08 ∷ 0x48 ∷ 0x11 ∷ 0x28 ∷ 0x22 ∷ 0x10 ∷ 0x44 ∷ 0x00
    ∷ 0x28 ∷ 0x00 ∷ 0x10 ∷ 0x00 ∷ 0x00 ∷ []

abbrev pub mcur_arrow_bits : List ℕ
mcur_arrow_bits =
    0x07 ∷ 0x00 ∷ 0x3f ∷ 0x00 ∷ 0xff ∷ 0x01 ∷ 0xfe ∷ 0x0f ∷ 0xfe ∷ 0x1f ∷ 0xfe ∷ 0x0f ∷ 0xfc ∷ 0x07
    ∷ 0xfc ∷ 0x03 ∷ 0xfc ∷ 0x07 ∷ 0xf8 ∷ 0x0f ∷ 0x78 ∷ 0x1f ∷ 0x38 ∷ 0x3e ∷ 0x10 ∷ 0x7c ∷ 0x00
    ∷ 0x38 ∷ 0x00 ∷ 0x10 ∷ 0x00 ∷ 0x00 ∷ []

abbrev pub cur_up_arrow_bits : List ℕ
cur_up_arrow_bits =
    0x80 ∷ 0x00 ∷ 0x40 ∷ 0x01 ∷ 0x40 ∷ 0x01 ∷ 0x20 ∷ 0x02 ∷ 0x20 ∷ 0x02 ∷ 0x10 ∷ 0x04 ∷ 0x10 ∷ 0x04
    ∷ 0x08 ∷ 0x08 ∷ 0x78 ∷ 0x0f ∷ 0x40 ∷ 0x01 ∷ 0x40 ∷ 0x01 ∷ 0x40 ∷ 0x01 ∷ 0x40 ∷ 0x01 ∷ 0x40
    ∷ 0x01 ∷ 0x40 ∷ 0x01 ∷ 0xc0 ∷ 0x01 ∷ []

abbrev pub mcur_up_arrow_bits : List ℕ
mcur_up_arrow_bits =
    0x80 ∷ 0x00 ∷ 0xc0 ∷ 0x01 ∷ 0xc0 ∷ 0x01 ∷ 0xe0 ∷ 0x03 ∷ 0xe0 ∷ 0x03 ∷ 0xf0 ∷ 0x07 ∷ 0xf0 ∷ 0x07
    ∷ 0xf8 ∷ 0x0f ∷ 0xf8 ∷ 0x0f ∷ 0xc0 ∷ 0x01 ∷ 0xc0 ∷ 0x01 ∷ 0xc0 ∷ 0x01 ∷ 0xc0 ∷ 0x01 ∷ 0xc0
    ∷ 0x01 ∷ 0xc0 ∷ 0x01 ∷ 0xc0 ∷ 0x01 ∷ []

abbrev pub cur_cross_bits : List ℕ
cur_cross_bits =
    0xc0 ∷ 0x01 ∷ 0x40 ∷ 0x01 ∷ 0x40 ∷ 0x01 ∷ 0x40 ∷ 0x01 ∷ 0x40 ∷ 0x01 ∷ 0x40 ∷ 0x01 ∷ 0x7f ∷ 0x7f
    ∷ 0x01 ∷ 0x40 ∷ 0x7f ∷ 0x7f ∷ 0x40 ∷ 0x01 ∷ 0x40 ∷ 0x01 ∷ 0x40 ∷ 0x01 ∷ 0x40 ∷ 0x01 ∷ 0x40
    ∷ 0x01 ∷ 0xc0 ∷ 0x01 ∷ 0x00 ∷ 0x00 ∷ []

abbrev pub mcur_cross_bits : List ℕ
mcur_cross_bits =
    0xc0 ∷ 0x01 ∷ 0xc0 ∷ 0x01 ∷ 0xc0 ∷ 0x01 ∷ 0xc0 ∷ 0x01 ∷ 0xc0 ∷ 0x01 ∷ 0xc0 ∷ 0x01 ∷ 0xff ∷ 0x7f
    ∷ 0xff ∷ 0x7f ∷ 0xff ∷ 0x7f ∷ 0xc0 ∷ 0x01 ∷ 0xc0 ∷ 0x01 ∷ 0xc0 ∷ 0x01 ∷ 0xc0 ∷ 0x01 ∷ 0xc0
    ∷ 0x01 ∷ 0xc0 ∷ 0x01 ∷ 0x00 ∷ 0x00 ∷ []

abbrev pub cur_ibeam_bits : List ℕ
cur_ibeam_bits =
    0x00 ∷ 0x00 ∷ 0xe0 ∷ 0x03 ∷ 0x80 ∷ 0x00 ∷ 0x80 ∷ 0x00 ∷ 0x80 ∷ 0x00 ∷ 0x80 ∷ 0x00 ∷ 0x80 ∷ 0x00
    ∷ 0x80 ∷ 0x00 ∷ 0x80 ∷ 0x00 ∷ 0x80 ∷ 0x00 ∷ 0x80 ∷ 0x00 ∷ 0x80 ∷ 0x00 ∷ 0x80 ∷ 0x00 ∷ 0xe0
    ∷ 0x03 ∷ 0x00 ∷ 0x00 ∷ 0x00 ∷ 0x00 ∷ []

abbrev pub mcur_ibeam_bits : List ℕ
mcur_ibeam_bits =
    0xf0 ∷ 0x07 ∷ 0xf0 ∷ 0x07 ∷ 0xf0 ∷ 0x07 ∷ 0xc0 ∷ 0x01 ∷ 0xc0 ∷ 0x01 ∷ 0xc0 ∷ 0x01 ∷ 0xc0 ∷ 0x01
    ∷ 0xc0 ∷ 0x01 ∷ 0xc0 ∷ 0x01 ∷ 0xc0 ∷ 0x01 ∷ 0xc0 ∷ 0x01 ∷ 0xc0 ∷ 0x01 ∷ 0xf0 ∷ 0x07 ∷ 0xf0
    ∷ 0x07 ∷ 0xf0 ∷ 0x07 ∷ 0x00 ∷ 0x00 ∷ []

abbrev pub cur_ver_bits : List ℕ
cur_ver_bits =
    0x00 ∷ 0x00 ∷ 0x00 ∷ 0x00 ∷ 0x80 ∷ 0x01 ∷ 0xc0 ∷ 0x03 ∷ 0xe0 ∷ 0x07 ∷ 0xf0 ∷ 0x0f ∷ 0x80 ∷ 0x01
    ∷ 0x80 ∷ 0x01 ∷ 0x80 ∷ 0x01 ∷ 0x80 ∷ 0x01 ∷ 0x80 ∷ 0x01 ∷ 0xf0 ∷ 0x0f ∷ 0xe0 ∷ 0x07 ∷ 0xc0
    ∷ 0x03 ∷ 0x80 ∷ 0x01 ∷ 0x00 ∷ 0x00 ∷ []

abbrev pub mcur_ver_bits : List ℕ
mcur_ver_bits =
    0x00 ∷ 0x00 ∷ 0x80 ∷ 0x03 ∷ 0xc0 ∷ 0x07 ∷ 0xe0 ∷ 0x0f ∷ 0xf0 ∷ 0x1f ∷ 0xf8 ∷ 0x3f ∷ 0xfc ∷ 0x7f
    ∷ 0xc0 ∷ 0x07 ∷ 0xc0 ∷ 0x07 ∷ 0xc0 ∷ 0x07 ∷ 0xfc ∷ 0x7f ∷ 0xf8 ∷ 0x3f ∷ 0xf0 ∷ 0x1f ∷ 0xe0
    ∷ 0x0f ∷ 0xc0 ∷ 0x07 ∷ 0x80 ∷ 0x03 ∷ []

abbrev pub cur_hor_bits : List ℕ
cur_hor_bits =
    0x00 ∷ 0x00 ∷ 0x00 ∷ 0x00 ∷ 0x00 ∷ 0x00 ∷ 0x00 ∷ 0x00 ∷ 0x20 ∷ 0x08 ∷ 0x30 ∷ 0x18 ∷ 0x38 ∷ 0x38
    ∷ 0xfc ∷ 0x7f ∷ 0xfc ∷ 0x7f ∷ 0x38 ∷ 0x38 ∷ 0x30 ∷ 0x18 ∷ 0x20 ∷ 0x08 ∷ 0x00 ∷ 0x00 ∷ 0x00
    ∷ 0x00 ∷ 0x00 ∷ 0x00 ∷ 0x00 ∷ 0x00 ∷ []

abbrev pub mcur_hor_bits : List ℕ
mcur_hor_bits =
    0x00 ∷ 0x00 ∷ 0x00 ∷ 0x00 ∷ 0x40 ∷ 0x04 ∷ 0x60 ∷ 0x0c ∷ 0x70 ∷ 0x1c ∷ 0x78 ∷ 0x3c ∷ 0xfc ∷ 0x7f
    ∷ 0xfe ∷ 0xff ∷ 0xfe ∷ 0xff ∷ 0xfe ∷ 0xff ∷ 0xfc ∷ 0x7f ∷ 0x78 ∷ 0x3c ∷ 0x70 ∷ 0x1c ∷ 0x60
    ∷ 0x0c ∷ 0x40 ∷ 0x04 ∷ 0x00 ∷ 0x00 ∷ []

abbrev pub cur_bdiag_bits : List ℕ
cur_bdiag_bits =
    0x00 ∷ 0x00 ∷ 0x00 ∷ 0x00 ∷ 0x00 ∷ 0x3f ∷ 0x00 ∷ 0x3e ∷ 0x00 ∷ 0x3c ∷ 0x00 ∷ 0x3e ∷ 0x00 ∷ 0x37
    ∷ 0x88 ∷ 0x23 ∷ 0xd8 ∷ 0x01 ∷ 0xf8 ∷ 0x00 ∷ 0x78 ∷ 0x00 ∷ 0xf8 ∷ 0x00 ∷ 0xf8 ∷ 0x01 ∷ 0x00
    ∷ 0x00 ∷ 0x00 ∷ 0x00 ∷ 0x00 ∷ 0x00 ∷ []

abbrev pub mcur_bdiag_bits : List ℕ
mcur_bdiag_bits =
    0x00 ∷ 0x00 ∷ 0xc0 ∷ 0x7f ∷ 0x80 ∷ 0x7f ∷ 0x00 ∷ 0x7f ∷ 0x00 ∷ 0x7e ∷ 0x04 ∷ 0x7f ∷ 0x8c ∷ 0x7f
    ∷ 0xdc ∷ 0x77 ∷ 0xfc ∷ 0x63 ∷ 0xfc ∷ 0x41 ∷ 0xfc ∷ 0x00 ∷ 0xfc ∷ 0x01 ∷ 0xfc ∷ 0x03 ∷ 0xfc
    ∷ 0x07 ∷ 0x00 ∷ 0x00 ∷ 0x00 ∷ 0x00 ∷ []

abbrev pub cur_fdiag_bits : List ℕ
cur_fdiag_bits =
    0x00 ∷ 0x00 ∷ 0x00 ∷ 0x00 ∷ 0x00 ∷ 0x00 ∷ 0xf8 ∷ 0x01 ∷ 0xf8 ∷ 0x00 ∷ 0x78 ∷ 0x00 ∷ 0xf8 ∷ 0x00
    ∷ 0xd8 ∷ 0x01 ∷ 0x88 ∷ 0x23 ∷ 0x00 ∷ 0x37 ∷ 0x00 ∷ 0x3e ∷ 0x00 ∷ 0x3c ∷ 0x00 ∷ 0x3e ∷ 0x00
    ∷ 0x3f ∷ 0x00 ∷ 0x00 ∷ 0x00 ∷ 0x00 ∷ []

abbrev pub mcur_fdiag_bits : List ℕ
mcur_fdiag_bits =
    0x00 ∷ 0x00 ∷ 0x00 ∷ 0x00 ∷ 0xfc ∷ 0x07 ∷ 0xfc ∷ 0x03 ∷ 0xfc ∷ 0x01 ∷ 0xfc ∷ 0x00 ∷ 0xfc ∷ 0x41
    ∷ 0xfc ∷ 0x63 ∷ 0xdc ∷ 0x77 ∷ 0x8c ∷ 0x7f ∷ 0x04 ∷ 0x7f ∷ 0x00 ∷ 0x7e ∷ 0x00 ∷ 0x7f ∷ 0x80
    ∷ 0x7f ∷ 0xc0 ∷ 0x7f ∷ 0x00 ∷ 0x00 ∷ []

abbrev pub openhand_bits : List ℕ
openhand_bits =
    0x80 ∷ 0x01 ∷ 0x58 ∷ 0x0e ∷ 0x64 ∷ 0x12 ∷ 0x64 ∷ 0x52 ∷ 0x48 ∷ 0xb2 ∷ 0x48 ∷ 0x92 ∷ 0x16 ∷ 0x90
    ∷ 0x19 ∷ 0x80 ∷ 0x11 ∷ 0x40 ∷ 0x02 ∷ 0x40 ∷ 0x04 ∷ 0x40 ∷ 0x04 ∷ 0x20 ∷ 0x08 ∷ 0x20 ∷ 0x10
    ∷ 0x10 ∷ 0x20 ∷ 0x10 ∷ 0x00 ∷ 0x00 ∷ []

abbrev pub openhandm_bits : List ℕ
openhandm_bits =
    0x80 ∷ 0x01 ∷ 0xd8 ∷ 0x0f ∷ 0xfc ∷ 0x1f ∷ 0xfc ∷ 0x5f ∷ 0xf8 ∷ 0xff ∷ 0xf8 ∷ 0xff ∷ 0xfe ∷ 0xff
    ∷ 0xff ∷ 0xff ∷ 0xff ∷ 0x7f ∷ 0xfe ∷ 0x7f ∷ 0xfc ∷ 0x7f ∷ 0xfc ∷ 0x3f ∷ 0xf8 ∷ 0x3f ∷ 0xf0
    ∷ 0x1f ∷ 0xe0 ∷ 0x1f ∷ 0x00 ∷ 0x00 ∷ []

abbrev pub closedhand_bits : List ℕ
closedhand_bits =
    0x00 ∷ 0x00 ∷ 0x00 ∷ 0x00 ∷ 0x00 ∷ 0x00 ∷ 0xb0 ∷ 0x0d ∷ 0x48 ∷ 0x32 ∷ 0x08 ∷ 0x50 ∷ 0x10 ∷ 0x40
    ∷ 0x18 ∷ 0x40 ∷ 0x04 ∷ 0x40 ∷ 0x04 ∷ 0x20 ∷ 0x08 ∷ 0x20 ∷ 0x10 ∷ 0x10 ∷ 0x20 ∷ 0x10 ∷ 0x20
    ∷ 0x10 ∷ 0x00 ∷ 0x00 ∷ 0x00 ∷ 0x00 ∷ []

abbrev pub closedhandm_bits : List ℕ
closedhandm_bits =
    0x00 ∷ 0x00 ∷ 0x00 ∷ 0x00 ∷ 0x00 ∷ 0x00 ∷ 0xb0 ∷ 0x0d ∷ 0xf8 ∷ 0x3f ∷ 0xf8 ∷ 0x7f ∷ 0xf0 ∷ 0x7f
    ∷ 0xf8 ∷ 0x7f ∷ 0xfc ∷ 0x7f ∷ 0xfc ∷ 0x3f ∷ 0xf8 ∷ 0x3f ∷ 0xf0 ∷ 0x1f ∷ 0xe0 ∷ 0x1f ∷ 0xe0
    ∷ 0x1f ∷ 0x00 ∷ 0x00 ∷ 0x00 ∷ 0x00 ∷ []

abbrev pub forbidden_bits : List ℕ
forbidden_bits =
    0x00 ∷ 0x00 ∷ 0x00 ∷ 0x80 ∷ 0x1f ∷ 0x00 ∷ 0xe0 ∷ 0x7f ∷ 0x00 ∷ 0xf0 ∷ 0xf0 ∷ 0x00 ∷ 0x38 ∷ 0xc0
    ∷ 0x01 ∷ 0x7c ∷ 0x80 ∷ 0x03 ∷ 0xec ∷ 0x00 ∷ 0x03 ∷ 0xce ∷ 0x01 ∷ 0x07 ∷ 0x86 ∷ 0x03 ∷ 0x06
    ∷ 0x06 ∷ 0x07 ∷ 0x06 ∷ 0x06 ∷ 0x0e ∷ 0x06 ∷ 0x06 ∷ 0x1c ∷ 0x06 ∷ 0x0e ∷ 0x38 ∷ 0x07 ∷ 0x0c
    ∷ 0x70 ∷ 0x03 ∷ 0x1c ∷ 0xe0 ∷ 0x03 ∷ 0x38 ∷ 0xc0 ∷ 0x01 ∷ 0xf0 ∷ 0xe0 ∷ 0x00 ∷ 0xe0 ∷ 0x7f
    ∷ 0x00 ∷ 0x80 ∷ 0x1f ∷ 0x00 ∷ 0x00 ∷ 0x00 ∷ 0x00 ∷ []

abbrev pub forbiddenm_bits : List ℕ
forbiddenm_bits =
    0x80 ∷ 0x1f ∷ 0x00 ∷ 0xe0 ∷ 0x7f ∷ 0x00 ∷ 0xf0 ∷ 0xff ∷ 0x00 ∷ 0xf8 ∷ 0xff ∷ 0x01 ∷ 0xfc ∷ 0xf0
    ∷ 0x03 ∷ 0xfe ∷ 0xc0 ∷ 0x07 ∷ 0xfe ∷ 0x81 ∷ 0x07 ∷ 0xff ∷ 0x83 ∷ 0x0f ∷ 0xcf ∷ 0x07 ∷ 0x0f
    ∷ 0x8f ∷ 0x0f ∷ 0x0f ∷ 0x0f ∷ 0x1f ∷ 0x0f ∷ 0x0f ∷ 0x3e ∷ 0x0f ∷ 0x1f ∷ 0xfc ∷ 0x0f ∷ 0x1e
    ∷ 0xf8 ∷ 0x07 ∷ 0x3e ∷ 0xf0 ∷ 0x07 ∷ 0xfc ∷ 0xe0 ∷ 0x03 ∷ 0xf8 ∷ 0xff ∷ 0x01 ∷ 0xf0 ∷ 0xff
    ∷ 0x00 ∷ 0xe0 ∷ 0x7f ∷ 0x00 ∷ 0x80 ∷ 0x1f ∷ 0x00 ∷ []
