-- ===== src/Cursor/Bitmaps/Larger.antt =====
-- The bitmaps of libqwsproto/qws_cursor.c, 32 pixels wide, the rest: one bit for a pixel, the lowest first.
use qwswayland.Prelude.{ℕ, List, [], ◌∷◌}

abbrev pub size_all_data_bits : List ℕ
size_all_data_bits =
    0x00 ∷ 0x00 ∷ 0x00 ∷ 0x00 ∷ 0x00 ∷ 0x00 ∷ 0x00 ∷ 0x00 ∷ 0x00 ∷ 0x00 ∷ 0x00 ∷ 0x00 ∷ 0x00 ∷ 0x00
    ∷ 0x00 ∷ 0x00 ∷ 0x00 ∷ 0x00 ∷ 0x00 ∷ 0x00 ∷ 0x00 ∷ 0x00 ∷ 0x00 ∷ 0x00 ∷ 0x00 ∷ 0x80 ∷ 0x00
    ∷ 0x00 ∷ 0x00 ∷ 0xc0 ∷ 0x01 ∷ 0x00 ∷ 0x00 ∷ 0xe0 ∷ 0x03 ∷ 0x00 ∷ 0x00 ∷ 0x80 ∷ 0x00 ∷ 0x00
    ∷ 0x00 ∷ 0x80 ∷ 0x00 ∷ 0x00 ∷ 0x00 ∷ 0x80 ∷ 0x00 ∷ 0x00 ∷ 0x00 ∷ 0x80 ∷ 0x00 ∷ 0x00 ∷ 0x00
    ∷ 0x81 ∷ 0x40 ∷ 0x00 ∷ 0x80 ∷ 0x81 ∷ 0xc0 ∷ 0x00 ∷ 0xc0 ∷ 0xff ∷ 0xff ∷ 0x01 ∷ 0x80 ∷ 0x81
    ∷ 0xc0 ∷ 0x00 ∷ 0x00 ∷ 0x81 ∷ 0x40 ∷ 0x00 ∷ 0x00 ∷ 0x80 ∷ 0x00 ∷ 0x00 ∷ 0x00 ∷ 0x80 ∷ 0x00
    ∷ 0x00 ∷ 0x00 ∷ 0x80 ∷ 0x00 ∷ 0x00 ∷ 0x00 ∷ 0x80 ∷ 0x00 ∷ 0x00 ∷ 0x00 ∷ 0xe0 ∷ 0x03 ∷ 0x00
    ∷ 0x00 ∷ 0xc0 ∷ 0x01 ∷ 0x00 ∷ 0x00 ∷ 0x80 ∷ 0x00 ∷ 0x00 ∷ 0x00 ∷ 0x00 ∷ 0x00 ∷ 0x00 ∷ 0x00
    ∷ 0x00 ∷ 0x00 ∷ 0x00 ∷ 0x00 ∷ 0x00 ∷ 0x00 ∷ 0x00 ∷ 0x00 ∷ 0x00 ∷ 0x00 ∷ 0x00 ∷ 0x00 ∷ 0x00
    ∷ 0x00 ∷ 0x00 ∷ 0x00 ∷ 0x00 ∷ 0x00 ∷ 0x00 ∷ 0x00 ∷ 0x00 ∷ 0x00 ∷ 0x00 ∷ []

abbrev pub size_all_mask_bits : List ℕ
size_all_mask_bits =
    0x00 ∷ 0x00 ∷ 0x00 ∷ 0x00 ∷ 0x00 ∷ 0x00 ∷ 0x00 ∷ 0x00 ∷ 0x00 ∷ 0x00 ∷ 0x00 ∷ 0x00 ∷ 0x00 ∷ 0x00
    ∷ 0x00 ∷ 0x00 ∷ 0x00 ∷ 0x00 ∷ 0x00 ∷ 0x00 ∷ 0x00 ∷ 0x80 ∷ 0x00 ∷ 0x00 ∷ 0x00 ∷ 0xc0 ∷ 0x01
    ∷ 0x00 ∷ 0x00 ∷ 0xe0 ∷ 0x03 ∷ 0x00 ∷ 0x00 ∷ 0xf0 ∷ 0x07 ∷ 0x00 ∷ 0x00 ∷ 0xf8 ∷ 0x0f ∷ 0x00
    ∷ 0x00 ∷ 0xc0 ∷ 0x01 ∷ 0x00 ∷ 0x00 ∷ 0xc2 ∷ 0x21 ∷ 0x00 ∷ 0x00 ∷ 0xc3 ∷ 0x61 ∷ 0x00 ∷ 0x80
    ∷ 0xc3 ∷ 0xe1 ∷ 0x00 ∷ 0xc0 ∷ 0xff ∷ 0xff ∷ 0x01 ∷ 0xe0 ∷ 0xff ∷ 0xff ∷ 0x03 ∷ 0xc0 ∷ 0xff
    ∷ 0xff ∷ 0x01 ∷ 0x80 ∷ 0xc3 ∷ 0xe1 ∷ 0x00 ∷ 0x00 ∷ 0xc3 ∷ 0x61 ∷ 0x00 ∷ 0x00 ∷ 0xc2 ∷ 0x21
    ∷ 0x00 ∷ 0x00 ∷ 0xc0 ∷ 0x01 ∷ 0x00 ∷ 0x00 ∷ 0xf8 ∷ 0x0f ∷ 0x00 ∷ 0x00 ∷ 0xf0 ∷ 0x07 ∷ 0x00
    ∷ 0x00 ∷ 0xe0 ∷ 0x03 ∷ 0x00 ∷ 0x00 ∷ 0xc0 ∷ 0x01 ∷ 0x00 ∷ 0x00 ∷ 0x80 ∷ 0x00 ∷ 0x00 ∷ 0x00
    ∷ 0x00 ∷ 0x00 ∷ 0x00 ∷ 0x00 ∷ 0x00 ∷ 0x00 ∷ 0x00 ∷ 0x00 ∷ 0x00 ∷ 0x00 ∷ 0x00 ∷ 0x00 ∷ 0x00
    ∷ 0x00 ∷ 0x00 ∷ 0x00 ∷ 0x00 ∷ 0x00 ∷ 0x00 ∷ 0x00 ∷ 0x00 ∷ 0x00 ∷ 0x00 ∷ []

abbrev pub whatsthis_bits : List ℕ
whatsthis_bits =
    0x01 ∷ 0x00 ∷ 0x00 ∷ 0x00 ∷ 0x03 ∷ 0x00 ∷ 0x00 ∷ 0x00 ∷ 0x05 ∷ 0xf0 ∷ 0x07 ∷ 0x00 ∷ 0x09 ∷ 0x18
    ∷ 0x0e ∷ 0x00 ∷ 0x11 ∷ 0x1c ∷ 0x0e ∷ 0x00 ∷ 0x21 ∷ 0x1c ∷ 0x0e ∷ 0x00 ∷ 0x41 ∷ 0x1c ∷ 0x0e
    ∷ 0x00 ∷ 0x81 ∷ 0x1c ∷ 0x0e ∷ 0x00 ∷ 0x01 ∷ 0x01 ∷ 0x07 ∷ 0x00 ∷ 0x01 ∷ 0x82 ∷ 0x03 ∷ 0x00
    ∷ 0xc1 ∷ 0xc7 ∷ 0x01 ∷ 0x00 ∷ 0x49 ∷ 0xc0 ∷ 0x01 ∷ 0x00 ∷ 0x95 ∷ 0xc0 ∷ 0x01 ∷ 0x00 ∷ 0x93
    ∷ 0xc0 ∷ 0x01 ∷ 0x00 ∷ 0x21 ∷ 0x01 ∷ 0x00 ∷ 0x00 ∷ 0x20 ∷ 0xc1 ∷ 0x01 ∷ 0x00 ∷ 0x40 ∷ 0xc2
    ∷ 0x01 ∷ 0x00 ∷ 0x40 ∷ 0x02 ∷ 0x00 ∷ 0x00 ∷ 0x80 ∷ 0x01 ∷ 0x00 ∷ 0x00 ∷ 0x00 ∷ 0x00 ∷ 0x00
    ∷ 0x00 ∷ 0x00 ∷ 0x00 ∷ 0x00 ∷ 0x00 ∷ 0x00 ∷ 0x00 ∷ 0x00 ∷ 0x00 ∷ 0x00 ∷ 0x00 ∷ 0x00 ∷ 0x00
    ∷ 0x00 ∷ 0x00 ∷ 0x00 ∷ 0x00 ∷ 0x00 ∷ 0x00 ∷ 0x00 ∷ 0x00 ∷ 0x00 ∷ 0x00 ∷ 0x00 ∷ 0x00 ∷ 0x00
    ∷ 0x00 ∷ 0x00 ∷ 0x00 ∷ 0x00 ∷ 0x00 ∷ 0x00 ∷ 0x00 ∷ 0x00 ∷ 0x00 ∷ 0x00 ∷ 0x00 ∷ 0x00 ∷ 0x00
    ∷ 0x00 ∷ 0x00 ∷ 0x00 ∷ 0x00 ∷ 0x00 ∷ 0x00 ∷ 0x00 ∷ 0x00 ∷ 0x00 ∷ 0x00 ∷ []

abbrev pub whatsthism_bits : List ℕ
whatsthism_bits =
    0x01 ∷ 0x00 ∷ 0x00 ∷ 0x00 ∷ 0x03 ∷ 0xf0 ∷ 0x07 ∷ 0x00 ∷ 0x07 ∷ 0xf8 ∷ 0x0f ∷ 0x00 ∷ 0x0f ∷ 0xfc
    ∷ 0x1f ∷ 0x00 ∷ 0x1f ∷ 0x3e ∷ 0x1f ∷ 0x00 ∷ 0x3f ∷ 0x3e ∷ 0x1f ∷ 0x00 ∷ 0x7f ∷ 0x3e ∷ 0x1f
    ∷ 0x00 ∷ 0xff ∷ 0x3e ∷ 0x1f ∷ 0x00 ∷ 0xff ∷ 0x9d ∷ 0x0f ∷ 0x00 ∷ 0xff ∷ 0xc3 ∷ 0x07 ∷ 0x00
    ∷ 0xff ∷ 0xe7 ∷ 0x03 ∷ 0x00 ∷ 0x7f ∷ 0xe0 ∷ 0x03 ∷ 0x00 ∷ 0xf7 ∷ 0xe0 ∷ 0x03 ∷ 0x00 ∷ 0xf3
    ∷ 0xe0 ∷ 0x03 ∷ 0x00 ∷ 0xe1 ∷ 0xe1 ∷ 0x03 ∷ 0x00 ∷ 0xe0 ∷ 0xe1 ∷ 0x03 ∷ 0x00 ∷ 0xc0 ∷ 0xe3
    ∷ 0x03 ∷ 0x00 ∷ 0xc0 ∷ 0xe3 ∷ 0x03 ∷ 0x00 ∷ 0x80 ∷ 0x01 ∷ 0x00 ∷ 0x00 ∷ 0x00 ∷ 0x00 ∷ 0x00
    ∷ 0x00 ∷ 0x00 ∷ 0x00 ∷ 0x00 ∷ 0x00 ∷ 0x00 ∷ 0x00 ∷ 0x00 ∷ 0x00 ∷ 0x00 ∷ 0x00 ∷ 0x00 ∷ 0x00
    ∷ 0x00 ∷ 0x00 ∷ 0x00 ∷ 0x00 ∷ 0x00 ∷ 0x00 ∷ 0x00 ∷ 0x00 ∷ 0x00 ∷ 0x00 ∷ 0x00 ∷ 0x00 ∷ 0x00
    ∷ 0x00 ∷ 0x00 ∷ 0x00 ∷ 0x00 ∷ 0x00 ∷ 0x00 ∷ 0x00 ∷ 0x00 ∷ 0x00 ∷ 0x00 ∷ 0x00 ∷ 0x00 ∷ 0x00
    ∷ 0x00 ∷ 0x00 ∷ 0x00 ∷ 0x00 ∷ 0x00 ∷ 0x00 ∷ 0x00 ∷ 0x00 ∷ 0x00 ∷ 0x00 ∷ []

abbrev pub busy_bits : List ℕ
busy_bits =
    0x01 ∷ 0x00 ∷ 0x00 ∷ 0x00 ∷ 0x03 ∷ 0x00 ∷ 0x00 ∷ 0x00 ∷ 0x05 ∷ 0x00 ∷ 0x00 ∷ 0x00 ∷ 0x09 ∷ 0x00
    ∷ 0x00 ∷ 0x00 ∷ 0x11 ∷ 0x00 ∷ 0x00 ∷ 0x00 ∷ 0x21 ∷ 0x00 ∷ 0x00 ∷ 0x00 ∷ 0x41 ∷ 0xe0 ∷ 0xff
    ∷ 0x00 ∷ 0x81 ∷ 0x20 ∷ 0x80 ∷ 0x00 ∷ 0x01 ∷ 0xe1 ∷ 0xff ∷ 0x00 ∷ 0x01 ∷ 0x42 ∷ 0x40 ∷ 0x00
    ∷ 0xc1 ∷ 0x47 ∷ 0x40 ∷ 0x00 ∷ 0x49 ∷ 0x40 ∷ 0x55 ∷ 0x00 ∷ 0x95 ∷ 0x80 ∷ 0x2a ∷ 0x00 ∷ 0x93
    ∷ 0x00 ∷ 0x15 ∷ 0x00 ∷ 0x21 ∷ 0x01 ∷ 0x0a ∷ 0x00 ∷ 0x20 ∷ 0x01 ∷ 0x11 ∷ 0x00 ∷ 0x40 ∷ 0x82
    ∷ 0x20 ∷ 0x00 ∷ 0x40 ∷ 0x42 ∷ 0x44 ∷ 0x00 ∷ 0x80 ∷ 0x41 ∷ 0x4a ∷ 0x00 ∷ 0x00 ∷ 0x40 ∷ 0x55
    ∷ 0x00 ∷ 0x00 ∷ 0xe0 ∷ 0xff ∷ 0x00 ∷ 0x00 ∷ 0x20 ∷ 0x80 ∷ 0x00 ∷ 0x00 ∷ 0xe0 ∷ 0xff ∷ 0x00
    ∷ 0x00 ∷ 0x00 ∷ 0x00 ∷ 0x00 ∷ 0x00 ∷ 0x00 ∷ 0x00 ∷ 0x00 ∷ 0x00 ∷ 0x00 ∷ 0x00 ∷ 0x00 ∷ 0x00
    ∷ 0x00 ∷ 0x00 ∷ 0x00 ∷ 0x00 ∷ 0x00 ∷ 0x00 ∷ 0x00 ∷ 0x00 ∷ 0x00 ∷ 0x00 ∷ 0x00 ∷ 0x00 ∷ 0x00
    ∷ 0x00 ∷ 0x00 ∷ 0x00 ∷ 0x00 ∷ 0x00 ∷ 0x00 ∷ 0x00 ∷ 0x00 ∷ 0x00 ∷ 0x00 ∷ []

abbrev pub busym_bits : List ℕ
busym_bits =
    0x01 ∷ 0x00 ∷ 0x00 ∷ 0x00 ∷ 0x03 ∷ 0x00 ∷ 0x00 ∷ 0x00 ∷ 0x07 ∷ 0x00 ∷ 0x00 ∷ 0x00 ∷ 0x0f ∷ 0x00
    ∷ 0x00 ∷ 0x00 ∷ 0x1f ∷ 0x00 ∷ 0x00 ∷ 0x00 ∷ 0x3f ∷ 0x00 ∷ 0x00 ∷ 0x00 ∷ 0x7f ∷ 0xe0 ∷ 0xff
    ∷ 0x00 ∷ 0xff ∷ 0xe0 ∷ 0xff ∷ 0x00 ∷ 0xff ∷ 0xe1 ∷ 0xff ∷ 0x00 ∷ 0xff ∷ 0xc3 ∷ 0x7f ∷ 0x00
    ∷ 0xff ∷ 0xc7 ∷ 0x7f ∷ 0x00 ∷ 0x7f ∷ 0xc0 ∷ 0x7f ∷ 0x00 ∷ 0xf7 ∷ 0x80 ∷ 0x3f ∷ 0x00 ∷ 0xf3
    ∷ 0x00 ∷ 0x1f ∷ 0x00 ∷ 0xe1 ∷ 0x01 ∷ 0x0e ∷ 0x00 ∷ 0xe0 ∷ 0x01 ∷ 0x1f ∷ 0x00 ∷ 0xc0 ∷ 0x83
    ∷ 0x3f ∷ 0x00 ∷ 0xc0 ∷ 0xc3 ∷ 0x7f ∷ 0x00 ∷ 0x80 ∷ 0xc1 ∷ 0x7f ∷ 0x00 ∷ 0x00 ∷ 0xc0 ∷ 0x7f
    ∷ 0x00 ∷ 0x00 ∷ 0xe0 ∷ 0xff ∷ 0x00 ∷ 0x00 ∷ 0xe0 ∷ 0xff ∷ 0x00 ∷ 0x00 ∷ 0xe0 ∷ 0xff ∷ 0x00
    ∷ 0x00 ∷ 0x00 ∷ 0x00 ∷ 0x00 ∷ 0x00 ∷ 0x00 ∷ 0x00 ∷ 0x00 ∷ 0x00 ∷ 0x00 ∷ 0x00 ∷ 0x00 ∷ 0x00
    ∷ 0x00 ∷ 0x00 ∷ 0x00 ∷ 0x00 ∷ 0x00 ∷ 0x00 ∷ 0x00 ∷ 0x00 ∷ 0x00 ∷ 0x00 ∷ 0x00 ∷ 0x00 ∷ 0x00
    ∷ 0x00 ∷ 0x00 ∷ 0x00 ∷ 0x00 ∷ 0x00 ∷ 0x00 ∷ 0x00 ∷ 0x00 ∷ 0x00 ∷ 0x00 ∷ []
