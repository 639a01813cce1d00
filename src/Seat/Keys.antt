-- ===== src/Seat/Keys.antt =====
-- keysym_to_qt_key of proxy/seat.c, with its table. The numbers behind the names XKB_KEY_... are
-- xkbcommon's, an argument.
pub mod Search
use qwswayland.Prelude.{
  ℕ, zero, ◌+◌, ◌-◌, Bool, true, false, ◌&&◌, Option, none, some, List, [], ◌∷◌, ◌==◌, leb,
  if◌then◌else◌,
}

-- The keysyms that the function names.
pub data Keysym : Type 0 where
  escape tab iso_left_tab back_space return kp_enter insert delete pause print sys_req : Keysym
  clear home end left up right down prior next shift_l shift_r shift_lock control_l : Keysym
  control_r meta_l meta_r alt_l alt_r caps_lock num_lock scroll_lock super_l super_r menu : Keysym
  hyper_l hyper_r help iso_level3_shift multi_key mode_switch kp_space kp_tab kp_home : Keysym
  kp_left kp_up kp_right kp_down kp_prior kp_next kp_end kp_begin kp_insert kp_delete : Keysym
  kp_equal kp_multiply kp_add kp_separator kp_subtract kp_decimal kp_divide dead_grave : Keysym
  dead_acute dead_circumflex dead_tilde dead_macron dead_breve dead_abovedot dead_diaeresis : Keysym
  dead_abovering dead_doubleacute dead_caron dead_cedilla dead_ogonek dead_iota : Keysym
  dead_voiced_sound dead_semivoiced_sound dead_belowdot dead_hook dead_horn xf86_back : Keysym
  xf86_forward xf86_stop xf86_refresh xf86_favorites xf86_audio_media xf86_home_page : Keysym
  xf86_search xf86_audio_lower_volume xf86_audio_mute xf86_audio_raise_volume : Keysym
  xf86_audio_play xf86_audio_stop xf86_audio_prev xf86_audio_next xf86_audio_record : Keysym
  xf86_mail f1 f35 kp_0 kp_9 : Keysym

-- The pairs of the table, and the array as it lies in memory, with the two zeros at its end.
unfoldable pub key_pairs : List (Keysym × ℕ)
key_pairs =
    (Keysym.escape, 0x01000000)
    ∷ (Keysym.tab, 0x01000001)
    ∷ (Keysym.iso_left_tab, 0x01000002)
    ∷ (Keysym.back_space, 0x01000003)
    ∷ (Keysym.return, 0x01000004)
    ∷ (Keysym.kp_enter, 0x01000005)
    ∷ (Keysym.insert, 0x01000006)
    ∷ (Keysym.delete, 0x01000007)
    ∷ (Keysym.pause, 0x01000008)
    ∷ (Keysym.print, 0x01000009)
    ∷ (Keysym.sys_req, 0x0100000a)
    ∷ (Keysym.clear, 0x0100000b)
    ∷ (Keysym.home, 0x01000010)
    ∷ (Keysym.end, 0x01000011)
    ∷ (Keysym.left, 0x01000012)
    ∷ (Keysym.up, 0x01000013)
    ∷ (Keysym.right, 0x01000014)
    ∷ (Keysym.down, 0x01000015)
    ∷ (Keysym.prior, 0x01000016)
    ∷ (Keysym.next, 0x01000017)
    ∷ (Keysym.shift_l, 0x01000020)
    ∷ (Keysym.shift_r, 0x01000020)
    ∷ (Keysym.shift_lock, 0x01000020)
    ∷ (Keysym.control_l, 0x01000021)
    ∷ (Keysym.control_r, 0x01000021)
    ∷ (Keysym.meta_l, 0x01000022)
    ∷ (Keysym.meta_r, 0x01000022)
    ∷ (Keysym.alt_l, 0x01000023)
    ∷ (Keysym.alt_r, 0x01000023)
    ∷ (Keysym.caps_lock, 0x01000024)
    ∷ (Keysym.num_lock, 0x01000025)
    ∷ (Keysym.scroll_lock, 0x01000026)
    ∷ (Keysym.super_l, 0x01000053)
    ∷ (Keysym.super_r, 0x01000054)
    ∷ (Keysym.menu, 0x01000055)
    ∷ (Keysym.hyper_l, 0x01000056)
    ∷ (Keysym.hyper_r, 0x01000057)
    ∷ (Keysym.help, 0x01000058)
    ∷ (Keysym.iso_level3_shift, 0x01001103)
    ∷ (Keysym.multi_key, 0x01001120)
    ∷ (Keysym.mode_switch, 0x0100117e)
    ∷ (Keysym.kp_space, 0x00000020)
    ∷ (Keysym.kp_tab, 0x01000001)
    ∷ (Keysym.kp_home, 0x01000010)
    ∷ (Keysym.kp_left, 0x01000012)
    ∷ (Keysym.kp_up, 0x01000013)
    ∷ (Keysym.kp_right, 0x01000014)
    ∷ (Keysym.kp_down, 0x01000015)
    ∷ (Keysym.kp_prior, 0x01000016)
    ∷ (Keysym.kp_next, 0x01000017)
    ∷ (Keysym.kp_end, 0x01000011)
    ∷ (Keysym.kp_begin, 0x0100000b)
    ∷ (Keysym.kp_insert, 0x01000006)
    ∷ (Keysym.kp_delete, 0x01000007)
    ∷ (Keysym.kp_equal, 0x0000003d)
    ∷ (Keysym.kp_multiply, 0x0000002a)
    ∷ (Keysym.kp_add, 0x0000002b)
    ∷ (Keysym.kp_separator, 0x0000002c)
    ∷ (Keysym.kp_subtract, 0x0000002d)
    ∷ (Keysym.kp_decimal, 0x0000002e)
    ∷ (Keysym.kp_divide, 0x0000002f)
    ∷ (Keysym.dead_grave, 0x01001250)
    ∷ (Keysym.dead_acute, 0x01001251)
    ∷ (Keysym.dead_circumflex, 0x01001252)
    ∷ (Keysym.dead_tilde, 0x01001253)
    ∷ (Keysym.dead_macron, 0x01001254)
    ∷ (Keysym.dead_breve, 0x01001255)
    ∷ (Keysym.dead_abovedot, 0x01001256)
    ∷ (Keysym.dead_diaeresis, 0x01001257)
    ∷ (Keysym.dead_abovering, 0x01001258)
    ∷ (Keysym.dead_doubleacute, 0x01001259)
    ∷ (Keysym.dead_caron, 0x0100125a)
    ∷ (Keysym.dead_cedilla, 0x0100125b)
    ∷ (Keysym.dead_ogonek, 0x0100125c)
    ∷ (Keysym.dead_iota, 0x0100125d)
    ∷ (Keysym.dead_voiced_sound, 0x0100125e)
    ∷ (Keysym.dead_semivoiced_sound, 0x0100125f)
    ∷ (Keysym.dead_belowdot, 0x01001260)
    ∷ (Keysym.dead_hook, 0x01001261)
    ∷ (Keysym.dead_horn, 0x01001262)
    ∷ (Keysym.xf86_back, 0x01000061)
    ∷ (Keysym.xf86_forward, 0x01000062)
    ∷ (Keysym.xf86_stop, 0x01000063)
    ∷ (Keysym.xf86_refresh, 0x01000064)
    ∷ (Keysym.xf86_favorites, 0x01000091)
    ∷ (Keysym.xf86_audio_media, 0x010000a1)
    ∷ (Keysym.xf86_home_page, 0x01000090)
    ∷ (Keysym.xf86_search, 0x01000092)
    ∷ (Keysym.xf86_audio_lower_volume, 0x01000070)
    ∷ (Keysym.xf86_audio_mute, 0x01000071)
    ∷ (Keysym.xf86_audio_raise_volume, 0x01000072)
    ∷ (Keysym.xf86_audio_play, 0x01000080)
    ∷ (Keysym.xf86_audio_stop, 0x01000081)
    ∷ (Keysym.xf86_audio_prev, 0x01000082)
    ∷ (Keysym.xf86_audio_next, 0x01000083)
    ∷ (Keysym.xf86_audio_record, 0x01000084)
    ∷ (Keysym.xf86_mail, 0x010000a0)
    ∷ []

abbrev pub as_array : (Keysym → ℕ) → List (Keysym × ℕ) → List ℕ
as_array xkb [] = 0 ∷ 0 ∷ []
as_array xkb ((k, v) ∷ rest) = xkb k ∷ v ∷ as_array xkb rest

-- The loop from an index on, `keytbl` being what lies behind it: `none` is a read behind the array,
-- `some none` the end of the loop at a zero.
unfoldable pub search_table : ℕ → List ℕ → Option (Option ℕ)
search_table sym [] = none
search_table sym (k ∷ []) = if k == 0 then some none else none
search_table sym (k ∷ v ∷ rest) =
    let further = search_table sym rest in
    if k == 0 then some none else if k == sym then some (some v) else further

abbrev pub otherwise : ℕ → Option (Option ℕ) → Option ℕ
otherwise qt_key none = none
otherwise qt_key (some none) = some qt_key
otherwise qt_key (some (some v)) = some v

-- `upper_code_point` is xkb_keysym_to_utf32 of xkb_keysym_to_upper.
unfoldable pub keysym_to_qt_key : (Keysym → ℕ) → (ℕ → ℕ) → ℕ → Option ℕ
unfolding search_table key_pairs
keysym_to_qt_key xkb upper_code_point sym =
    if leb (xkb Keysym.f1) sym && leb sym (xkb Keysym.f35)
    then some (0x01000030 + (sym - xkb Keysym.f1))
    else if leb (xkb Keysym.kp_0) sym && leb sym (xkb Keysym.kp_9)
    then some (0x30 + (sym - xkb Keysym.kp_0))
    else otherwise (if upper_code_point sym == 0 then 0x01ffffff else upper_code_point sym)
        (search_table sym (as_array xkb key_pairs))
