-- ===== src/Examples/Clipboard.antt =====
-- The clipboard of proxy/clipboard.c with ASCII texts.
use qwswayland.Prelude.{ℕ, ◌≡◌, refl, Bool, true, false, Option, none, some, List, [], ◌∷◌, arith}
use qwswayland.Prelude.Int.{pos}
use qwswayland.Examples.Properties.{table, one_property}
use qwswayland.Examples.Dispatch.{windows, interests, client_with}
use qwswayland.Dispatch.{Effect}
use qwswayland.Clipboard.{
  Converters, Transfer, Board, qwswl_clipboard_set, qwswl_clipboard_get, qws_convert_to_utf16,
  qws_convert_from_utf16,
}
use qwswayland.Clipboard.Reads.{Reads}
use qwswayland.Clipboard.Receives.{Received, without_property, stale_after_remove}
use qwswayland.Clipboard.Limits.{set_then_send}
use qwswayland.Seat.Devices.{Keymaps, Devices, registry_global_remove}
use qwswayland.Seat.Devices.Lost.{SeatReport, announced, capabilities, seat_reports, clipboard_lost}
use qwswayland.Clipboard.Sends.{WriteResult, wrote, interrupted, source_send, source_send_lem}

-- Code units of one byte, and the other way.
abbrev low_bytes : List ℕ → List ℕ
low_bytes [] = []
low_bytes (a ∷ []) = []
low_bytes (a ∷ b ∷ rest) = a ∷ low_bytes rest

abbrev code_units : List ℕ → List ℕ
code_units [] = []
code_units (a ∷ rest) = a ∷ 0 ∷ code_units rest

abbrev ascii : Converters
ascii = record {
  utf16_to_utf8 = λ bs. some (low_bytes bs);
  utf8_to_utf16 = λ bs. some (code_units bs);
  calloc_ok = true;
}

abbrev plenty : ℕ → Bool
plenty n = true

abbrev board : Option (List ℕ) → Board table windows interests
board map = record {
  prop_store = one_property;
  clients = client_with (pos 1) ∷ [];
  clipboard = record {
    manager = true;
    device = true;
    source = none;
    utf8 = none;
    memfd = false;
    memfd_map = map;
  };
}

abbrev no_clipboard : Board table windows interests
no_clipboard = record (board none) {
  clipboard = record (board none).clipboard { manager = false; device = false };
}

abbrev hi : List ℕ
hi = 104 ∷ 0 ∷ 105 ∷ 0 ∷ []

abbrev transfer : Transfer
transfer = record { pipe_ok = true; memfd_ok = true; mmap_ok = true; received = 104 ∷ 105 ∷ [] }

received : Received table windows interests ascii plenty (λ n. refl) (board none) transfer hi
received = record {
  no_source = refl;
  pipe_made = refl;
  file_made = refl;
  mapped = refl;
  some_bytes = refl;
  text_is = refl;
  short = refl;
  allocated = refl;
}

stale_after_remove_example :
    (s' : Board table windows interests) × (es : List Effect) × (qwswl_clipboard_set table windows
        interests ascii true plenty
        (board (some (111 ∷ [])))
        3
        hi
        (pos 4)
      ≡ some (s', es))
    × Reads
        (qwswl_clipboard_get table windows interests ascii true plenty
          (without_property table windows interests ascii plenty (λ n. refl) s')).1
        (111 ∷ 0 ∷ 0 ∷ 0 ∷ [])
unfolding qws_convert_to_utf16
stale_after_remove_example =
    stale_after_remove table windows interests ascii plenty (λ n. refl) (board (some (111 ∷ []))) 3
      hi (111 ∷ []) (111 ∷ 0 ∷ 0 ∷ 0 ∷ []) refl refl refl

abbrev writes : List WriteResult
writes = wrote 1 ∷ interrupted ∷ wrote 9 ∷ []

set_then_send_example :
    (s' : Board table windows interests) × (es : List Effect) × (qwswl_clipboard_set table windows
        interests ascii true plenty
        (board none)
        3
        hi
        (pos 4)
      ≡ some (s', es))
    × (s'.clipboard.source ≡ some 3)
    × (source_send s'.clipboard.utf8 writes ≡ some (104 ∷ 105 ∷ 0 ∷ []))
set_then_send_example =
    set_then_send table windows interests ascii true plenty (board none) 3 hi (104 ∷ 105 ∷ [])
      (pos 4) writes refl refl refl refl tt (omega arith)

source_send_lem_example : source_send (some (104 ∷ 105 ∷ [])) writes ≡ some (104 ∷ 105 ∷ [])
source_send_lem_example = source_send_lem (104 ∷ 105 ∷ []) writes tt (omega arith)

abbrev keymaps : Keymaps
keymaps = record {
  Keymap = ℕ;
  State = ℕ;
  from_names = some 0;
  from_string = λ text. some 1;
  new_state = λ k. some k;
}

abbrev seated : Devices keymaps
seated = record {
  wl_seat = true;
  wl_seat_name = 4;
  wl_pointer = true;
  wl_keyboard = true;
  xkb_keymap = some 0;
  xkb_state = some 0;
  clipboard = (board none).clipboard;
}

abbrev later : List SeatReport
later = announced 9 ∷ capabilities true true ∷ []

clipboard_lost_example :
    qwswl_clipboard_set table windows interests ascii true plenty
      (record no_clipboard {
        clipboard =
            (seat_reports keymaps (registry_global_remove keymaps seated 4) later).clipboard;
      })
      3
      hi
      (pos 4)
    ≡ none
unfolding qws_convert_from_utf16
clipboard_lost_example =
    clipboard_lost keymaps table windows interests ascii true plenty seated 4 later
      (record no_clipboard {
        clipboard =
            (seat_reports keymaps (registry_global_remove keymaps seated 4) later).clipboard;
      })
      3 hi (104 ∷ 105 ∷ 0 ∷ []) (pos 4) refl refl refl refl
