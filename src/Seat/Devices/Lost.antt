-- ===== src/Seat/Devices/Lost.antt =====
-- The clipboard after the seat has been removed, in proxy/lifecycle.c and proxy/clipboard.c.
use qwswayland.Prelude.{
  ℕ, ◌/◌, ◌≡◌, ap, ◌∙◌, Bool, true, false, ◌&&◌, none, some, List, [], ◌∷◌, arith,
}
use qwswayland.Prelude.Int.{ℤ}
use qwswayland.Wire.Packet.{to_size}
use qwswayland.HashMap.{HashMap}
use qwswayland.Props.{PropVal}
use qwswayland.Client.Windows.{Present}
use qwswayland.Clipboard.{
  Converters, Clipboard, Board, qws_convert_from_utf16, qwswl_clipboard_init,
  qwswl_clipboard_destroy, qwswl_clipboard_set,
}
use qwswayland.Clipboard.Limits.{set_without_device}
use qwswayland.Seat.Devices.{
  Keymaps, Devices, seat_capabilities, seat_global, seat_teardown, registry_global_remove,
}

-- What the compositor reports of seats; a global that is bound is not announced again.
pub data SeatReport : Type 0 where
  announced : ℕ → SeatReport
  removed : ℕ → SeatReport
  capabilities : Bool → Bool → SeatReport

module _ (xkb : Keymaps) where
  abbrev pub seat_report : Devices xkb → SeatReport → Devices xkb
  seat_report s (announced name) = seat_global xkb s name
  seat_report s (removed name) = registry_global_remove xkb s name
  seat_report s (capabilities pointer keyboard) = seat_capabilities xkb s pointer keyboard

  abbrev pub seat_reports : Devices xkb → List SeatReport → Devices xkb
  seat_reports s [] = s
  seat_reports s (r ∷ rs) = seat_reports (seat_report s r) rs

  abbrev Unmanaged : Devices xkb → Type 0
  Unmanaged s = s.clipboard.manager ≡ false

  seat_report-Unmanaged :
      (s : Devices xkb) (r : SeatReport) → Unmanaged s → Unmanaged (seat_report s r)
  unfolding seat_global registry_global_remove seat_capabilities seat_teardown qwswl_clipboard_init
      qwswl_clipboard_destroy
  seat_report-Unmanaged s (announced name) u = ground arith
  seat_report-Unmanaged s (removed name) u = ground arith
  seat_report-Unmanaged s (capabilities pointer keyboard) u = u

  seat_reports-Unmanaged :
      (s : Devices xkb) (rs : List SeatReport) → Unmanaged s → Unmanaged (seat_reports s rs)
  seat_reports-Unmanaged s [] u = u
  seat_reports-Unmanaged s (r ∷ rs) u =
      seat_reports-Unmanaged (seat_report s r) rs (seat_report-Unmanaged s r u)

  teardown-Unmanaged :
      (s : Devices xkb) (name : ℕ)
      → s.wl_seat ≡ true
      → s.wl_seat_name ≡ name
      → Unmanaged (registry_global_remove xkb s name)
  unfolding registry_global_remove seat_teardown qwswl_clipboard_destroy
  teardown-Unmanaged s name there named = ground arith

  module _ (store : HashMap PropVal) (windows : HashMap ℕ) (interests : HashMap Present)
      (conversions : Converters) (table_ok : Bool) (malloc_ok : ℕ → Bool) where
    -- After the seat has been removed, whatever seats are announced and removed and whatever
    -- capabilities are reported afterwards, a client that sets the clipboard to bytes that convert
    -- makes the proxy use a data device or a manager that is not there.
    pub clipboard_lost :
        (s : Devices xkb) (name : ℕ) (reports : List SeatReport)
        (board : Board store windows interests) (src : ℕ) (bytes utf8 : List ℕ) (len : ℤ)
        → s.wl_seat ≡ true
        → s.wl_seat_name ≡ name
        → board.clipboard ≡ (seat_reports (registry_global_remove xkb s name) reports).clipboard
        → qws_convert_from_utf16 conversions bytes (to_size len / 2) ≡ some utf8
        → qwswl_clipboard_set store windows interests conversions table_ok malloc_ok board src bytes
            len
          ≡ none
    clipboard_lost s name reports board src bytes utf8 len there named same conv =
        let gone =
          seat_reports-Unmanaged (registry_global_remove xkb s name) reports
            (teardown-Unmanaged s name there named) in
        let missing : board.clipboard.manager && board.clipboard.device ≡ false =
          ap (λ (m : Bool). m && board.clipboard.device)
            (ap (λ (c : Clipboard). c.manager) same ∙ gone) in
        set_without_device store windows interests conversions table_ok malloc_ok board src bytes
          utf8 len missing conv
