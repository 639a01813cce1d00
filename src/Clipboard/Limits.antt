-- ===== src/Clipboard/Limits.antt =====
-- What other programs get when a client has set the clipboard, and where setting it fails, in
-- proxy/clipboard.c.
use qwswayland.Prelude.{
  ℕ, ◌+◌, ◌*◌, ◌/◌, ◌≤◌, ◌≡◌, refl, Bool, true, false, ◌&&◌, none, some, List, [], ◌∷◌, ◌++◌, leb,
  length, take,
}
use qwswayland.Prelude.Int.{ℤ}
use qwswayland.Wire.Packet.{to_size}
use qwswayland.HashMap.{HashMap}
use qwswayland.Props.{PropVal}
use qwswayland.Client.Windows.{Present}
use qwswayland.Dispatch.{Effect}
use qwswayland.Clipboard.{
  Converters, Board, qws_convert_from_utf16, run_iconv, broadcast, with_property,
  qwswl_clipboard_set,
}
use qwswayland.Clipboard.Sends.{WriteResult, progress, NoFailure, source_send, source_send_lem}

module _ (store : HashMap PropVal) (windows : HashMap ℕ) (interests : HashMap Present)
    (conversions : Converters) (table_ok : Bool) (malloc_ok : ℕ → Bool) where
  -- If there is a data device and the bytes that are set convert to a text for which the buffer
  -- suffices, the new source is the current one, and what it writes, by writes that do not fail and
  -- suffice, is the text with the zero byte of a terminator behind it.
  pub set_then_send :
      (s : Board store windows interests) (src : ℕ) (bytes text : List ℕ) (len : ℤ)
      (results : List WriteResult)
      → s.clipboard.manager && s.clipboard.device ≡ true
      → conversions.calloc_ok ≡ true
      → conversions.utf16_to_utf8 (take (to_size len / 2 * 2) bytes) ≡ some text
      → leb (length text) (length (take (to_size len / 2 * 2) bytes) * 2 + 1) ≡ true
      → NoFailure results
      → length (text ++ 0 ∷ []) ≤ progress results
      → (s' : Board store windows interests) × (es : List Effect) × (qwswl_clipboard_set store
            windows interests conversions table_ok malloc_ok s src bytes len
          ≡ some (s', es))
        × (s'.clipboard.source ≡ some src)
        × (source_send s'.clipboard.utf8 results ≡ some (text ++ 0 ∷ []))
  unfolding qwswl_clipboard_set qws_convert_from_utf16 run_iconv
  set_then_send s src bytes text len results there allocated conv short ok enough =
      let s1 = with_property store windows interests conversions table_ok malloc_ok s bytes len in
      (
        record s1 {
          clipboard = record s.clipboard { utf8 = some (text ++ 0 ∷ []); source = some src };
        },
        broadcast store windows interests s,
        rw (allocated, conv, short, there) refl,
        refl,
        source_send_lem (text ++ 0 ∷ []) results ok enough,
      )

  -- Without a data device or its manager, setting the clipboard to bytes that convert reads through
  -- a NULL pointer.
  pub set_without_device :
      (s : Board store windows interests) (src : ℕ) (bytes utf8 : List ℕ) (len : ℤ)
      → s.clipboard.manager && s.clipboard.device ≡ false
      → qws_convert_from_utf16 conversions bytes (to_size len / 2) ≡ some utf8
      → qwswl_clipboard_set store windows interests conversions table_ok malloc_ok s src bytes len
        ≡ none
  unfolding qwswl_clipboard_set
  set_without_device s src bytes utf8 len missing conv = rw (conv, missing) refl
