-- ===== src/Wire/Packet.antt =====
-- Packets and their serialisation: qws_packet_alloc, qws_packet_wire_size and qws_packet_serialize of
-- libqwsproto/qws_proto.c. `size_t` is 64 bits wide.
use qwswayland.Prelude.{
  ℕ, ◌+◌, ◌-◌, ◌%◌, ◌^◌, Bool, Option, none, some, List, [], ◌++◌, ltb, if◌then◌else◌, take,
  replicate,
}
use qwswayland.Prelude.Int.{ℤ, pos, negsuc, ltb_ℤ, to_word}
use qwswayland.Wire.Bytes.{le_bytes}

-- qws_packet_header_t
pub record Header : Type 0 where
  pub type : ℤ
  pub raw_len : ℤ
  pub simple_len : ℤ

-- qws_packet_t; `none` is NULL.
pub record Packet : Type 0 where
  pub header : Header
  pub simple_data : Option (List ℕ)
  pub raw_data : Option (List ℕ)

abbrev pub wire_header_size : ℕ
wire_header_size = 8

-- The conversion of an `int32_t` to `size_t`.
abbrev pub to_size : ℤ → ℕ
to_size (pos n) = n
to_size (negsuc n) = 2 ^ 64 - 1 - n

-- The conversion of a `size_t` to `int32_t`.
unfoldable pub of_size : ℕ → ℤ
of_size n = let w = n % 2 ^ 32 in if ltb w (2 ^ 31) then pos w else negsuc (2 ^ 32 - 1 - w)

-- sizeof(qws_packet_t) with 64-bit pointers
abbrev pub sizeof_packet : ℕ
sizeof_packet = 32

-- `calloc_ok n` tells whether `calloc` has n bytes left to give.
module _ (calloc_ok : ℕ → Bool) where
  -- A buffer that is allocated only for a positive length: `none` outside is a failed `calloc`.
  unfoldable pub alloc_buffer : ℕ → Option (Option (List ℕ))
  alloc_buffer n =
      if ltb 0 n then (if calloc_ok n then some (some (replicate n 0)) else none) else some none

  unfoldable pub alloc_raw : Header → Option (List ℕ) → Option (Option (List ℕ)) → Option Packet
  alloc_raw h simple none = none
  alloc_raw h simple (some raw) = some (record { header = h; simple_data = simple; raw_data = raw })

  unfoldable pub alloc_simple : Header → ℕ → Option (Option (List ℕ)) → Option Packet
  unfolding alloc_raw alloc_buffer
  alloc_simple h raw_len none = none
  alloc_simple h raw_len (some simple) = alloc_raw h simple (alloc_buffer raw_len)

  unfoldable pub qws_packet_alloc : ℤ → ℕ → ℕ → Option Packet
  unfolding alloc_simple alloc_buffer of_size
  qws_packet_alloc type simple_len raw_len =
      if calloc_ok sizeof_packet
      then alloc_simple
          (record { type = type; raw_len = of_size raw_len; simple_len = of_size simple_len })
          raw_len (alloc_buffer simple_len)
      else none

unfoldable pub qws_packet_wire_size : Packet → ℕ
qws_packet_wire_size pkt =
    (wire_header_size + to_size pkt.header.simple_len + to_size pkt.header.raw_len) % 2 ^ 64

-- `memcpy` of `len` bytes, only if `len > 0` and the pointer is set.
unfoldable pub copy_if_set : ℤ → Option (List ℕ) → List ℕ
copy_if_set len none = []
copy_if_set len (some bytes) = if ltb_ℤ (pos 0) len then take (to_size len) bytes else []

-- The bytes that end up in the buffer; their number is the result of the C function, so no bytes
-- are its error.
unfoldable pub qws_packet_serialize : Packet → ℕ → List ℕ
unfolding copy_if_set
qws_packet_serialize pkt buflen =
    if ltb buflen (qws_packet_wire_size pkt)
    then []
    else le_bytes 4 (to_word pkt.header.type)
      ++ (le_bytes 4 (to_word pkt.header.raw_len)
          ++ (copy_if_set pkt.header.simple_len pkt.simple_data
              ++ copy_if_set pkt.header.raw_len pkt.raw_data))
