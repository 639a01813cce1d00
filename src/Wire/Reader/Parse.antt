-- ===== src/Wire/Reader/Parse.antt =====
-- What a byte stream says, independently of how it arrives in chunks: the wire format of
-- libqwsproto/qws_proto.h, [type:4][rawLen:4][simpleData][rawData:rawLen].
use qwswayland.Prelude.{
  ℕ, ◌+◌, ◌<◌, ◌≡◌, Bool, Option, none, some, List, [], ◌∷◌, ◌++◌, ltb, if◌then◌else◌, take, drop,
  length,
}
use qwswayland.Prelude.Int.{pos, ltb_ℤ}
use qwswayland.Wire.Packet.{Packet, to_size}
use qwswayland.Wire.Reader.{
  read_header, read_simple, read_raw, Reader, Fed, fresh, hdr_type, hdr_raw_len, derived_len,
  zeroed_header,
}

abbrev pub simple_size : Bool → List ℕ → ℕ
simple_size commands h = to_size (derived_len commands h)

abbrev pub raw_size : List ℕ → ℕ
raw_size h = if ltb_ℤ (pos 0) (hdr_raw_len h) then to_size (hdr_raw_len h) else 0

-- NULL stands for no bytes.
abbrev pub buffer : List ℕ → Option (List ℕ)
buffer [] = none
buffer (b ∷ bs) = some (b ∷ bs)

abbrev pub packet_of : Bool → List ℕ → List ℕ → List ℕ → Packet
packet_of commands h s w = record {
  header = record {
    type = hdr_type h;
    raw_len = hdr_raw_len h;
    simple_len = derived_len commands h;
  };
  simple_data = buffer s;
  raw_data = buffer w;
}

unfoldable pub parse_raw : Bool → List ℕ → List ℕ → List ℕ → Option (Packet × List ℕ)
parse_raw commands h s bs =
    if ltb (length bs) (raw_size h)
    then none
    else some (packet_of commands h s (take (raw_size h) bs), drop (raw_size h) bs)

unfoldable pub parse_simple : Bool → List ℕ → List ℕ → Option (Packet × List ℕ)
parse_simple commands h bs =
    if ltb (length bs) (simple_size commands h)
    then none
    else parse_raw commands h (take (simple_size commands h) bs) (drop (simple_size commands h) bs)

-- The first packet of a stream and the rest, `none` while it is incomplete.
unfoldable pub parse : Bool → List ℕ → Option (Packet × List ℕ)
parse commands bs =
    if ltb (length bs) 8 then none else parse_simple commands (take 8 bs) (drop 8 bs)

-- A reader in the middle of a packet: the bytes that it has, by part, and the bytes of the current
-- buffer that are still to be written.
pub data Partial : Type 0 where
  in_header : List ℕ → List ℕ → Partial
  in_simple : List ℕ → List ℕ → List ℕ → Partial
  in_raw : List ℕ → List ℕ → List ℕ → List ℕ → Partial

abbrev pub received : Partial → List ℕ
received (in_header p junk) = p
received (in_simple h s junk) = h ++ s
received (in_raw h s w junk) = h ++ (s ++ w)

abbrev pub IsValid : Bool → Partial → Type 0
IsValid commands (in_header p junk) = (length p + length junk ≡ 8) × (0 < length junk)
IsValid commands (in_simple h s junk) =
    (length h ≡ 8) × (length s + length junk ≡ simple_size commands h) × (0 < length junk)
IsValid commands (in_raw h s w junk) =
    (length h ≡ 8)
    × (length s ≡ simple_size commands h)
    × (length w + length junk ≡ raw_size h)
    × (0 < length junk)

abbrev pub reader_of : Bool → Partial → Reader
reader_of commands (in_header p junk) = record {
  state = read_header;
  hdr = p ++ junk;
  simple_len = pos 0;
  simple_buf = none;
  raw_buf = none;
  bytes_read = length p;
  reading_commands = commands;
}
reader_of commands (in_simple h s junk) = record {
  state = read_simple;
  hdr = h;
  simple_len = derived_len commands h;
  simple_buf = some (s ++ junk);
  raw_buf = none;
  bytes_read = length s;
  reading_commands = commands;
}
reader_of commands (in_raw h s w junk) = record {
  state = read_raw;
  hdr = h;
  simple_len = derived_len commands h;
  simple_buf = buffer s;
  raw_buf = some (w ++ junk);
  bytes_read = length w;
  reading_commands = commands;
}

-- The state in which every packet begins.
abbrev pub start : Partial
start = in_header [] zeroed_header

-- What feeding must do, given what the whole stream says: without a complete packet all bytes are
-- kept, with one it is handed out, the bytes behind it are left, and the reader is fresh.
abbrev pub Agrees : Bool → List ℕ → Option (Packet × List ℕ) → Fed → Type 0
Agrees commands stream none fed =
    (q : Partial) × (received q ≡ stream)
    × IsValid commands q
    × (fed ≡ record { reader = reader_of commands q; rest = []; out = none })
Agrees commands stream (some (pkt, rest)) fed =
    fed ≡ record { reader = fresh commands; rest = rest; out = some pkt }
