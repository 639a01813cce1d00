-- ===== src/Wire/Reader.antt =====
-- The incremental stream reader: qws_reader_init, qws_reader_reset and qws_reader_feed of
-- libqwsproto/qws_proto.c. The loop consumes the chunk from its front; the number of bytes consumed
-- is the difference of the lengths.
pub mod Parse
pub mod Phases
pub mod Loop
pub mod Cuts
pub mod Feed
pub mod Rest
pub mod Stream
use qwswayland.Prelude.{
  ℕ, zero, suc, ◌+◌, ◌-◌, Bool, true, false, ◌||◌, Option, none, some, List, [], ◌∷◌, ◌++◌, ◌==◌,
  if◌then◌else◌, take, drop, replicate, length,
}
use qwswayland.Prelude.Int.{ℤ, pos, ltb_ℤ, of_word}
use qwswayland.Wire.Bytes.{le_value}
use qwswayland.Wire.Command.{qws_command_simple_len}
use qwswayland.Wire.Event.{qws_event_simple_len}
use qwswayland.Wire.Packet.{Header, Packet, wire_header_size, to_size, sizeof_packet}

-- qws_read_state_t
pub data ReadState : Type 0 where
  read_header read_simple read_raw read_done : ReadState

-- qws_reader_t. `hdr` holds the 8 bytes of `type` and `raw_len` as they lie in memory.
pub record Reader : Type 0 where
  pub state : ReadState
  pub hdr : List ℕ
  pub simple_len : ℤ
  pub simple_buf : Option (List ℕ)
  pub raw_buf : Option (List ℕ)
  pub bytes_read : ℕ
  pub reading_commands : Bool

unfoldable pub hdr_type : List ℕ → ℤ
unfolding of_word le_value
hdr_type hdr = of_word (le_value (take 4 hdr))

unfoldable pub hdr_raw_len : List ℕ → ℤ
unfolding of_word le_value
hdr_raw_len hdr = of_word (le_value (take 4 (drop 4 hdr)))

abbrev pub zeroed_header : List ℕ
zeroed_header = 0 ∷ 0 ∷ 0 ∷ 0 ∷ 0 ∷ 0 ∷ 0 ∷ 0 ∷ []

-- The reader after the `memset`, for one direction.
abbrev pub fresh : Bool → Reader
fresh commands = record {
  state = read_header;
  hdr = zeroed_header;
  simple_len = pos 0;
  simple_buf = none;
  raw_buf = none;
  bytes_read = 0;
  reading_commands = commands;
}

unfoldable pub qws_reader_init : Reader → Bool → Reader
qws_reader_init r commands = fresh (commands || r.reading_commands)

unfoldable pub qws_reader_reset : Reader → Reader
qws_reader_reset r = fresh r.reading_commands

-- `memcpy(buf + off, src, length src)`
unfoldable pub write_at : List ℕ → ℕ → List ℕ → List ℕ
write_at buf off src = take off buf ++ (src ++ drop (off + length src) buf)

-- What an iteration leaves: the reader, the rest of the chunk, and whether `calloc` failed, which
-- leaves the loop at once.
pub record Progress : Type 0 where
  pub reader : Reader
  pub rest : List ℕ
  pub failed : Bool

abbrev pub goes_on : Reader → List ℕ → Progress
goes_on r rest = record { reader = r; rest = rest; failed = false }

unfoldable pub write_opt : Option (List ℕ) → ℕ → List ℕ → Option (List ℕ)
unfolding write_at
write_opt none off src = none
write_opt (some buf) off src = some (write_at buf off src)

-- The fixed length of a type in one direction; an unknown type counts as none.
unfoldable pub known_len : Bool → ℤ → ℤ
known_len commands type =
    let slen = if commands then qws_command_simple_len type else qws_event_simple_len type in
    if ltb_ℤ (pos 0) slen then slen else pos 0

unfoldable pub derived_len : Bool → List ℕ → ℤ
unfolding hdr_type known_len
derived_len commands hdr = known_len commands (hdr_type hdr)

abbrev pub is_done : ReadState → Bool
is_done read_done = true
is_done _ = false

-- The result of qws_reader_feed.
pub record Fed : Type 0 where
  pub reader : Reader
  pub rest : List ℕ
  pub out : Option Packet

unfoldable pub assembled : Reader → Packet
assembled r = record {
  header = record { type = hdr_type r.hdr; raw_len = hdr_raw_len r.hdr; simple_len = r.simple_len };
  simple_data = r.simple_buf;
  raw_data = r.raw_buf;
}

module _ (calloc_ok : ℕ → Bool) where
  abbrev pub gives_up : Reader → List ℕ → Progress
  gives_up r rest = record { reader = fresh r.reading_commands; rest = rest; failed = true }

  unfoldable pub enter_raw : Reader → List ℕ → Progress
  enter_raw r rest =
      if ltb_ℤ (pos 0) (hdr_raw_len r.hdr)
      then (let n = to_size (hdr_raw_len r.hdr) in
          if calloc_ok n
          then goes_on (record r { state = read_raw; raw_buf = some (replicate n 0) }) rest
          else gives_up r rest)
      else goes_on (record r { state = read_done }) rest

  unfoldable pub header_complete : Reader → List ℕ → Progress
  unfolding enter_raw
  header_complete r rest =
      let len = derived_len r.reading_commands r.hdr in
      let r' = record r { simple_len = len; bytes_read = 0 } in
      if ltb_ℤ (pos 0) len
      then (if calloc_ok (to_size len)
          then goes_on
              (record r' { state = read_simple; simple_buf = some (replicate (to_size len) 0) })
              rest
          else gives_up r rest)
      else enter_raw r' rest

  -- One iteration of the loop, a case of its `switch`.
  unfoldable pub iterate : ReadState → Reader → List ℕ → Progress
  unfolding header_complete write_at write_opt
  iterate read_header r src =
      let need = wire_header_size - r.bytes_read in
      let chunk = take need src in
      let read = r.bytes_read + length chunk in
      let r' = record r { hdr = write_at r.hdr r.bytes_read chunk; bytes_read = read } in
      if read == wire_header_size
      then header_complete r' (drop need src)
      else goes_on r' (drop need src)
  iterate read_simple r src =
      let need = to_size r.simple_len - r.bytes_read in
      let chunk = take need src in
      let read = r.bytes_read + length chunk in
      let buf = write_opt r.simple_buf r.bytes_read chunk in
      if read == to_size r.simple_len
      then enter_raw (record r { simple_buf = buf; bytes_read = 0 }) (drop need src)
      else goes_on (record r { simple_buf = buf; bytes_read = read }) (drop need src)
  iterate read_raw r src =
      let need = to_size (hdr_raw_len r.hdr) - r.bytes_read in
      let chunk = take need src in
      let read = r.bytes_read + length chunk in
      let r' = record r { raw_buf = write_opt r.raw_buf r.bytes_read chunk; bytes_read = read } in
      if read == to_size (hdr_raw_len r.hdr)
      then goes_on (record r' { state = read_done }) (drop need src)
      else goes_on r' (drop need src)
  iterate read_done r src = goes_on r src

  -- while (consumed < len && r->state != QWS_READ_DONE). Every state is left for a later one or
  -- uses up the chunk, so a few rounds are enough.
  unfoldable pub feed_loop : ℕ → Reader → List ℕ → Progress
  feed_loop zero r src = goes_on r src
  feed_loop (suc rounds) r [] = goes_on r []
  feed_loop (suc rounds) r (b ∷ src) = elim (is_done r.state) [
    | true ↦ goes_on r (b ∷ src)
    | false ↦
        let p = iterate r.state r (b ∷ src) in
        elim p.failed [ true ↦ p | false ↦ feed_loop rounds p.reader p.rest ]
  ]

  abbrev pub rounds_enough : ℕ
  rounds_enough = 4

  -- The end of qws_reader_feed: a completed packet is handed out and the reader starts anew.
  unfoldable pub assemble : Progress → Fed
  unfolding assembled
  assemble p =
      if is_done p.reader.state
      then record {
        reader = fresh p.reader.reading_commands;
        rest = p.rest;
        out = if calloc_ok sizeof_packet then some (assembled p.reader) else none;
      }
      else record { reader = p.reader; rest = p.rest; out = none }

  unfoldable pub qws_reader_feed : Reader → List ℕ → Fed
  unfolding feed_loop iterate assemble
  qws_reader_feed r src = assemble (feed_loop rounds_enough r src)
