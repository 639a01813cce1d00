-- ===== src/Wire/Reader/Cuts.antt =====
-- Cutting a stream into the parts of a packet: what qws_reader_feed of libqwsproto/qws_proto.c and
-- the stream specification both do.
use mathlib.Core.List.{append-nil}
use qwswayland.Prelude.{
  ℕ, ◌+◌, ◌≤◌, ◌<◌, ◌≡◌, ap, ◌∙◌, Bool, true, false, none, some, List, [], ◌∷◌, ◌++◌, ltb,
  if◌then◌else◌, take, drop, length, arith, length-append, replicate, length-replicate, lt→ltb,
}
use qwswayland.Prelude.Int.{ℤ, pos, negsuc, ltb_ℤ}
use qwswayland.Wire.Bytes.{take-append, drop-append}
use qwswayland.Wire.Packet.{to_size}
use qwswayland.Wire.Reader.{hdr_raw_len, derived_len}
use qwswayland.Wire.Reader.Parse.{
  simple_size, raw_size, buffer, packet_of, parse, parse_simple, parse_raw,
}
use qwswayland.Wire.Reader.Phases.{take_append_ge, drop_append_ge}

pub short_raw :
    (commands : Bool) (h s bs : List ℕ) → length bs < raw_size h → parse_raw commands h s bs ≡ none
unfolding parse_raw
short_raw commands h s bs l = rw (lt→ltb (length bs) (raw_size h) l)

pub short_simple :
    (commands : Bool) (h bs : List ℕ)
    → length bs < simple_size commands h
    → parse_simple commands h bs ≡ none
unfolding parse_simple
short_simple commands h bs l = rw (lt→ltb (length bs) (simple_size commands h) l)

pub short_header : (commands : Bool) (bs : List ℕ) → length bs < 8 → parse commands bs ≡ none
unfolding parse
short_header commands bs l = rw (lt→ltb (length bs) 8 l)

pub raw_size_pos : (h : List ℕ) → 0 < raw_size h → raw_size h ≡ to_size (hdr_raw_len h)
raw_size_pos h l = ground arith

pub buffer-nonempty : (w : List ℕ) → 0 < length w → some (w ++ []) ≡ buffer w
buffer-nonempty [] h = absurd (omega arith)
buffer-nonempty (x ∷ w) h = ap (λ l. some (x ∷ l)) (append-nil w)

pub ltb-false : (a b : ℕ) → b ≤ a → ltb a b ≡ false
ltb-false a b h = ground arith

pub parse_raw-some :
    (commands : Bool) (h s bs : List ℕ)
    → raw_size h ≤ length bs
    → parse_raw commands h s bs
      ≡ some (packet_of commands h s (take (raw_size h) bs), drop (raw_size h) bs)
unfolding parse_raw
parse_raw-some commands h s bs l = rw (ltb-false (length bs) (raw_size h) l)

pub parse_simple_some :
    (commands : Bool) (h bs : List ℕ)
    → simple_size commands h ≤ length bs
    → parse_simple commands h bs
      ≡ parse_raw commands h (take (simple_size commands h) bs) (drop (simple_size commands h) bs)
unfolding parse_simple
parse_simple_some commands h bs l = rw (ltb-false (length bs) (simple_size commands h) l)

pub parse_some :
    (commands : Bool) (bs : List ℕ)
    → 8 ≤ length bs
    → parse commands bs ≡ parse_simple commands (take 8 bs) (drop 8 bs)
unfolding parse
parse_some commands bs l = rw (ltb-false (length bs) 8 l)

pub zeros : (n : ℕ) → 0 + length {A = ℕ} (replicate n 0) ≡ n
zeros n = omega (arith, length-replicate {0} {A = ℕ} n 0)

pub to_size_pos : (x : ℤ) → ltb_ℤ (pos 0) x ≡ true → 0 < to_size x
to_size_pos (pos n) h = ground arith
to_size_pos (negsuc n) h = ground arith

pub raw_size_zeros :
    (h : List ℕ)
    → ltb_ℤ (pos 0) (hdr_raw_len h) ≡ true
    → 0 < length {A = ℕ} (replicate (raw_size h) 0)
raw_size_zeros h raw =
    let size : raw_size h ≡ to_size (hdr_raw_len h) = rw raw in
    omega (arith, length-replicate {0} {A = ℕ} (raw_size h) 0, to_size_pos (hdr_raw_len h) raw)

pub simple_size_zeros :
    (commands : Bool) (h : List ℕ)
    → ltb_ℤ (pos 0) (derived_len commands h) ≡ true
    → 0 < length {A = ℕ} (replicate (simple_size commands h) 0)
simple_size_zeros commands h simple = omega (
  arith,
  length-replicate {0} {A = ℕ} (simple_size commands h) 0,
  to_size_pos (derived_len commands h) simple,
)

pub clamped :
    (x : ℤ) → ltb_ℤ (pos 0) (if ltb_ℤ (pos 0) x then x else pos 0) ≡ false → ltb_ℤ (pos 0) x ≡ false
clamped x h = ground arith

pub no_simple_size :
    (commands : Bool) (h : List ℕ)
    → ltb_ℤ (pos 0) (derived_len commands h) ≡ false
    → simple_size commands h ≡ 0
unfolding derived_len
no_simple_size commands h e = rw (clamped _ e)

-- Taking what is missing from the chunk is taking the whole from the stream.
module _ (n : ℕ) (w junk c : List ℕ) (e : length w + length junk ≡ n) where
  pub taken : take n (w ++ c) ≡ w ++ take (length junk) c
  taken = take_append_ge n w c (omega arith) ∙ ap (λ k. w ++ take k c) (omega arith)

  pub dropped : drop n (w ++ c) ≡ drop (length junk) c
  dropped = drop_append_ge n w c (omega arith) ∙ ap (λ k. drop k c) (omega arith)

pub cut_take : (n : ℕ) (h bs : List ℕ) → length h ≡ n → take n (h ++ bs) ≡ h
cut_take n h bs e = rw (← e) (take-append h bs)

pub cut_drop : (n : ℕ) (h bs : List ℕ) → length h ≡ n → drop n (h ++ bs) ≡ bs
cut_drop n h bs e = rw (← e) (drop-append h bs)

pub parse-header :
    (commands : Bool) (h bs : List ℕ)
    → length h ≡ 8
    → parse commands (h ++ bs) ≡ parse_simple commands h bs
parse-header commands h bs e =
    parse_some commands (h ++ bs) (omega (arith, length-append h bs))
    ∙ rw (cut_take 8 h bs e, cut_drop 8 h bs e)

pub parse_simple-append :
    (commands : Bool) (h s bs : List ℕ)
    → length s ≡ simple_size commands h
    → parse_simple commands h (s ++ bs) ≡ parse_raw commands h s bs
parse_simple-append commands h s bs e =
    parse_simple_some commands h (s ++ bs) (omega (arith, length-append s bs))
    ∙ rw (cut_take (simple_size commands h) s bs e, cut_drop (simple_size commands h) s bs e)
