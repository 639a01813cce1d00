-- ===== src/Wire/Reader/Feed.antt =====
-- qws_reader_feed against the stream specification, from every intermediate state of a reader.
use mathlib.Core.List.{append_assoc}
use qwswayland.Prelude.{
  ℕ, suc, ◌<◌, ◌≡◌, refl, sym, ap, subst, ◌∙◌, Bool, true, Option, none, some, List, [], ◌++◌, take,
  drop, length, arith, length-append, length-drop, dec_lt, replicate, Bool-cases, inl, inr,
  take-append-drop,
}
use qwswayland.Prelude.Int.{pos, ltb_ℤ}
use qwswayland.Wire.Packet.{Packet, to_size, sizeof_packet}
use qwswayland.Wire.Reader.{
  Reader, Fed, goes_on, fresh, hdr_raw_len, derived_len, feed_loop, assemble, qws_reader_feed,
}
use qwswayland.Wire.Reader.Parse.{
  simple_size, raw_size, packet_of, Partial, in_header, in_simple, in_raw, reader_of, received,
  IsValid, Agrees, parse, parse_simple, parse_raw,
}
use qwswayland.Wire.Reader.Cuts.{
  parse-header, parse_simple-append, short_raw, short_simple, short_header, raw_size_pos,
  buffer-nonempty, parse_raw-some, parse_simple_some, parse_some, zeros, raw_size_zeros,
  simple_size_zeros, no_simple_size, taken, dropped,
}
use qwswayland.Wire.Reader.Phases.{length-take_full}
use qwswayland.Wire.Reader.Loop.{
  feed_loop-done, raw_kept, raw_filled, raw_done, simple_kept, header_kept, after_simple,
  simple_filled, after_header, header_filled,
}

module _ (calloc_ok : ℕ → Bool) (has_memory : (n : ℕ) → calloc_ok n ≡ true) (commands : Bool) where
  abbrev run : ℕ → Reader → List ℕ → Fed
  run k r c = assemble calloc_ok (feed_loop calloc_ok k r c)

  assemble-raw_done :
      (h s w rest : List ℕ)
      → 0 < length w
      → assemble calloc_ok (goes_on (raw_done calloc_ok commands h s w) rest)
        ≡ record { reader = fresh commands; rest = rest; out = some (packet_of commands h s w) }
  unfolding assemble
  assemble-raw_done h s w rest l = rw (has_memory sizeof_packet, buffer-nonempty w l)

  kept-Agrees :
      (q : Partial) (stream : List ℕ) (o : Option (Packet × List ℕ)) (k : ℕ) (r : Reader)
      (c : List ℕ)
      → o ≡ none
      → received q ≡ stream
      → IsValid commands q
      → feed_loop calloc_ok k r c ≡ goes_on (reader_of commands q) []
      → Agrees commands stream o (run k r c)
  unfolding assemble
  kept-Agrees (in_header p junk) stream o k r c eo es v e =
      rw (eo, e) (in_header p junk, es, v, refl)
  kept-Agrees (in_simple h s junk) stream o k r c eo es v e =
      rw (eo, e) (in_simple h s junk, es, v, refl)
  kept-Agrees (in_raw h s w junk) stream o k r c eo es v e =
      rw (eo, e) (in_raw h s w junk, es, v, refl)

  some-Agrees :
      (stream : List ℕ) (o : Option (Packet × List ℕ)) (pkt : Packet) (rest : List ℕ) {fed : Fed}
      → o ≡ some (pkt, rest)
      → fed ≡ record { reader = fresh commands; rest = rest; out = some pkt }
      → Agrees commands stream o fed
  some-Agrees stream o pkt rest eo e = rw eo e

  same_stream :
      (stream stream' : List ℕ) (o : Option (Packet × List ℕ)) (fed : Fed)
      → stream ≡ stream'
      → Agrees commands stream o fed
      → Agrees commands stream' o fed
  same_stream stream stream' o fed e a = subst (λ l. Agrees commands l o fed) e a

  raw-Agrees :
      (k : ℕ) (h s w junk c : List ℕ)
      → IsValid commands (in_raw h s w junk)
      → Agrees commands
          (h ++ (s ++ (w ++ c)))
          (parse_raw commands h s (w ++ c))
          (run (suc k) (reader_of commands (in_raw h s w junk)) c)
  raw-Agrees k h s w junk c v =
      let size : raw_size h ≡ to_size (hdr_raw_len h) = raw_size_pos h (omega arith) in
      elim (dec_lt (length c) (length junk)) [
        | yes l ↦
            kept-Agrees (in_raw h s (w ++ c) (drop (length c) junk)) _ _ (suc k) _ c
              (short_raw commands h s (w ++ c) (omega (arith, length-append w c))) refl
              (omega (arith, length-append w c, length-drop (length c) junk))
              (raw_kept calloc_ok commands k h s w junk c (omega arith) l)
        | no l ↦
            some-Agrees _ _ (packet_of commands h s (w ++ take (length junk) c))
              (drop (length junk) c)
              (parse_raw-some commands h s (w ++ c) (omega (arith, length-append w c))
                ∙ rw (taken (raw_size h) w junk c v.2, dropped (raw_size h) w junk c v.2))
              (ap (assemble calloc_ok)
                  (raw_filled calloc_ok commands k h s w junk c (omega arith) v.3 (omega arith))
                ∙ assemble-raw_done h s (w ++ take (length junk) c) (drop (length junk) c) (
                    omega (
                      arith,
                      length-append w (take (length junk) c),
                      length-take_full (length junk) c,
                    )))
      ]

  abbrev plain_done : List ℕ → List ℕ → Reader
  plain_done h s = record (raw_done calloc_ok commands h s []) { raw_buf = none }

  assemble-plain_done :
      (k : ℕ) (h s rest : List ℕ)
      → run k (plain_done h s) rest
        ≡ record { reader = fresh commands; rest = rest; out = some (packet_of commands h s []) }
  unfolding assemble
  assemble-plain_done k h s rest =
      rw (feed_loop-done calloc_ok k (plain_done h s) rest refl, has_memory sizeof_packet)

  after_simple-Agrees :
      (k : ℕ) (h s c : List ℕ)
      → length h ≡ 8
      → length s ≡ simple_size commands h
      → Agrees commands
          (h ++ (s ++ c))
          (parse_raw commands h s c)
          (run (suc k) (after_simple calloc_ok has_memory commands h s) c)
  after_simple-Agrees k h s c eh es = elim (Bool-cases (ltb_ℤ (pos 0) (hdr_raw_len h))) [
    | inl raw ↦
        let begin : after_simple calloc_ok has_memory commands h s
            ≡ reader_of commands (in_raw h s [] (replicate (raw_size h) 0)) =
          rw raw in
        subst (λ r. Agrees commands (h ++ (s ++ c)) (parse_raw commands h s c) (run (suc k) r c))
          (sym begin)
          (raw-Agrees k h s [] (replicate (raw_size h) 0) c
            (eh, es, zeros (raw_size h), raw_size_zeros h raw))
    | inr plain ↦
        let begin : after_simple calloc_ok has_memory commands h s ≡ plain_done h s = rw plain in
        let size : raw_size h ≡ 0 = rw plain in
        some-Agrees _ _ (packet_of commands h s []) c
          (parse_raw-some commands h s c (omega arith) ∙ rw size)
          (ap (λ r. run (suc k) r c) begin ∙ assemble-plain_done (suc k) h s c)
  ]

  simple-Agrees :
      (k : ℕ) (h s junk c : List ℕ)
      → IsValid commands (in_simple h s junk)
      → Agrees commands
          (h ++ (s ++ c))
          (parse_simple commands h (s ++ c))
          (run (suc (suc k)) (reader_of commands (in_simple h s junk)) c)
  simple-Agrees k h s junk c v = elim (dec_lt (length c) (length junk)) [
    | yes l ↦
        kept-Agrees (in_simple h (s ++ c) (drop (length c) junk)) _ _ (suc (suc k)) _ c
          (short_simple commands h (s ++ c) (omega (arith, length-append s c))) refl
          (omega (arith, length-append s c, length-drop (length c) junk))
          (simple_kept calloc_ok commands (suc k) h s junk c v.1 l)
    | no l ↦
        let full = s ++ take (length junk) c in
        let rest = drop (length junk) c in
        let parsed : parse_simple commands h (s ++ c) ≡ parse_raw commands h full rest =
          parse_simple_some commands h (s ++ c) (omega (arith, length-append s c))
          ∙ rw (
            taken (simple_size commands h) s junk c v.1,
            dropped (simple_size commands h) s junk c v.1,
          ) in
        let looped : run (suc (suc k)) (reader_of commands (in_simple h s junk)) c
            ≡ run (suc k) (after_simple calloc_ok has_memory commands h full) rest =
          ap (assemble calloc_ok) (
            simple_filled calloc_ok has_memory commands (suc k) h s junk c v.1 v.2 (omega arith)) in
        rw (parsed, looped)
          (same_stream (h ++ (full ++ rest)) _ _ _
            (ap (λ l. h ++ l)
              (append_assoc s (take (length junk) c) rest
                ∙ ap (λ l. s ++ l) (take-append-drop (length junk) c)))
            (after_simple-Agrees k h full rest v.0 (
              omega
                (arith, length-append s (take (length junk) c), length-take_full (length junk) c))))
  ]

  after_header-Agrees :
      (k : ℕ) (h c : List ℕ)
      → length h ≡ 8
      → Agrees commands
          (h ++ c)
          (parse_simple commands h c)
          (run (suc (suc k)) (after_header calloc_ok has_memory commands h) c)
  after_header-Agrees k h c eh = elim (Bool-cases (ltb_ℤ (pos 0) (derived_len commands h))) [
    | inl simple ↦
        let begin : after_header calloc_ok has_memory commands h
            ≡ reader_of commands (in_simple h [] (replicate (simple_size commands h) 0)) =
          rw simple in
        subst (λ r. Agrees commands (h ++ c) (parse_simple commands h c) (run (suc (suc k)) r c))
          (sym begin)
          (simple-Agrees k h [] (replicate (simple_size commands h) 0) c
            (eh, zeros (simple_size commands h), simple_size_zeros commands h simple))
    | inr none_left ↦
        let begin : after_header calloc_ok has_memory commands h
            ≡ after_simple calloc_ok has_memory commands h [] =
          rw none_left in
        let size : simple_size commands h ≡ 0 = no_simple_size commands h none_left in
        let parsed : parse_simple commands h c ≡ parse_raw commands h [] c =
          parse_simple_some commands h c (omega arith) ∙ rw size in
        rw (parsed, begin) (after_simple-Agrees (suc k) h [] c eh (omega arith))
  ]

  header-Agrees :
      (k : ℕ) (p junk c : List ℕ)
      → IsValid commands (in_header p junk)
      → Agrees commands
          (p ++ c)
          (parse commands (p ++ c))
          (run (suc (suc (suc k))) (reader_of commands (in_header p junk)) c)
  header-Agrees k p junk c v = elim (dec_lt (length c) (length junk)) [
    | yes l ↦
        kept-Agrees (in_header (p ++ c) (drop (length c) junk)) _ _ (suc (suc (suc k))) _ c
          (short_header commands (p ++ c) (omega (arith, length-append p c))) refl
          (omega (arith, length-append p c, length-drop (length c) junk))
          (header_kept calloc_ok commands (suc (suc k)) p junk c v.0 l)
    | no l ↦
        let h = p ++ take (length junk) c in
        let rest = drop (length junk) c in
        let parsed : parse commands (p ++ c) ≡ parse_simple commands h rest =
          parse_some commands (p ++ c) (omega (arith, length-append p c))
          ∙ rw (taken 8 p junk c v.0, dropped 8 p junk c v.0) in
        let looped : run (suc (suc (suc k))) (reader_of commands (in_header p junk)) c
            ≡ run (suc (suc k)) (after_header calloc_ok has_memory commands h) rest =
          ap (assemble calloc_ok) (
            header_filled calloc_ok has_memory commands (suc (suc k)) p junk c v.0 v.1
              (omega arith)) in
        rw (parsed, looped)
          (same_stream (h ++ rest) _ _ _
            (append_assoc p (take (length junk) c) rest
              ∙ ap (λ l. p ++ l) (take-append-drop (length junk) c))
            (after_header-Agrees k h rest (
              omega
                (arith, length-append p (take (length junk) c), length-take_full (length junk) c))))
  ]

  -- With memory, feeding a chunk to a reader in the middle of any packet keeps all bytes while the
  -- stream so far has no complete packet, and otherwise hands out its first packet, leaves the
  -- bytes behind it and resets the reader.
  pub feed-Agrees :
      (q : Partial) (c : List ℕ)
      → IsValid commands q
      → Agrees commands
          (received q ++ c)
          (parse commands (received q ++ c))
          (qws_reader_feed calloc_ok (reader_of commands q) c)
  unfolding qws_reader_feed
  feed-Agrees (in_header p junk) c v = header-Agrees 1 p junk c v
  feed-Agrees (in_simple h s junk) c v =
      rw (append_assoc h s c, parse-header commands h (s ++ c) v.0) (simple-Agrees 2 h s junk c v)
  feed-Agrees (in_raw h s w junk) c v =
      rw
        (
          append_assoc h (s ++ w) c,
          append_assoc s w c,
          parse-header commands h (s ++ (w ++ c)) v.0,
          parse_simple-append commands h s (w ++ c) v.1,
        )
        (raw-Agrees 3 h s w junk c v)
