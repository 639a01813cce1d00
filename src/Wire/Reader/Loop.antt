-- ===== src/Wire/Reader/Loop.antt =====
-- Whole runs of the loop of qws_reader_feed: a chunk that ends within a buffer is kept, one that
-- fills it carries the reader into the next phase.
use mathlib.Core.List.{append-nil}
use qwswayland.Prelude.{
  ℕ, zero, suc, ◌+◌, ◌≤◌, ◌<◌, ◌≡◌, refl, ap, ◌∙◌, Bool, true, false, Option, none, some, List, [],
  ◌∷◌, ◌++◌, if◌then◌else◌, take, drop, length, arith, replicate, Bool-cases, inl, inr,
}
use qwswayland.Prelude.Int.{pos, ltb_ℤ}
use qwswayland.Wire.Packet.{to_size}
use qwswayland.Wire.Reader.{
  ReadState, read_header, read_simple, read_done, Reader, Progress, goes_on, is_done, hdr_raw_len,
  derived_len, iterate, header_complete, enter_raw, feed_loop,
}
use qwswayland.Wire.Reader.Parse.{
  simple_size, raw_size, buffer, Partial, in_header, in_simple, in_raw, reader_of,
}
use qwswayland.Wire.Reader.Phases.{
  iterate-raw_some, iterate-raw_full, iterate-simple_some, iterate-simple_full, iterate-header_some,
  iterate-header_full, length-take_full,
}

module _ (calloc_ok : ℕ → Bool) where
  feed_loop_step :
      (k : ℕ) (r : Reader) (b : ℕ) (c : List ℕ) (p : Progress)
      → is_done r.state ≡ false
      → p.failed ≡ false
      → iterate calloc_ok r.state r (b ∷ c) ≡ p
      → feed_loop calloc_ok (suc k) r (b ∷ c) ≡ feed_loop calloc_ok k p.reader p.rest
  unfolding feed_loop
  feed_loop_step k r b c p d f e = rw (d, e, f, feed_loop) (rw e)

  pub feed_loop-nil : (k : ℕ) (r : Reader) → feed_loop calloc_ok k r [] ≡ goes_on r []
  unfolding feed_loop
  feed_loop-nil zero r = refl
  feed_loop-nil (suc k) r = refl

  pub feed_loop-done :
      (k : ℕ) (r : Reader) (c : List ℕ)
      → r.state ≡ read_done
      → feed_loop calloc_ok k r c ≡ goes_on r c
  unfolding feed_loop
  feed_loop-done zero r c e = refl
  feed_loop-done (suc k) r [] e = refl
  feed_loop-done (suc k) r (b ∷ c) e = rw e

module _ (calloc_ok : ℕ → Bool) (commands : Bool) where
  kept :
      (k : ℕ) (q : Partial)
      → feed_loop calloc_ok k (reader_of commands q) [] ≡ goes_on (reader_of commands q) []
  kept k q = feed_loop-nil calloc_ok k (reader_of commands q)

  pub raw_kept :
      (k : ℕ) (h s w junk c : List ℕ)
      → length w + length junk ≡ to_size (hdr_raw_len h)
      → length c < length junk
      → feed_loop calloc_ok (suc k) (reader_of commands (in_raw h s w junk)) c
        ≡ goes_on (reader_of commands (in_raw h s (w ++ c) (drop (length c) junk))) []
  raw_kept k h s w junk [] e l = rw (append-nil w) (kept (suc k) (in_raw h s w junk))
  raw_kept k h s w junk (b ∷ c) e l =
      feed_loop_step calloc_ok k _ b c _ refl refl
        (iterate-raw_some calloc_ok commands h s w junk (b ∷ c) e l)
      ∙ kept k (in_raw h s (w ++ b ∷ c) (drop (length (b ∷ c)) junk))

  abbrev pub raw_done : List ℕ → List ℕ → List ℕ → Reader
  raw_done h s w = record (reader_of commands (in_raw h s w [])) { state = read_done }

  pub raw_filled :
      (k : ℕ) (h s w junk c : List ℕ)
      → length w + length junk ≡ to_size (hdr_raw_len h)
      → 0 < length junk
      → length junk ≤ length c
      → feed_loop calloc_ok (suc k) (reader_of commands (in_raw h s w junk)) c
        ≡ goes_on (raw_done h s (w ++ take (length junk) c)) (drop (length junk) c)
  raw_filled k h s w junk [] e p l = absurd (omega arith)
  raw_filled k h s w junk (b ∷ c) e p l =
      feed_loop_step calloc_ok k _ b c _ refl refl
        (iterate-raw_full calloc_ok commands h s w junk (b ∷ c) e l)
      ∙ feed_loop-done calloc_ok k (raw_done h s (w ++ take (length junk) (b ∷ c))) _ refl

  pub simple_kept :
      (k : ℕ) (h s junk c : List ℕ)
      → length s + length junk ≡ simple_size commands h
      → length c < length junk
      → feed_loop calloc_ok (suc k) (reader_of commands (in_simple h s junk)) c
        ≡ goes_on (reader_of commands (in_simple h (s ++ c) (drop (length c) junk))) []
  simple_kept k h s junk [] e l = rw (append-nil s) (kept (suc k) (in_simple h s junk))
  simple_kept k h s junk (b ∷ c) e l =
      feed_loop_step calloc_ok k _ b c _ refl refl
        (iterate-simple_some calloc_ok commands h s junk (b ∷ c) e l)
      ∙ kept k (in_simple h (s ++ b ∷ c) (drop (length (b ∷ c)) junk))

  pub header_kept :
      (k : ℕ) (p junk c : List ℕ)
      → length p + length junk ≡ 8
      → length c < length junk
      → feed_loop calloc_ok (suc k) (reader_of commands (in_header p junk)) c
        ≡ goes_on (reader_of commands (in_header (p ++ c) (drop (length c) junk))) []
  header_kept k p junk [] e l = rw (append-nil p) (kept (suc k) (in_header p junk))
  header_kept k p junk (b ∷ c) e l =
      feed_loop_step calloc_ok k _ b c _ refl refl
        (iterate-header_some calloc_ok commands p junk (b ∷ c) e l)
      ∙ kept k (in_header (p ++ b ∷ c) (drop (length (b ∷ c)) junk))

-- From here on every `calloc` succeeds.
module _ (calloc_ok : ℕ → Bool) (has_memory : (n : ℕ) → calloc_ok n ≡ true) (commands : Bool) where
  -- The reader in which the raw payload begins, or is missing.
  abbrev pub after_simple : List ℕ → List ℕ → Reader
  after_simple h s =
      if ltb_ℤ (pos 0) (hdr_raw_len h)
      then reader_of commands (in_raw h s [] (replicate (raw_size h) 0))
      else record (reader_of commands (in_raw h s [] [])) { state = read_done; raw_buf = none }

  -- The reader with complete fixed parts, before it looks for a raw payload.
  abbrev fixed_done : List ℕ → Option (List ℕ) → ℕ → Reader
  fixed_done h simple read = record {
    state = read_simple;
    hdr = h;
    simple_len = derived_len commands h;
    simple_buf = simple;
    raw_buf = none;
    bytes_read = read;
    reading_commands = commands;
  }

  enter_raw_lem :
      (st : ReadState) (h s c : List ℕ) (simple : Option (List ℕ))
      → simple ≡ buffer s
      → enter_raw calloc_ok (record (fixed_done h simple 0) { state = st }) c
        ≡ goes_on (after_simple h s) c
  unfolding enter_raw
  enter_raw_lem st h s c simple e = elim (Bool-cases (ltb_ℤ (pos 0) (hdr_raw_len h))) [
    | inl raw ↦ rw (raw, has_memory (to_size (hdr_raw_len h)), e)
    | inr plain ↦ rw (plain, e)
  ]

  buffer-append : (s t : List ℕ) → 0 < length t → some ((s ++ t) ++ []) ≡ buffer (s ++ t)
  buffer-append [] [] h = absurd (omega arith)
  buffer-append [] (x ∷ t) h = ap (λ l. some (x ∷ l)) (append-nil t)
  buffer-append (x ∷ s) t h = ap (λ l. some (x ∷ l)) (append-nil (s ++ t))

  pub simple_filled :
      (k : ℕ) (h s junk c : List ℕ)
      → length s + length junk ≡ simple_size commands h
      → 0 < length junk
      → length junk ≤ length c
      → feed_loop calloc_ok (suc k) (reader_of commands (in_simple h s junk)) c
        ≡ feed_loop calloc_ok k (after_simple h (s ++ take (length junk) c)) (drop (length junk) c)
  simple_filled k h s junk [] e p l = absurd (omega arith)
  simple_filled k h s junk (b ∷ c) e p l =
      feed_loop_step calloc_ok k _ b c
        (goes_on (after_simple h (s ++ take (length junk) (b ∷ c))) _) refl refl
        (iterate-simple_full calloc_ok commands h s junk (b ∷ c) e l
          ∙ enter_raw_lem read_simple h _ _ _ (
              buffer-append s (take (length junk) (b ∷ c))
                (rw (length-take_full (length junk) (b ∷ c) l) p)))

  -- The reader in which the payload begins.
  abbrev pub after_header : List ℕ → Reader
  after_header h =
      if ltb_ℤ (pos 0) (derived_len commands h)
      then reader_of commands (in_simple h [] (replicate (simple_size commands h) 0))
      else after_simple h []

  header_complete_lem :
      (h c : List ℕ)
      → header_complete calloc_ok (reader_of commands (in_header h [])) c
        ≡ goes_on (after_header h) c
  unfolding header_complete
  header_complete_lem h c =
      rw (append-nil h) (elim (Bool-cases (ltb_ℤ (pos 0) (derived_len commands h))) [
        | inl simple ↦ rw (simple, has_memory (simple_size commands h))
        | inr none_left ↦ rw none_left (enter_raw_lem read_header h [] c none refl)
      ])

  pub header_filled :
      (k : ℕ) (p junk c : List ℕ)
      → length p + length junk ≡ 8
      → 0 < length junk
      → length junk ≤ length c
      → feed_loop calloc_ok (suc k) (reader_of commands (in_header p junk)) c
        ≡ feed_loop calloc_ok k (after_header (p ++ take (length junk) c)) (drop (length junk) c)
  header_filled k p junk [] e h l = absurd (omega arith)
  header_filled k p junk (b ∷ c) e h l =
      feed_loop_step calloc_ok k _ b c (goes_on (after_header (p ++ take (length junk) (b ∷ c))) _)
        refl refl
        (iterate-header_full calloc_ok commands p junk (b ∷ c) e l
          ∙ header_complete_lem (p ++ take (length junk) (b ∷ c)) (drop (length junk) (b ∷ c)))
