-- ===== src/Wire/Reader/Phases.antt =====
-- One iteration of the loop of qws_reader_feed in each phase: the chunk ends within the current
-- buffer, or fills it.
use mathlib.Core.List.{append-nil, append_assoc}
use qwswayland.Prelude.{
  ℕ, zero, suc, ◌+◌, ◌-◌, ◌≤◌, ◌<◌, ◌≡◌, refl, sym, ap, ◌∙◌, Bool, true, false, List, [], ◌∷◌, ◌++◌,
  ◌==◌, take, drop, length, arith, length-append,
}
use qwswayland.Wire.Bytes.{take-append}
use qwswayland.Wire.Packet.{to_size}
use qwswayland.Wire.Reader.{
  read_header, read_simple, read_raw, read_done, write_at, goes_on, hdr_raw_len, iterate,
  header_complete, enter_raw,
}
use qwswayland.Wire.Reader.Parse.{simple_size, in_header, in_simple, in_raw, reader_of}

module _ {ℓ} {A : Type ℓ} where
  pub take_all : (n : ℕ) (xs : List A) → length xs ≤ n → take n xs ≡ xs
  take_all zero [] h = refl
  take_all zero (x ∷ xs) h = absurd (omega arith)
  take_all (suc n) [] h = refl
  take_all (suc n) (x ∷ xs) h = ap (λ l. x ∷ l) (take_all n xs (omega arith))

  pub drop_all : (n : ℕ) (xs : List A) → length xs ≤ n → drop n xs ≡ []
  drop_all zero [] h = refl
  drop_all zero (x ∷ xs) h = absurd (omega arith)
  drop_all (suc n) [] h = refl
  drop_all (suc n) (x ∷ xs) h = drop_all n xs (omega arith)

  pub length-take_full : (n : ℕ) (xs : List A) → n ≤ length xs → length (take n xs) ≡ n
  length-take_full zero xs h = refl
  length-take_full (suc n) [] h = absurd (omega arith)
  length-take_full (suc n) (x ∷ xs) h = ap suc (length-take_full n xs (omega arith))

  pub take_append_ge :
      (n : ℕ) (xs ys : List A) → length xs ≤ n → take n (xs ++ ys) ≡ xs ++ take (n - length xs) ys
  take_append_ge n [] ys h = ap (λ k. take k ys) (omega arith)
  take_append_ge zero (x ∷ xs) ys h = absurd (omega arith)
  take_append_ge (suc n) (x ∷ xs) ys h =
      ap (λ l. x ∷ l) (take_append_ge n xs ys (omega arith))
      ∙ ap (λ k. x ∷ (xs ++ take k ys)) (omega arith)

  pub drop_append_ge :
      (n : ℕ) (xs ys : List A) → length xs ≤ n → drop n (xs ++ ys) ≡ drop (n - length xs) ys
  drop_append_ge n [] ys h = ap (λ k. drop k ys) (omega arith)
  drop_append_ge zero (x ∷ xs) ys h = absurd (omega arith)
  drop_append_ge (suc n) (x ∷ xs) ys h =
      drop_append_ge n xs ys (omega arith) ∙ ap (λ k. drop k ys) (omega arith)

-- Writing behind the bytes that are there.
pub write_at-append :
    (w junk c : List ℕ) → write_at (w ++ junk) (length w) c ≡ w ++ (c ++ drop (length c) junk)
unfolding write_at
write_at-append w junk c =
    rw (take-append w junk, drop_append_ge (length w + length c) w junk (omega arith))
      (ap (λ k. w ++ (c ++ drop k junk)) (omega arith))

-- The chunk ends within the buffer.
pub write_some :
    (w junk c : List ℕ)
    → length c < length junk
    → write_at (w ++ junk) (length w) (take (length junk) c) ≡ (w ++ c) ++ drop (length c) junk
write_some w junk c h =
    rw (take_all (length junk) c (omega arith))
      (write_at-append w junk c ∙ sym (append_assoc w c (drop (length c) junk)))

-- The chunk fills the buffer.
pub write_full :
    (w junk c : List ℕ)
    → length junk ≤ length c
    → write_at (w ++ junk) (length w) (take (length junk) c) ≡ w ++ take (length junk) c
write_full w junk c h =
    write_at-append w junk (take (length junk) c)
    ∙ rw (
      length-take_full (length junk) c h,
      drop_all (length junk) junk (omega arith),
      append-nil (take (length junk) c),
    )

module _ (calloc_ok : ℕ → Bool) (commands : Bool) where
  pub iterate-raw_some :
      (h s w junk c : List ℕ)
      → length w + length junk ≡ to_size (hdr_raw_len h)
      → length c < length junk
      → iterate calloc_ok read_raw (reader_of commands (in_raw h s w junk)) c
        ≡ goes_on (reader_of commands (in_raw h s (w ++ c) (drop (length c) junk))) []
  unfolding iterate
  iterate-raw_some h s w junk c e l =
      let need : to_size (hdr_raw_len h) - length w ≡ length junk = omega arith in
      let short : ((length w + length c) == to_size (hdr_raw_len h)) ≡ false = ground arith in
      rw (
        need,
        write_some w junk c l,
        drop_all (length junk) c (omega arith),
        take_all (length junk) c (omega arith),
        short,
        length-append w c,
      )

  pub iterate-raw_full :
      (h s w junk c : List ℕ)
      → length w + length junk ≡ to_size (hdr_raw_len h)
      → length junk ≤ length c
      → iterate calloc_ok read_raw (reader_of commands (in_raw h s w junk)) c
        ≡ goes_on
            (record (reader_of commands (in_raw h s (w ++ take (length junk) c) [])) {
              state = read_done;
            })
            (drop (length junk) c)
  unfolding iterate
  iterate-raw_full h s w junk c e l =
      let need : to_size (hdr_raw_len h) - length w ≡ length junk = omega arith in
      let full : ((length w + length junk) == to_size (hdr_raw_len h)) ≡ true = ground arith in
      rw (
        need,
        write_full w junk c l,
        append-nil (w ++ take (length junk) c),
        length-append w (take (length junk) c),
        length-take_full (length junk) c l,
        full,
      )

  pub iterate-simple_some :
      (h s junk c : List ℕ)
      → length s + length junk ≡ simple_size commands h
      → length c < length junk
      → iterate calloc_ok read_simple (reader_of commands (in_simple h s junk)) c
        ≡ goes_on (reader_of commands (in_simple h (s ++ c) (drop (length c) junk))) []
  unfolding iterate
  iterate-simple_some h s junk c e l =
      let need : simple_size commands h - length s ≡ length junk = omega arith in
      let short : ((length s + length c) == simple_size commands h) ≡ false = ground arith in
      rw (
        need,
        write_some s junk c l,
        drop_all (length junk) c (omega arith),
        take_all (length junk) c (omega arith),
        short,
        length-append s c,
      )

  pub iterate-simple_full :
      (h s junk c : List ℕ)
      → length s + length junk ≡ simple_size commands h
      → length junk ≤ length c
      → iterate calloc_ok read_simple (reader_of commands (in_simple h s junk)) c
        ≡ enter_raw calloc_ok
            (record (reader_of commands (in_simple h (s ++ take (length junk) c) [])) {
              bytes_read = 0;
            })
            (drop (length junk) c)
  unfolding iterate
  iterate-simple_full h s junk c e l =
      let need : simple_size commands h - length s ≡ length junk = omega arith in
      let full : ((length s + length junk) == simple_size commands h) ≡ true = ground arith in
      rw (
        need,
        write_full s junk c l,
        append-nil (s ++ take (length junk) c),
        length-take_full (length junk) c l,
        full,
      )

  pub iterate-header_some :
      (p junk c : List ℕ)
      → length p + length junk ≡ 8
      → length c < length junk
      → iterate calloc_ok read_header (reader_of commands (in_header p junk)) c
        ≡ goes_on (reader_of commands (in_header (p ++ c) (drop (length c) junk))) []
  unfolding iterate
  iterate-header_some p junk c e l =
      let need : 8 - length p ≡ length junk = omega arith in
      let short : ((length p + length c) == 8) ≡ false = ground arith in
      rw (
        need,
        write_some p junk c l,
        drop_all (length junk) c (omega arith),
        take_all (length junk) c (omega arith),
        short,
        length-append p c,
      )

  pub iterate-header_full :
      (p junk c : List ℕ)
      → length p + length junk ≡ 8
      → length junk ≤ length c
      → iterate calloc_ok read_header (reader_of commands (in_header p junk)) c
        ≡ header_complete calloc_ok
            (reader_of commands (in_header (p ++ take (length junk) c) []))
            (drop (length junk) c)
  unfolding iterate
  iterate-header_full p junk c e l =
      let need : 8 - length p ≡ length junk = omega arith in
      let full : ((length p + length junk) == 8) ≡ true = ground arith in
      rw (
        need,
        write_full p junk c l,
        append-nil (p ++ take (length junk) c),
        length-take_full (length junk) c l,
        full,
      )
