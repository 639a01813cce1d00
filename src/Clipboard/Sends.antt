-- ===== src/Clipboard/Sends.antt =====
-- Serving the selection to other programs: source_send of proxy/clipboard.c.
use qwswayland.Prelude.{
  ℕ, ◌+◌, ◌≤◌, ◌≡◌, refl, ap, ◌∙◌, Option, none, some, List, [], ◌∷◌, ◌++◌, length, take, drop,
  take-append-drop, length-drop, arith,
}

-- The result of a `write`: a count, EINTR, or another error.
pub data WriteResult : Type 0 where
  wrote : ℕ → WriteResult
  interrupted failed : WriteResult

abbrev pub put : List ℕ → Option (List ℕ) → Option (List ℕ)
put bytes none = none
put bytes (some rest) = some (bytes ++ rest)

-- The loop, over the results of its writes, which it reads while bytes remain: the bytes in the pipe
-- at its end, `none` as long as it goes on. A write takes no more than what remains.
unfoldable pub write_loop : List ℕ → List WriteResult → Option (List ℕ)
write_loop [] results = some []
write_loop (b ∷ rem) [] = none
write_loop (b ∷ rem) (wrote n ∷ results) =
    put (take n (b ∷ rem)) (write_loop (drop n (b ∷ rem)) results)
write_loop (b ∷ rem) (interrupted ∷ results) = write_loop (b ∷ rem) results
write_loop (b ∷ rem) (failed ∷ results) = some []

-- `utf8` is the cached text, NULL or not.
unfoldable pub source_send : Option (List ℕ) → List WriteResult → Option (List ℕ)
unfolding write_loop
source_send none results = some []
source_send (some utf8) results = write_loop utf8 results

-- No error but interruptions, and counts that reach the length.
abbrev pub progress : List WriteResult → ℕ
progress [] = 0
progress (wrote n ∷ results) = n + progress results
progress (interrupted ∷ results) = progress results
progress (failed ∷ results) = 0

abbrev pub NoFailure : List WriteResult → Type 0
NoFailure [] = Unit
NoFailure (wrote n ∷ results) = NoFailure results
NoFailure (interrupted ∷ results) = NoFailure results
NoFailure (failed ∷ results) = ⊥

put_rest :
    (bytes rest all : List ℕ) (o : Option (List ℕ))
    → o ≡ some rest
    → bytes ++ rest ≡ all
    → put bytes o ≡ some all
put_rest bytes rest all o e a = ap (put bytes) e ∙ ap some a

write_all :
    (bytes : List ℕ) (results : List WriteResult)
    → NoFailure results
    → length bytes ≤ progress results
    → write_loop bytes results ≡ some bytes
unfolding write_loop
write_all [] results ok enough = refl
write_all (b ∷ rem) [] ok enough = absurd (omega arith)
write_all (b ∷ rem) (wrote n ∷ results) ok enough =
    put_rest (take n (b ∷ rem)) (drop n (b ∷ rem)) (b ∷ rem) (write_loop (drop n (b ∷ rem)) results)
      (write_all (drop n (b ∷ rem)) results ok (omega (arith, length-drop n (b ∷ rem))))
      (take-append-drop n (b ∷ rem))
write_all (b ∷ rem) (interrupted ∷ results) ok enough = write_all (b ∷ rem) results ok enough
write_all (b ∷ rem) (failed ∷ results) ok enough = absurd ok

-- However short the writes are and however often they are interrupted, if none fails and together
-- they take the whole text, the source writes exactly the text, once and in order.
pub source_send_lem :
    (utf8 : List ℕ) (results : List WriteResult)
    → NoFailure results
    → length utf8 ≤ progress results
    → source_send (some utf8) results ≡ some utf8
unfolding source_send
source_send_lem utf8 results ok enough = write_all utf8 results ok enough
