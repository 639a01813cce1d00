-- ===== src/Dispatch/Identify/Ids.antt =====
-- The ids that a client has been given, in proxy/proxy.c and proxy/client.c.
use qwswayland.Prelude.{ℕ, ◌+◌, ◌<◌, ◌≡◌, Option, some, List, [], ◌∷◌, ◌++◌, ◌>>=◌}
use qwswayland.Prelude.Int.{pos}
use qwswayland.HashMap.{HashMap}
use qwswayland.Client.Windows.{Present, Client}
use qwswayland.Dispatch.Identify.{StartEvent, creation, create}

-- The creations are for these numbers of ids, and their ranges stand one behind the other, without
-- an overlap or a gap, above `low`.
abbrev pub Numbered : ℕ → List ℕ → List StartEvent → Type 0
Numbered low [] [] = Unit {0}
Numbered low (n ∷ counts) (creation first count ∷ events) =
    (first ≡ pos (low + 1)) × (count ≡ pos n) × Numbered (low + n) counts events
Numbered low counts events = ⊥

abbrev pub AllPositive : List ℕ → Type 0
AllPositive [] = Unit {0}
AllPositive (n ∷ counts) = (0 < n) × AllPositive counts

abbrev pub total : List ℕ → ℕ
total [] = 0
total (n ∷ counts) = n + total counts

module _ (windows : HashMap ℕ) (interests : HashMap Present) where
  -- The commands of one client, with all the events that it gets.
  abbrev pub creates :
      Client windows interests → List ℕ → Option (Client windows interests × List StartEvent)
  creates cl [] = some (cl, [])
  creates cl (n ∷ counts) = create windows interests cl (pos n) >>= λ made.
      creates made.0 counts >>= λ rest. some (rest.0, made.1 ++ rest.1)
