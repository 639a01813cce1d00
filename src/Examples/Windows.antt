-- ===== src/Examples/Windows.antt =====
-- The window stack and the windows of a client: proxy/client.c.
use qwswayland.Prelude.{
  ℕ, ◌≤◌, ◌≡◌, refl, true, false, Option, none, some, List, [], ◌∷◌, ◌++◌, if◌then◌else◌, ◌==◌,
  length, map, flatten, arith,
}
use qwswayland.Prelude.Int.{pos, to_word}
use qwswayland.HashMap.{HashMap, assoc_map}
use qwswayland.Client.{
  Window, Request, window_max_children, qwswl_stack_raise_window, qwswl_reorder_toplevels,
}
use qwswayland.Client.Stack.{IsZoned, IsDistinct}
use qwswayland.Client.Order.{others, AtBoundary, raise_lem}
use qwswayland.Client.Reorder.{receive, without, surfaces_of, NoRepeat, reorder_toplevels_lem}
use qwswayland.Client.Windows.{Present, Client, qwswl_remove_window_from_client}
use qwswayland.Focus.{
  gain, lose, qwswl_window_set_focus, xdg_toplevel_configure, is_activated, forget_destroyed,
}
use qwswayland.Focus.Seen.{
  Happening, reports, configures, destroys, Views, history, Told, exact, Exact, OneByOne,
  OneByOne-step, focus_heard, focus_seen,
}
use qwswayland.Client.Windows.Lookup.{window_of, remove_window_lem}

abbrev plain : ℕ → ℕ → Window
plain address surface = record {
  address = address;
  qws_id = pos address;
  on_top = false;
  opacity = 255;
  win_flags = pos 1;
  geometry = [];
  visible_rects = [];
  parent = none;
  wl_surface = some surface;
  wl_subsurface = none;
  xdg_surface = none;
  zqt_shell_surface = some surface;
}

abbrev topmost : Window
topmost = record (plain 1 11) { on_top = true }

abbrev three_windows : List Window
three_windows = topmost ∷ plain 2 12 ∷ plain 3 13 ∷ []

three-IsZoned : IsZoned three_windows
three-IsZoned = (refl, tt)

three-IsDistinct : IsDistinct three_windows
three-IsDistinct = ((refl, (refl, tt)), ((refl, tt), (tt, tt)))

raise_lem_example :
    AtBoundary
      (others 3 three_windows)
      (plain 3 13)
      (qwswl_stack_raise_window three_windows (plain 3 13))
raise_lem_example = raise_lem three_windows (plain 3 13) three-IsDistinct three-IsZoned

-- A compositor that does what the request says.
abbrev to_front : List ℕ → ℕ → List ℕ
to_front order s = s ∷ without s order

surfaces-NoRepeat : NoRepeat (surfaces_of three_windows)
unfolding flatten map
surfaces-NoRepeat = ((refl, (refl, tt)), ((refl, tt), (tt, tt)))

surfaces-few : length (surfaces_of three_windows) ≤ window_max_children
unfolding flatten map
surfaces-few = omega arith

reorder_toplevels_lem_example :
    (requests : List Request) × (rest : List ℕ) × (qwswl_reorder_toplevels three_windows
      ≡ some requests)
    × (receive to_front (13 ∷ 12 ∷ 11 ∷ 99 ∷ []) requests ≡ surfaces_of three_windows ++ rest)
reorder_toplevels_lem_example =
    reorder_toplevels_lem to_front (λ order s. refl) three_windows (13 ∷ 12 ∷ 11 ∷ 99 ∷ [])
      surfaces-NoRepeat surfaces-few

abbrev windows : HashMap ℕ
windows = assoc_map ℕ

abbrev interests : HashMap Present
interests = assoc_map Present

-- A client with one window.
abbrev one_client : Client windows interests
one_client = record {
  fd = pos 4;
  client_id = pos 1;
  window_map = (to_word (pos 1), 1) ∷ [];
  window_stack = topmost ∷ [];
  next_window_id = pos 1000;
  subscriptions = [];
  app_name = none;
}

remove_window_lem_example :
    let after = qwswl_remove_window_from_client windows interests one_client (pos 1) in
    (window_of windows interests after (pos 1) ≡ none)
    × (if to_word (pos 1) == to_word (pos 2)
        then Unit
        else window_of windows interests after (pos 2)
          ≡ window_of windows interests one_client (pos 2))
    × (after.window_stack ≡ (elim (window_of windows interests one_client (pos 1)) [
      | none ↦ one_client.window_stack
      | some address ↦ others address one_client.window_stack
    ]))
remove_window_lem_example = remove_window_lem windows interests one_client (pos 1) (pos 2) (tt, tt)

-- Window 1 belongs to client 1, and windows 2 and 3 to client 2.
abbrev owner : ℕ → ℕ
owner window = if window == 1 then 1 else 2

-- Window 2 loses the focus, the seat focuses window 1 and leaves it, and the shell activates window 3.
abbrev some_time : List Happening
some_time =
    reports 2 false false true
    ∷ reports 1 false true true
    ∷ reports 1 false false true
    ∷ configures 3 (1 ∷ 4 ∷ [])
    ∷ destroys 2
    ∷ []

focus_heard_example :
    (state' : Option ℕ) × (views' : Views) × (history owner 4
        (some 2)
        (exact owner (some 2))
        some_time
      ≡ some (state', views'))
    × Told owner state' views'
focus_heard_example = focus_heard owner 4 (some 2) (exact owner (some 2)) some_time refl

some_time-OneByOne : OneByOne owner 4 (some 2) some_time
unfolding qwswl_window_set_focus xdg_toplevel_configure is_activated forget_destroyed
some_time-OneByOne =
    let rest2 = configures 3 (1 ∷ 4 ∷ []) ∷ destroys 2 ∷ [] in
    let rest3 = reports 1 false false true ∷ rest2 in
    OneByOne-step owner 4 (some 2) (reports 2 false false true) (reports 1 false true true ∷ rest3)
      (none, lose 2 ∷ []) refl tt
      (OneByOne-step owner 4 none (reports 1 false true true) rest3 (some 1, gain 1 ∷ []) refl tt
        (OneByOne-step owner 4 (some 1) (reports 1 false false true) rest2 (none, lose 1 ∷ []) refl
          tt
          (OneByOne-step owner 4 none (configures 3 (1 ∷ 4 ∷ [])) (destroys 2 ∷ [])
            (some 3, gain 3 ∷ []) refl tt
            (OneByOne-step owner 4 (some 3) (destroys 2) [] (some 3, []) refl tt tt))))

focus_seen_example :
    (state' : Option ℕ) × (views' : Views) × (history owner 4
        (some 2)
        (exact owner (some 2))
        some_time
      ≡ some (state', views'))
    × Exact owner state' views'
focus_seen_example =
    focus_seen owner 4 (some 2) (exact owner (some 2)) some_time some_time-OneByOne (λ c. refl)
