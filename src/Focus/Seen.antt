-- ===== src/Focus/Seen.antt =====
-- The focus as each client sees it, through the events of proxy/window.c and its own windows.
use qwswayland.Prelude.{
  ℕ, ◌≡◌, refl, sym, ap, ◌∙◌, ◌⊎◌, inl, inr, Bool, true, false, Option, none, some, List, [], ◌∷◌,
  ◌==◌, ==_iff, ◌>>=◌, if◌then◌else◌, arith, Bool-cases, subst, some-inj,
}
use qwswayland.Prelude.Int.{pos}
use qwswayland.Focus.{
  FocusEvent, gain, lose, is_focused, qwswl_window_set_focus, xdg_toplevel_configure, is_activated,
  forget_destroyed,
}

-- What happens to the focus: a report of the seat or the shell, a configuration by the compositor that
-- leaves the size to the client, or the end of a window.
pub data Happening : Type 0 where
  reports : ℕ → Bool → Bool → Bool → Happening
  configures : ℕ → List ℕ → Happening
  destroys : ℕ → Happening

-- The proxy: its focused window and the events.
abbrev pub happens : ℕ → Option ℕ → Happening → Option (Option ℕ × List FocusEvent)
happens activated state (reports win xdg focused from_seat) =
    some (qwswl_window_set_focus state win xdg focused from_seat)
happens activated state (configures win states) =
    xdg_toplevel_configure activated state win (pos 0) (pos 0) states
happens activated state (destroys win) = some (forget_destroyed state win, [])

-- The window that each client takes for the focused one.
abbrev pub Views : Type 0
Views = ℕ → Option ℕ

-- The window that would gain the focus.
abbrev pub gains : ℕ → Happening → Option ℕ
gains activated (reports win xdg focused from_seat) = if focused then some win else none
gains activated (configures win states) = if is_activated activated states then some win else none
gains activated (destroys win) = none

set_focus_cases :
    (state : Option ℕ) (win : ℕ) (xdg focused from_seat : Bool)
    → let r = qwswl_window_set_focus state win xdg focused from_seat in
      (r ≡ (state, []))
      ⊎ (((r ≡ (some win, gain win ∷ [])) × (focused ≡ true))
          ⊎ ((r ≡ (none, lose win ∷ [])) × (is_focused state win ≡ true)))
unfolding qwswl_window_set_focus
set_focus_cases state win xdg true from_seat = elim (Bool-cases (is_focused state win)) [
  | inl f ↦ inl (ground (arith, f))
  | inr f ↦ inr (inl (ground (arith, f), refl))
]
set_focus_cases state win xdg false from_seat = elim (Bool-cases (is_focused state win)) [
  | inr f ↦ inl (ground (arith, f))
  | inl f ↦ last xdg from_seat f
]
  where
    last :
        (xdg from_seat : Bool)
        → is_focused state win ≡ true
        → (qwswl_window_set_focus state win xdg false from_seat ≡ (state, []))
          ⊎ (((qwswl_window_set_focus state win xdg false from_seat ≡ (some win, gain win ∷ []))
                × (false ≡ true))
              ⊎ ((qwswl_window_set_focus state win xdg false from_seat ≡ (none, lose win ∷ []))
                  × (is_focused state win ≡ true)))
    last true true f = inl refl
    last true false f = inr (inr (ground (arith, f), f))
    last false true f = inr (inr (ground (arith, f), f))
    last false false f = inr (inr (ground (arith, f), f))

focused_is : (state : Option ℕ) (win : ℕ) → is_focused state win ≡ true → state ≡ some win
focused_is none win e = cc
focused_is (some f) win e = ap some ((==_iff f win).0 e)

-- `owner` gives the client of a window.
module _ (owner : ℕ → ℕ) where
  -- Only the window's client hears the event: a gain takes the focus from its other windows.
  abbrev pub sees : Views → FocusEvent → Views
  sees views (gain win) c = if c == owner win then some win else views c
  sees views (lose win) c =
      if (c == owner win) then (if is_focused (views c) win then none else views c) else views c

  abbrev pub sees_all : Views → List FocusEvent → Views
  sees_all views [] = views
  sees_all views (e ∷ es) = sees_all (sees views e) es

  -- A window that is gone has no focus.
  abbrev pub own_windows : Views → Happening → Views
  own_windows views (destroys win) c = if is_focused (views c) win then none else views c
  own_windows views (reports win xdg focused from_seat) c = views c
  own_windows views (configures win states) c = views c

  -- The focused window and the views after a history.
  abbrev pub history : ℕ → Option ℕ → Views → List Happening → Option (Option ℕ × Views)
  history activated state views [] = some (state, views)
  history activated state views (h ∷ hs) = happens activated state h >>= λ done.
      history activated done.0 (sees_all (own_windows views h) done.1) hs

  -- The client of the focused window takes it for the focused one.
  abbrev pub Told : Option ℕ → Views → Type 0
  Told none views = Unit
  Told (some win) views = views (owner win) ≡ some win

  -- Every client takes the focused window for the focused one if it is its own, and else none.
  abbrev pub exact : Option ℕ → Views
  exact none c = none
  exact (some f) c = if c == owner f then some f else none

  abbrev pub Exact : Option ℕ → Views → Type 0
  Exact state views = (c : ℕ) → views c ≡ exact state c

  -- A window gains the focus while no window of another client has it.
  abbrev pub Free : Option ℕ → Option ℕ → Type 0
  Free state none = Unit
  Free none (some win) = Unit
  Free (some f) (some win) = owner f ≡ owner win

  abbrev pub OneByOne : ℕ → Option ℕ → List Happening → Type 0
  OneByOne activated state [] = Unit
  OneByOne activated state (h ∷ hs) =
      Free state (gains activated h)
      × ((next : Option ℕ × List FocusEvent)
          → happens activated state h ≡ some next
          → OneByOne activated next.0 hs)

  Told-gain : (views : Views) (win : ℕ) → Told (some win) (sees views (gain win))
  Told-gain views win = rw ((==_iff (owner win) (owner win)).1 refl) refl

  Told-destroy :
      (state : Option ℕ) (views : Views) (win : ℕ)
      → Told state views
      → Told (forget_destroyed state win) (own_windows views (destroys win))
  unfolding forget_destroyed
  Told-destroy none views win t = tt
  Told-destroy (some f) views win t = elim (Bool-cases (f == win)) [
    | inl e ↦ rw e tt
    | inr e ↦ rw e (rw t (rw e refl))
  ]

  Exact-gain :
      (state : Option ℕ) (views : Views) (win : ℕ)
      → Free state (some win)
      → Exact state views
      → Exact (some win) (sees views (gain win))
  Exact-gain none views win free x c = ap (λ v. if c == owner win then some win else v) (x c)
  Exact-gain (some f) views win free x c = elim (Bool-cases (c == owner win)) [
    | inl e ↦ rw e refl
    | inr e ↦ rw e (x c ∙ ap (λ k. if c == k then some f else none) free ∙ rw e refl)
  ]

  Exact-lose :
      (views : Views) (win : ℕ) → Exact (some win) views → Exact none (sees views (lose win))
  Exact-lose views win x c = elim (Bool-cases (c == owner win)) [
    | inl e ↦
        let has : views c ≡ some win = x c ∙ rw e refl in
        rw e (rw has (rw ((==_iff win win).1 refl) refl))
    | inr e ↦ rw e (x c ∙ rw e refl)
  ]

  Exact-destroy :
      (state : Option ℕ) (views : Views) (win : ℕ)
      → Exact state views
      → Exact (forget_destroyed state win) (own_windows views (destroys win))
  unfolding forget_destroyed
  Exact-destroy none views win x c = rw (x c) refl
  Exact-destroy (some f) views win x c = elim (Bool-cases (f == win)) [
    | inl e ↦ elim (Bool-cases (c == owner f)) [
      | inl o ↦ let has : views c ≡ some f = x c ∙ rw o refl in rw e (rw has (rw e refl))
      | inr o ↦ let has : views c ≡ none = x c ∙ rw o refl in rw e (rw has refl)
    ]
    | inr e ↦ elim (Bool-cases (c == owner f)) [
      | inl o ↦ let has : views c ≡ some f = x c ∙ rw o refl in rw (e, o) (rw has (rw e refl))
      | inr o ↦ let has : views c ≡ none = x c ∙ rw o refl in rw (e, o) (rw has refl)
    ]
  ]

  -- What one happening does to the proxy and to the views.
  abbrev Keeps : Option ℕ → Option ℕ → Views → Option ℕ × List FocusEvent → Type 0
  Keeps state gained views next =
      (Told state views → Told next.0 (sees_all views next.1))
      × (Free state gained → Exact state views → Exact next.0 (sees_all views next.1))

  set_focus-Keeps :
      (state : Option ℕ) (views : Views) (win : ℕ) (xdg focused from_seat : Bool)
      → Keeps state
          (if focused then some win else none)
          views
          (qwswl_window_set_focus state win xdg focused from_seat)
  set_focus-Keeps state views win xdg focused from_seat =
      let gained : Option ℕ = (if focused then some win else none) in
      elim (set_focus_cases state win xdg focused from_seat) [
        | inl e ↦ subst (Keeps state gained views) (sym e) (λ t. t, λ f x. x)
        | inr (inl (e, on)) ↦ subst (Keeps state gained views) (sym e) (
          λ t. Told-gain views win,
          λ f x.
              Exact-gain state views win
                (subst (λ b. Free state (if b then some win else none)) on f) x,
        )
        | inr (inr (e, has)) ↦ subst (Keeps state gained views) (sym e) (
          λ t. tt,
          λ f x. Exact-lose views win (subst (λ o. Exact o views) (focused_is state win has) x),
        )
      ]

  happens-Keeps :
      (activated : ℕ) (state : Option ℕ) (views : Views) (h : Happening)
      → (next : Option ℕ × List FocusEvent) × (happens activated state h ≡ some next)
        × (Told state views → Told next.0 (sees_all (own_windows views h) next.1))
        × (Free state (gains activated h)
            → Exact state views
            → Exact next.0 (sees_all (own_windows views h) next.1))
  unfolding xdg_toplevel_configure
  happens-Keeps activated state views (reports win xdg focused from_seat) =
      let (told, is_exact) = set_focus-Keeps state views win xdg focused from_seat in
      (qwswl_window_set_focus state win xdg focused from_seat, refl, told, is_exact)
  happens-Keeps activated state views (configures win states) =
      let on = is_activated activated states in
      let (told, is_exact) = set_focus-Keeps state views win true on false in
      (qwswl_window_set_focus state win true on false, refl, told, is_exact)
  happens-Keeps activated state views (destroys win) = (
    (forget_destroyed state win, []),
    refl,
    Told-destroy state views win,
    λ f x. Exact-destroy state views win x,
  )

  -- What a history does.
  history-Keeps :
      (activated : ℕ) (state : Option ℕ) (views : Views) (hs : List Happening)
      → (state' : Option ℕ) × (views' : Views) × (history activated state views hs
          ≡ some (state', views'))
        × (Told state views → Told state' views')
        × (OneByOne activated state hs → Exact state views → Exact state' views')
  history-Keeps activated state views [] = (state, views, refl, λ t. t, λ o x. x)
  history-Keeps activated state views (h ∷ hs) =
      let (next, e, told, is_exact) = happens-Keeps activated state views h in
      let (state', views', run, told', is_exact') =
        history-Keeps activated next.0 (sees_all (own_windows views h) next.1) hs in
      (
        state',
        views',
        ap (λ o. o >>= λ done. history activated done.0 (sees_all (own_windows views h) done.1) hs)
              e
            ∙ run,
        λ t. told' (told t),
        λ o x. is_exact' (o.1 next e) (is_exact o.0 x),
      )

  -- A history that begins with what is known to happen.
  pub OneByOne-step :
      (activated : ℕ) (state : Option ℕ) (h : Happening) (hs : List Happening)
      (next : Option ℕ × List FocusEvent)
      → happens activated state h ≡ some next
      → Free state (gains activated h)
      → OneByOne activated next.0 hs
      → OneByOne activated state (h ∷ hs)
  OneByOne-step activated state h hs next e free rest =
      (free, λ n r. subst (λ m. OneByOne activated m.0 hs) (some-inj (sym e ∙ r)) rest)

  -- If the client of the focused window takes it for the focused one, from the events of its own
  -- windows, then this is so again after any sequence of reports, configurations that leave the
  -- size to the client, and ends of windows, whatever windows of other clients have the focus in
  -- between.
  pub focus_heard :
      (activated : ℕ) (state : Option ℕ) (views : Views) (hs : List Happening)
      → Told state views
      → (state' : Option ℕ) × (views' : Views) × (history activated state views hs
          ≡ some (state', views'))
        × Told state' views'
  focus_heard activated state views hs t =
      let (state', views', run, told, is_exact) = history-Keeps activated state views hs in
      (state', views', run, told t)

  -- If windows gain the focus only while no window of another client has it, and every client takes
  -- the focused window for the focused one if it is its own, and else none, then this is so again
  -- after any sequence of reports, configurations that leave the size to the client, and ends of
  -- windows, where a client knows only the events of its own windows and which of them have ended.
  pub focus_seen :
      (activated : ℕ) (state : Option ℕ) (views : Views) (hs : List Happening)
      → OneByOne activated state hs
      → Exact state views
      → (state' : Option ℕ) × (views' : Views) × (history activated state views hs
          ≡ some (state', views'))
        × Exact state' views'
  focus_seen activated state views hs o x =
      let (state', views', run, told, is_exact) = history-Keeps activated state views hs in
      (state', views', run, is_exact o x)
