-- ===== src/Dashboard/Loading/Latest.antt =====
-- What the dashboard displays when it does not load: the answer to its latest load.
use mathlib.Core.Path.{subst}
use any_gateway.Base.{
  ℕ, suc, ◌+◌, ◌≡◌, refl, ap, sym, ◌∙◌, Bool, true, false, ◌==◌, Option, some, List, [], ◌∷◌, ◌++◌,
  ◌⊎◌, inl, inr, All, arith, Bool-cases, length, length-append, zero,
}
use any_gateway.Base.Text.{Text}
use any_gateway.Dashboard.{Deps, Page, Clock, Loaded, initial, deps_of, on_loaded}
use any_gateway.Dashboard.Loading.{
  same_deps, Load, World, cancel, run_effect, rendered, act, finish_load, start, replied, Step,
  acted, answered, Reach, here, next,
}
use any_gateway.Dashboard.Loading.Comparing.{same_deps_refl, same_deps_sound}
use any_gateway.Dashboard.Loading.Kept.{
  shown_of, shown_from, deps-on_loaded, shown-on_loaded, loading-on_loaded, SamePage, SamePage-act,
}

-- A load that waits for its reply and is not cancelled.
abbrev pub Awaits : List Load → Type 0
Awaits [] = ⊥
Awaits (l ∷ ls) = (l.cancelled ≡ false) ⊎ Awaits ls

-- A load that is not cancelled is the latest one, for what the page asks now.
abbrev IsLatest : ℕ → Deps → Load → Type 0
IsLatest run deps l = l.cancelled ≡ false → (l.number ≡ run) × (l.deps ≡ deps)

All-cancel :
    (run : ℕ) (deps : Deps) (n : ℕ) (new : Deps) (ls : List Load)
    → All (IsLatest run deps) ls
    → All (IsLatest n new) (cancel run ls)
unfolding cancel
All-cancel run deps n new [] h = tt
All-cancel run deps n new (l ∷ ls) (k, h) = elim (Bool-cases (l.number == run)) [
  | inl e ↦ rw e ((λ c. absurd cc), All-cancel run deps n new ls h)
  | inr e ↦ rw e ((λ c. absurd (let m = (k c).0 in ground arith)), All-cancel run deps n new ls h)
]

All-middle :
    (P : Load → Type 0) (before after : List Load) (l : Load)
    → All P (before ++ l ∷ after)
    → P l × All P (before ++ after)
All-middle P [] after l (k, h) = (k, h)
All-middle P (b ∷ before) after l (k, h) = let r = All-middle P before after l h in (r.0, (k, r.1))

Awaits-middle :
    (before after : List Load) (l : Load)
    → l.cancelled ≡ true
    → Awaits (before ++ l ∷ after)
    → Awaits (before ++ after)
Awaits-middle [] after l c (inl e) = absurd cc
Awaits-middle [] after l c (inr h) = h
Awaits-middle (b ∷ before) after l c (inl e) = inl e
Awaits-middle (b ∷ before) after l c (inr h) = inr (Awaits-middle before after l c h)

Awaits-found :
    (ls : List Load)
    → Awaits ls
    → (before : List Load) × (l : Load) × (after : List Load) × (ls ≡ before ++ l ∷ after)
      × (l.cancelled ≡ false)
Awaits-found [] h = elim h [ ]
Awaits-found (l ∷ ls) (inl e) = ([], l, ls, refl, e)
Awaits-found (l ∷ ls) (inr h) =
    let (before, k, after, e, c) = Awaits-found ls h in
    (l ∷ before, k, after, ap (λ (r : List Load). l ∷ r) e, c)

module _ (today : Text) (c : Clock) (is_admin : Bool) (server : ℕ → Deps → Option Loaded) where
  -- Only the latest load can still change the page; while the page loads, it is awaited; else the
  -- page shows its answer.
  abbrev IsCurrent : World → Type 0
  IsCurrent w =
      All (IsLatest w.run (deps_of w.page)) w.loads
      × (w.page.loading ≡ true → Awaits w.loads)
      × (w.page.loading ≡ false
          → (d : Loaded) → server w.run (deps_of w.page) ≡ some d
          → shown_of w.page ≡ shown_from d)

  IsCurrent-run_effect :
      (w : World) (deps : Deps) → All (IsLatest w.run deps) w.loads → IsCurrent (run_effect w)
  unfolding run_effect
  IsCurrent-run_effect w deps h = (
    ((λ l. (refl, refl)), All-cancel w.run deps (suc w.run) (deps_of w.page) w.loads h),
    (λ l. inl refl),
    λ l. absurd cc,
  )

  IsCurrent-rendered :
      (p : Page) (w : World) → SamePage p w.page → IsCurrent w → IsCurrent (rendered p w)
  unfolding rendered
  IsCurrent-rendered p w (l, s) (h, k, m) =
      elim (Bool-cases (same_deps (deps_of w.page) (deps_of p))) [
        | inr e ↦ rw e (IsCurrent-run_effect (record w { page = p }) (deps_of w.page) h)
        | inl e ↦
            let same = same_deps_sound (deps_of w.page) (deps_of p) e in
            rw e (
              subst (λ d. All (IsLatest w.run d) w.loads) same h,
              (λ q. k (sym l ∙ q)),
              λ q d a. s ∙ m (sym l ∙ q) d (ap (server w.run) same ∙ a),
            )
      ]

  IsCurrent-replied :
      (before after : List Load) (l : Load) (w : World)
      → w.loads ≡ before ++ l ∷ after
      → IsCurrent w
      → IsCurrent (replied (before ++ after) (server l.number l.deps) l w)
  unfolding rendered finish_load
  IsCurrent-replied before after l w e (h, k, m) =
      let (latest, rest) =
        All-middle (IsLatest w.run (deps_of w.page)) before after l
          (subst (λ ls. All (IsLatest w.run (deps_of w.page)) ls) e h) in
      elim (Bool-cases l.cancelled) [
        | inl c ↦
            rw (c, same_deps_refl (deps_of w.page))
              (rest, (λ q. Awaits-middle before after l c (subst Awaits e (k q))), m)
        | inr c ↦
            let (n, d) = latest c in
            let answer = server l.number l.deps in
            let same = deps-on_loaded answer w.page in
            rw (c, same, same_deps_refl (deps_of w.page))
              (
                subst (λ x. All (IsLatest w.run x) (before ++ after)) (sym same) rest,
                (λ q. absurd (let f = loading-on_loaded answer w.page in cc)),
                λ q x a.
                    let asked : answer ≡ server w.run (deps_of w.page) = λ i. server (n i) (d i) in
                    let same_answer = asked ∙ (ap (server w.run) (sym same) ∙ a) in
                    ap (λ o. shown_of (on_loaded o w.page).0) same_answer
                    ∙ shown-on_loaded x w.page,
              )
      ]

  Step-IsCurrent : {u v : World} → Step today c is_admin server u v → IsCurrent u → IsCurrent v
  Step-IsCurrent (acted a w) h =
      IsCurrent-rendered (act today c is_admin a w.page) w (SamePage-act today c is_admin a w.page)
        h
  Step-IsCurrent (answered before after l w e) h = IsCurrent-replied before after l w e h

  Reach-IsCurrent : {w v : World} → Reach today c is_admin server w v → IsCurrent w → IsCurrent v
  Reach-IsCurrent here h = h
  Reach-IsCurrent (next r st) h = Step-IsCurrent st (Reach-IsCurrent r h)

  start-IsCurrent : IsCurrent (start today)
  start-IsCurrent =
      IsCurrent-run_effect (record { page = initial today; loads = []; run = 0 })
        (deps_of (initial today)) tt

  -- Whatever the user does behind the first display, in whatever order the replies come, and however
  -- each load is answered: whenever the page does not load, and the requests of its latest load, for
  -- the filters, pages and sorting of now, were answered, it displays that answer.
  pub Reach-shown :
      (w : World)
      → Reach today c is_admin server (start today) w
      → w.page.loading ≡ false
      → (d : Loaded) → server w.run (deps_of w.page) ≡ some d
      → shown_of w.page ≡ shown_from d
  Reach-shown w r = (Reach-IsCurrent r start-IsCurrent).2

  loading-replied :
      (before after : List Load) (l : Load) (w : World)
      → l.cancelled ≡ false
      → ((replied (before ++ after) (server l.number l.deps) l w).page.loading ≡ false)
        × (deps_of (replied (before ++ after) (server l.number l.deps) l w).page ≡ deps_of w.page)
  unfolding rendered finish_load
  loading-replied before after l w e =
      let answer = server l.number l.deps in
      let same = deps-on_loaded answer w.page in
      rw (e, same, same_deps_refl (deps_of w.page)) (loading-on_loaded answer w.page, same)

  settled :
      (w : World)
      → Reach today c is_admin server (start today) w
      → w.page.loading ≡ true
      → (v : World) × Step today c is_admin server w v
        × (v.page.loading ≡ false)
        × (deps_of v.page ≡ deps_of w.page)
  settled w r q =
      let (before, l, after, e, a) =
        Awaits-found w.loads ((Reach-IsCurrent r start-IsCurrent).1 q) in
      (
        replied (before ++ after) (server l.number l.deps) l w,
        answered before after l w e,
        (loading-replied before after l w a).0,
        (loading-replied before after l w a).1,
      )

  -- From every state that can be reached, whatever the replies that still wait say, a single one of
  -- them ends the loading if there is any, and what the page asks for stays.
  pub Reach-settles :
      (w : World)
      → Reach today c is_admin server (start today) w
      → (w.page.loading ≡ false)
        ⊎ ((v : World) × Step today c is_admin server w v
            × (v.page.loading ≡ false)
            × (deps_of v.page ≡ deps_of w.page))
  Reach-settles w r = elim (Bool-cases w.page.loading) [
    | inr q ↦ inl q
    | inl q ↦ inr (settled w r q)
  ]

  -- Replies and nothing else, as many of them as the number says.
  pub data Replies (w : World) : ℕ → World → Type 0 where
    none_more : Replies w 0 w
    one_more :
        (n : ℕ) (v : World) (before after : List Load) (l : Load)
        → Replies w n v
        → v.loads ≡ before ++ l ∷ after
        → Replies w (suc n) (replied (before ++ after) (server l.number l.deps) l v)

  replied-loads :
      (rest : List Load) (answer : Option Loaded) (l : Load) (w : World)
      → ((replied rest answer l w).loads ≡ rest) × ((replied rest answer l w).run ≡ w.run)
  unfolding rendered finish_load
  replied-loads rest answer l w = elim (Bool-cases l.cancelled) [
    | inl e ↦ rw (e, same_deps_refl (deps_of w.page)) (refl, refl)
    | inr e ↦
        let same = deps-on_loaded answer w.page in
        rw (e, same, same_deps_refl (deps_of w.page)) (refl, refl)
  ]

  -- A reply starts no load: behind any number of replies just so many loads fewer wait, and no
  -- run of the effect was added. So replies alone come to an end.
  pub Replies-end :
      (n : ℕ) (w v : World)
      → Replies w n v
      → (length v.loads + n ≡ length w.loads) × (v.run ≡ w.run)
  Replies-end zero w v none_more = (omega arith, refl)
  Replies-end (suc n) w v (one_more _ u before after l r e) =
      let (fewer, run) = Replies-end n w u r in
      let (loads, same) = replied-loads (before ++ after) (server l.number l.deps) l u in
      let one = ap (λ (ls : List Load). length ls) e in
      (
        rw loads (
            let x = length-append before after in
            let y = length-append before (l ∷ after) in omega arith),
        same ∙ run,
      )
