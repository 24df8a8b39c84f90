-- ===== src/Logs/Page/Details.antt =====
-- The details of the logged requests: rows are opened and closed while replies are awaited.
use any_gateway.Base.{
  ℕ, suc, ◌≤◌, ap, ◌≡◌, refl, sym, ◌∙◌, Bool, true, false, ◌||◌, Option, none, some, List, [], ◌∷◌,
  ◌++◌, arith, if◌then◌else◌, Option-cases, Bool-cases, inl, inr,
}
use any_gateway.Base.Text.{Text, text_eq, text_eq_iff}
use any_gateway.Base.Dict.{
  Dict, has, get, put, keys, Distinct, has-keys-put, get-put, get-eq-none_iff,
}
use any_gateway.Api.{Call, Reply, fulfilled, rejected}
use any_gateway.Logs.Page.{MessagesCache, waiting, here, missing, handle_expand, finish_expand}

-- The cache, the records whose details were asked for, and those whose replies are awaited.
pub record World : Type 0 where
  pub cache : Dict MessagesCache
  pub asked : List Text
  pub pending : List Text

abbrev pub note : Text → Option Call → List Text → List Text
note id none ids = ids
note id (some c) ids = id ∷ ids

unfoldable pub expanded : Bool → Text → Bool → World → World
expanded is_admin id opened w =
    let (cache, request) = handle_expand is_admin id opened w.cache in
    record { cache = cache; asked = note id request w.asked; pending = note id request w.pending }

pub data Step : World → World → Type 0 where
  toggled :
      (is_admin : Bool) (id : Text) (opened : Bool) (w : World)
      → Step w (expanded is_admin id opened w)
  replied :
      (before after : List Text) (id : Text) (r : Reply) (w : World)
      → w.pending ≡ before ++ id ∷ after
      → Step w (record w { cache = finish_expand id r w.cache; pending = before ++ after })

pub data Reach (w : World) : World → Type 0 where
  start : Reach w w
  next : {u v : World} → Reach w u → Step u v → Reach w v

abbrev pub fresh : World
fresh = record { cache = []; asked = []; pending = [] }

-- The cache has the records that were asked for, and an entry that waits is awaited.
abbrev IsKept : World → Type 0
IsKept w =
    Distinct w.asked
    × ((id : Text) → has (keys w.cache) id ≡ has w.asked id)
    × ((id : Text) → get id w.cache ≡ some waiting → has w.pending id ≡ true)
    × ((id : Text) → has w.pending id ≡ true → has w.asked id ≡ true)

waiting-put :
    (id : Text) (w : World) (j : Text)
    → (get j w.cache ≡ some waiting → has w.pending j ≡ true)
    → get j (put id waiting w.cache) ≡ some waiting
    → has (id ∷ w.pending) j ≡ true
unfolding has
waiting-put id w j p g = elim (Bool-cases (text_eq id j)) [
  | inl e ↦ rw e refl
  | inr e ↦
      let same : get j (put id waiting w.cache) ≡ get j w.cache =
        get-put id j waiting w.cache ∙ rw e refl in
      let old = p (sym same ∙ g) in rw e old
]

expanded-IsKept :
    (is_admin : Bool) (id : Text) (opened : Bool) (w : World)
    → IsKept w
    → IsKept (expanded is_admin id opened w)
unfolding expanded handle_expand has
expanded-IsKept is_admin id false w h = h
expanded-IsKept is_admin id true w (d, k, p, q) = elim (Option-cases (get id w.cache)) [
  | inr (m, e) ↦ rw e (d, k, p, q)
  | inl e ↦
      let new : has w.asked id ≡ false = sym (k id) ∙ (get-eq-none_iff id w.cache).0 e in
      rw e (
        (new, d),
        (λ j. rw (has-keys-put id j waiting w.cache) (let s = k j in ground arith)),
        (λ j g. waiting-put id w j (p j) g),
        (λ j g. let s = q j in ground arith),
      )
]

abbrev IsSettled : MessagesCache → Type 0
IsSettled waiting = ⊥
IsSettled _ = Unit

settled-waiting :
    (id : Text) (m : MessagesCache) (d : Dict MessagesCache) (j : Text)
    → IsSettled m
    → get j (put id m d) ≡ some waiting
    → (text_eq id j ≡ false) × (get j d ≡ some waiting)
settled-waiting id m d j s g = elim (Bool-cases (text_eq id j)) [
  | inr e ↦ (e, sym (get-put id j m d ∙ rw e refl) ∙ g)
  | inl e ↦ absurd (go m s (sym (get-put id j m d ∙ rw e refl) ∙ g))
]
  where
    go : (m : MessagesCache) → IsSettled m → some m ≡ some waiting → ⊥
    go (here v) s e = cc
    go (missing v) s e = cc
    go waiting s e = s

has-middle :
    (before after : List Text) (id j : Text)
    → has (before ++ id ∷ after) j ≡ (text_eq id j || has (before ++ after) j)
unfolding has
has-middle [] after id j = refl
has-middle (k ∷ before) after id j = let rest = has-middle before after id j in ground arith

settled-IsKept :
    (m : MessagesCache) (before after : List Text) (id : Text) (w : World)
    → IsSettled m
    → w.pending ≡ before ++ id ∷ after
    → IsKept w
    → IsKept (record w { cache = put id m w.cache; pending = before ++ after })
settled-IsKept m before after id w s e (d, k, p, q) =
    let held = λ (j : Text). ap (λ (ids : List Text). has ids j) e ∙ has-middle before after id j in
    (
      d,
      (λ j. rw (has-keys-put id j m w.cache) (elim (Bool-cases (text_eq id j)) [
        | inl same ↦ rw same (sym (q j (held j ∙ rw same refl)))
        | inr other ↦ rw other (k j)
      ])),
      (λ j g.
          let (other, g') = settled-waiting id m w.cache j s g in
          let here' = held j in let old = p j g' in ground arith),
      (λ j g. let here' = held j in q j (ground arith)),
    )

finish_expand-IsKept :
    (before after : List Text) (id : Text) (r : Reply) (w : World)
    → w.pending ≡ before ++ id ∷ after
    → IsKept w
    → IsKept (record w { cache = finish_expand id r w.cache; pending = before ++ after })
unfolding finish_expand
finish_expand-IsKept before after id (fulfilled data') w e h =
    settled-IsKept (here data') before after id w tt e h
finish_expand-IsKept before after id (rejected detail) w e h =
    settled-IsKept (missing _) before after id w tt e h

Reach-IsKept : {w v : World} → Reach w v → IsKept w → IsKept v
Reach-IsKept start h = h
Reach-IsKept (next r (toggled is_admin id opened w)) h =
    expanded-IsKept is_admin id opened w (Reach-IsKept r h)
Reach-IsKept (next r (replied before after id reply w e)) h =
    finish_expand-IsKept before after id reply w e (Reach-IsKept r h)

-- How often a text stands in a list.
unfoldable pub count : Text → List Text → ℕ
count k [] = 0
count k (j ∷ js) = let rest = count k js in if text_eq j k then suc rest else rest

count-absent : (k : Text) (ks : List Text) → has ks k ≡ false → count k ks ≡ 0
unfolding has count
count-absent k [] h = refl
count-absent k (j ∷ ks) h = let rest = count-absent k ks (ground arith) in ground arith

count-Distinct : (k : Text) (ks : List Text) → Distinct ks → count k ks ≤ 1
unfolding count
count-Distinct k [] d = omega arith
count-Distinct k (j ∷ ks) (n, d) = elim (Bool-cases (text_eq j k)) [
  | inl e ↦
      let same = (text_eq_iff j k).0 e in
      rw (e, count-absent k ks (ap (λ i. has ks i) (sym same) ∙ n)) (omega arith)
  | inr e ↦ rw e (count-Distinct k ks d)
]

fresh-IsKept : IsKept fresh
unfolding has get
fresh-IsKept = (tt, (λ id. refl), (λ id g. absurd cc), λ id g. absurd cc)

-- However rows are opened and closed, and in whatever order replies come: the details of a record
-- are asked for at most once, whether the reply brings them or an error, and a row that shows that
-- it loads has its reply still to come.
pub count-asked :
    (w : World)
    → Reach fresh w
    → (id : Text)
    → (count id w.asked ≤ 1) × (get id w.cache ≡ some waiting → has w.pending id ≡ true)
count-asked w r id =
    let (d, k, p, q) = Reach-IsKept r fresh-IsKept in (count-Distinct id w.asked d, p id)
