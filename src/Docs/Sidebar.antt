-- ===== src/Docs/Sidebar.antt =====
-- What the sidebar shows of the section that is read.
use any_gateway.Base.{
  ◌≡◌, refl, sym, ◌∙◌, ap, Bool, true, false, ◌||◌, Option, none, some, List, [], ◌∷◌, ◌++◌, map,
  arith, Bool-cases, inl, inr, ◌⊎◌, if◌then◌else◌,
}
use any_gateway.Base.Text.{Text, is_empty, text_eq, text_eq_refl}
use any_gateway.Base.Dict.{Dict, has, has-append, get-put}
use any_gateway.Docs.{
  Section, section, Sections, nil, cons, id_of, flat_sections, ids, has_child, find_parent_id, Page,
  is_expanded, expand, expand_parent, set_active, displayed,
}

-- Sections that have no children of their own.
abbrev pub AreLeaves : Sections → Type 0
AreLeaves nil = Unit
AreLeaves (cons (section id label cs) rest) = (cs ≡ nil) × AreLeaves rest

-- Sections with names, of two levels at most.
abbrev pub AreTwoLevels : Sections → Type 0
AreTwoLevels nil = Unit
AreTwoLevels (cons (section id label cs) rest) =
    AreLeaves cs × (is_empty id ≡ false) × AreTwoLevels rest

has-ids : (cs : Sections) (k : Text) → has (ids cs) k ≡ has_child cs k
unfolding has
has-ids nil k = refl
has-ids (cons (section id label cs) rest) k = let more = has-ids rest k in ground arith

flat-leaves : (cs : Sections) → AreLeaves cs → map id_of (flat_sections cs) ≡ ids cs
unfolding flat_sections
flat-leaves nil h = refl
flat-leaves (cons (section id label cs) rest) (e, h) =
    rw e (ap (λ (r : List Text). id ∷ r) (flat-leaves rest h))

map-append : (xs ys : List Section) → map id_of (xs ++ ys) ≡ map id_of xs ++ map id_of ys
map-append [] ys = refl
map-append (x ∷ xs) ys = ap (λ (r : List Text). id_of x ∷ r) (map-append xs ys)

is_some : Option Text → Bool
is_some none = false
is_some (some t) = true

-- A section of the flat list stands on the first level, or has a parent there.
has-flat :
    (items : Sections) (k : Text)
    → AreTwoLevels items
    → has (map id_of (flat_sections items)) k ≡ true
    → (has (ids items) k ≡ true) ⊎ ((p : Text) × (find_parent_id items k ≡ some p))
unfolding flat_sections has find_parent_id
has-flat nil k h f = absurd cc
has-flat (cons (section id label cs) rest) k (l, n, h) f = elim (Bool-cases (has_child cs k)) [
  | inl e ↦ inr (id, rw e refl)
  | inr e ↦
      let apart = map-append (flat_sections cs) (flat_sections rest) in
      let leaves = flat-leaves cs l in
      let parts = has-append (ids cs) (map id_of (flat_sections rest)) k in
      let inner = has-ids cs k in
      let later : (text_eq id k || has (map id_of (flat_sections rest)) k) ≡ true =
        ap (λ b. text_eq id k || b)
          (sym (
            ap (λ ts. has ts k) (apart ∙ ap (λ ts. ts ++ map id_of (flat_sections rest)) leaves)
            ∙ parts
            ∙ ap (λ b. b || has (map id_of (flat_sections rest)) k) (inner ∙ e)))
        ∙ f in
      elim (Bool-cases (text_eq id k)) [
        | inl q ↦ inl (rw q refl)
        | inr q ↦ below e q (has-flat rest k h (ground arith))
      ]
]
  where
    below :
        has_child cs k ≡ false
        → text_eq id k ≡ false
        → (has (ids rest) k ≡ true) ⊎ ((p : Text) × (find_parent_id rest k ≡ some p))
        → ((text_eq id k || has (ids rest) k) ≡ true)
          ⊎ ((p : Text) × ((if has_child cs k then some id else find_parent_id rest k) ≡ some p))
    below e q (inl a) = inl (rw q a)
    below e q (inr (p, b)) = inr (p, rw e b)

-- The sidebar shows the first level, and the children of what is expanded.
displayed-ids :
    (items : Sections) (d : Dict Bool) (k : Text)
    → has (ids items) k ≡ true
    → has (displayed items d) k ≡ true
unfolding displayed has
displayed-ids nil d k h = absurd cc
displayed-ids (cons (section id label cs) rest) d k h = elim (Bool-cases (text_eq id k)) [
  | inl e ↦ rw e refl
  | inr e ↦
      let more = displayed-ids rest d k (ground arith) in
      rw (has-append (if is_expanded id d then ids cs else []) (displayed rest d) k, more)
        (ground arith)
]

displayed-child :
    (items : Sections) (d : Dict Bool) (k p : Text)
    → find_parent_id items k ≡ some p
    → is_expanded p d ≡ true
    → has (displayed items d) k ≡ true
unfolding displayed has find_parent_id
displayed-child nil d k p h o = absurd cc
displayed-child (cons (section id label cs) rest) d k p h o = elim (Bool-cases (has_child cs k)) [
  | inl e ↦
      let same : some id ≡ some p =
        ap (λ b. if b then some id else find_parent_id rest k) (sym e) ∙ h in
      let names : id ≡ p = ground arith in
      let open' : is_expanded id d ≡ true = ap (λ t. is_expanded t d) names ∙ o in
      let inner = has-ids cs k in
      rw (open', has-append (ids cs) (displayed rest d) k, inner, e) (ground arith)
  | inr e ↦
      let later : find_parent_id rest k ≡ some p =
        ap (λ b. if b then some id else find_parent_id rest k) (sym e) ∙ h in
      let more = displayed-child rest d k p later o in
      rw (has-append (if is_expanded id d then ids cs else []) (displayed rest d) k, more)
        (ground arith)
]

find_parent_id-filled :
    (items : Sections) (k p : Text)
    → AreTwoLevels items
    → find_parent_id items k ≡ some p
    → is_empty p ≡ false
unfolding find_parent_id
find_parent_id-filled nil k p h e = absurd cc
find_parent_id-filled (cons (section id label cs) rest) k p (l, n, h) e =
    elim (Bool-cases (has_child cs k)) [
      | inl c ↦
          let same : some id ≡ some p =
            ap (λ b. if b then some id else find_parent_id rest k) (sym c) ∙ e in
          let names : id ≡ p = ground arith in sym (ap is_empty names) ∙ n
      | inr c ↦
          find_parent_id-filled rest k p h
            (ap (λ b. if b then some id else find_parent_id rest k) (sym c) ∙ e)
    ]

is_expanded-expand :
    (p : Text) (s : Page) → is_empty p ≡ false → is_expanded p (expand (some p) s).expanded ≡ true
is_expanded-expand p s n = elim (Bool-cases (is_expanded p s.expanded)) [
  | inl e ↦ rw (n, e) e
  | inr e ↦ rw (n, e, get-put p p true s.expanded, text_eq_refl p) refl
]

-- When another section than before becomes the active one, by a click, by an address or because it
-- came into sight, and it is one of the sections, of two levels at most, that the flat list has:
-- the sidebar shows its entry, whichever groups were closed before.
pub set_active-displayed :
    (items : Sections) (k : Text) (s : Page)
    → AreTwoLevels items
    → has (map id_of (flat_sections items)) k ≡ true
    → text_eq k s.active_id ≡ false
    → has (displayed items (set_active items k s).expanded) k ≡ true
unfolding set_active expand_parent
set_active-displayed items k s h f new = rw new (shown (has-flat items k h f))
  where
    shown :
        (has (ids items) k ≡ true) ⊎ ((p : Text) × (find_parent_id items k ≡ some p))
        → has
            (displayed items
              (expand (find_parent_id items k) (record s { active_id = k })).expanded)
            k
          ≡ true
    shown (inl a) = displayed-ids items _ k a
    shown (inr (p, e)) = rw e (
        displayed-child items _ k p e
          (is_expanded-expand p (record s { active_id = k }) (find_parent_id-filled items k p h e)))
