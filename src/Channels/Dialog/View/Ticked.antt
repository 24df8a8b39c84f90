-- ===== src/Channels/Dialog/View/Ticked.antt =====
-- Which rows the dialog displays, and which of them are ticked, behind its buttons.
use any_gateway.Base.{
  ◌≡◌, refl, ap, sym, ◌∙◌, Bool, true, false, ◌&&◌, ◌||◌, List, [], ◌∷◌, All, map, arith,
}
use any_gateway.Base.Text.{Text, text_eq_refl}
use any_gateway.Base.Dict.{has, has-append}
use any_gateway.Json.{Engine}
use any_gateway.Channels.Dialog.{
  Dialog, upstream_list, match_keyword, visible_custom, visible_upstream, select_all_visible,
}
use any_gateway.Channels.Dialog.Selection.{
  has-visible_custom, has-visible_upstream, has-select_all_visible,
}
use any_gateway.Channels.Dialog.View.{Row, row_of, visible, rows, clear_selected}

abbrev pub id_of : Row → Text
id_of r = r.id

map-row_of : (e : Engine) (s : Dialog) (ks : List Text) → map id_of (map (row_of e s) ks) ≡ ks
map-row_of e s [] = refl
map-row_of e s (k ∷ ks) = ap (λ (r : List Text). k ∷ r) (map-row_of e s ks)

has-visible :
    (s : Dialog) (k : Text)
    → has (visible s) k ≡ (match_keyword s k && (has s.selected k || has (upstream_list s) k))
has-visible s k = ground (
  arith,
  has-append (visible_custom s) (visible_upstream s) k,
  has-visible_custom s k,
  has-visible_upstream s k,
)

has-rows : (e : Engine) (s : Dialog) (k : Text) → has (map id_of (rows e s)) k ≡ has (visible s) k
unfolding rows
has-rows e s k = ap (λ (ks : List Text). has ks k) (map-row_of e s (visible s))

-- The rows for these names have a tick of this kind.
ticked-All :
    (e : Engine) (s : Dialog) (b : Bool) (ks : List Text)
    → ((k : Text) → has ks k ≡ true → has s.selected k ≡ b)
    → All (λ (r : Row). r.ticked ≡ b) (map (row_of e s) ks)
unfolding has
ticked-All e s b [] h = tt
ticked-All e s b (k ∷ ks) h =
    (h k (rw (text_eq_refl k) refl), ticked-All e s b ks (λ j m. h j (rw m (ground arith))))

match_keyword-selected :
    (s : Dialog) (ks : List Text) (k : Text)
    → match_keyword (record s { selected = ks }) k ≡ match_keyword s k
unfolding match_keyword
match_keyword-selected s ks k = refl

has-visible_selected :
    (s : Dialog) (ks : List Text) (k : Text)
    → has (visible (record s { selected = ks })) k
      ≡ (match_keyword s k && (has ks k || has (upstream_list s) k))
has-visible_selected s ks k =
    rw (has-visible (record s { selected = ks }) k, match_keyword-selected s ks k) refl

-- "Select all" leaves the rows that are displayed and ticks each of them; the button that clears
-- the selection leaves the candidates of the upstream that match the search, and none is ticked.
pub rows-ticked :
    (e : Engine) (s : Dialog)
    → ((k : Text)
        → has (map id_of (rows e (select_all_visible s))) k ≡ has (map id_of (rows e s)) k)
      × All (λ (r : Row). r.ticked ≡ true) (rows e (select_all_visible s))
      × ((k : Text) → has (map id_of (rows e (clear_selected s))) k ≡ has (visible_upstream s) k)
      × All (λ (r : Row). r.ticked ≡ false) (rows e (clear_selected s))
unfolding select_all_visible clear_selected rows
rows-ticked e s =
    let all = (select_all_visible s).selected in
    (
      (λ k.
          has-rows e (select_all_visible s) k
          ∙ has-visible_selected s all k
          ∙ rw (has-select_all_visible s k, has-rows e s k, has-visible s k) (ground arith)),
      ticked-All e (select_all_visible s) true (visible (select_all_visible s)) (λ k m.
          let there = sym (has-visible_selected s all k) ∙ m in
          let chosen = has-select_all_visible s k in ground arith),
      (λ k.
          has-rows e (clear_selected s) k
          ∙ has-visible_selected s [] k
          ∙ unfold has in ground (arith, has-visible_upstream s k)),
      ticked-All e (clear_selected s) false (visible (clear_selected s))
          (λ k m. unfold has in refl),
    )
