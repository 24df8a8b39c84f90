-- ===== src/Users/Membership.antt =====
-- The groups of a user, and those on offer.
use any_gateway.Base.{
  ◌≡◌, refl, ap, ◌∙◌, Bool, not, ◌&&◌, List, [], ◌∷◌, map, keep, any, arith, Bool-cases, inl, inr,
}
use any_gateway.Base.Text.{Text, text_eq, text_eq_iff}
use any_gateway.Base.Dict.{has}
use any_gateway.Api.{requests}
use any_gateway.Base.Keep.{has-keep, has-keep-any}
use any_gateway.Json.{Engine}
use any_gateway.Users.{
  Group, UserGroups, done, id_of, is_offered, group_options, handle_remove_user_from_group,
  user_text, remove_from_group,
}

abbrev pub value_of : Text × Text → Text
value_of (label, value) = value

map-value_of :
    (gs : List Group) → map value_of (map (λ (g : Group). (g.name, g.id)) gs) ≡ map id_of gs
map-value_of [] = refl
map-value_of (g ∷ gs) = ap (λ (r : List Text). g.id ∷ r) (map-value_of gs)

-- A group of this identifier that is not everybody's.
abbrev pub is_assignable : Text → Group → Bool
is_assignable k g = text_eq g.id k && not g.all_visible

any-is_offered :
    (mine gs : List Group) (k : Text)
    → any (λ (g : Group). text_eq g.id k && is_offered mine g) gs
      ≡ (any (is_assignable k) gs && not (has (map id_of mine) k))
any-is_offered mine [] k = refl
any-is_offered mine (g ∷ gs) k =
    let rest = any-is_offered mine gs k in
    elim (Bool-cases (text_eq g.id k)) [
      | inl e ↦
          let same = ap (λ i. has (map id_of mine) i) ((text_eq_iff g.id k).0 e) in
          rw (rest, e, same) (ground arith)
      | inr e ↦ rw (rest, e) (ground arith)
    ]

has-group_options :
    (s : UserGroups) (k : Text)
    → has (map value_of (group_options s)) k
      ≡ (any (is_assignable k) s.all_groups && not (has (map id_of s.user_groups) k))
unfolding group_options
has-group_options s k = rw (map-value_of (keep (is_offered s.user_groups) s.all_groups)) (
    has-keep-any id_of (is_offered s.user_groups) s.all_groups k
    ∙ any-is_offered s.user_groups s.all_groups k)

-- The dialog shows the groups that the server has for the user, given as a test on identifiers.
abbrev pub IsShown : (Text → Bool) → UserGroups → Type 0
IsShown server s = (k : Text) → has (map id_of s.user_groups) k ≡ server k

-- Where the dialog shows the user's groups as the server has them, and the user is taken out of a
-- group with success: the dialog shows the groups that are left, and on offer are just the groups
-- that are not everybody's and that the user does not have any more, the one left among them. The
-- one request is to take the dialog's user out of that group.
pub handle_remove_user-IsShown :
    (e : Engine) (server : Text → Bool) (id : Text) (s : UserGroups)
    → IsShown server s
    → IsShown (λ k. server k && not (text_eq k id)) (handle_remove_user_from_group e done id s).0
      × ((k : Text)
          → has (map value_of (group_options (handle_remove_user_from_group e done id s).0)) k
            ≡ (any (is_assignable k) s.all_groups && not (server k && not (text_eq k id))))
      × (requests (handle_remove_user_from_group e done id s).1
          ≡ remove_from_group (user_text s.selected_user) id ∷ [])
unfolding handle_remove_user_from_group
handle_remove_user-IsShown e server id s h =
    let shown : IsShown (λ k. server k && not (text_eq k id))
        (handle_remove_user_from_group e done id s).0 =
      λ k.
        has-keep id_of (λ i. not (text_eq i id)) s.user_groups k
        ∙ ap (λ b. b && not (text_eq k id)) (h k) in
    (
      shown,
      λ k.
          has-group_options (handle_remove_user_from_group e done id s).0 k
          ∙ ap (λ b. any (is_assignable k) s.all_groups && not b) (shown k),
      refl,
    )
