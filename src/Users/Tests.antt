-- ===== src/Users/Tests.antt =====
-- Runs of the page of the users.
use any_gateway.Base.{◌≡◌, refl, Bool, true, false, not, ◌&&◌, none, some, [], ◌∷◌, map, any}
use any_gateway.Base.Text.{Text, lit, text_eq}
use any_gateway.Base.Dict.{has}
use any_gateway.Json.{Engine}
use any_gateway.Api.{requests}
use any_gateway.Users.{
  Group, UserGroups, done, group_options, handle_remove_user_from_group, user_text,
  remove_from_group,
}
use any_gateway.Users.Membership.{IsShown, value_of, is_assignable, handle_remove_user-IsShown}

abbrev engine : Engine
engine = record {
  parse = λ t. none;
  stringify = λ v. lit "null";
  pretty = λ v. lit "null";
  number_text = λ n. lit "0";
}

abbrev group : Text → Bool → Group
group id all = record { id = id; name = id; all_visible = all }

abbrev member_of : UserGroups
member_of = record {
  ad_users = [];
  ad_loading = false;
  selected_user = some (lit "ann");
  user_groups = group (lit "a") false ∷ group (lit "all") true ∷ [];
  user_group_loading = false;
  all_groups = group (lit "a") false ∷ group (lit "all") true ∷ group (lit "b") false ∷ [];
  adding_group_id = [];
  add_loading = false;
  group_modal_open = true;
}

abbrev server : Text → Bool
server k = has (lit "a" ∷ lit "all" ∷ []) k

handle_remove_user-IsShown_example :
    IsShown
      (λ k. server k && not (text_eq k (lit "a")))
      (handle_remove_user_from_group engine done (lit "a") member_of).0
    × ((k : Text)
        → has
            (map value_of
              (group_options (handle_remove_user_from_group engine done (lit "a") member_of).0))
            k
          ≡ (any (is_assignable k) member_of.all_groups
              && not (server k && not (text_eq k (lit "a")))))
    × (requests (handle_remove_user_from_group engine done (lit "a") member_of).1
        ≡ remove_from_group (user_text member_of.selected_user) (lit "a") ∷ [])
handle_remove_user-IsShown_example =
    handle_remove_user-IsShown engine server (lit "a") member_of (λ k. refl)
