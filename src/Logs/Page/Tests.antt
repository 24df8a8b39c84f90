-- ===== src/Logs/Page/Tests.antt =====
-- Runs of the table of logs.
use any_gateway.Base.{◌≡◌, ◌≤◌, refl, true, none, some, [], ◌∷◌}
use any_gateway.Base.Text.{lit, text_eq}
use any_gateway.Base.Dict.{has, get, put}
use any_gateway.Api.{rejected}
use any_gateway.Logs.Page.{waiting, handle_expand, finish_expand}
use any_gateway.Logs.Page.Details.{
  World, fresh, expanded, toggled, replied, start, next, count, count-asked,
}

-- A row is opened, the request fails, and the row is opened again.
abbrev opened : World
opened = expanded true (lit "a") true fresh

abbrev failed : World
failed = record opened {
  cache = finish_expand (lit "a") (rejected none) opened.cache;
  pending = [];
}

abbrev opened_again : World
opened_again = expanded true (lit "a") true failed

runs : Unit {0}
unfolding lit text_eq has get put handle_expand finish_expand expanded count
runs = tt

opened-pending : opened.pending ≡ lit "a" ∷ []
unfolding runs
opened-pending = refl

count-asked_example :
    (count (lit "a") opened_again.asked ≤ 1)
    × (get (lit "a") opened_again.cache ≡ some waiting → has opened_again.pending (lit "a") ≡ true)
count-asked_example =
    count-asked opened_again
      (next
        (next (next start (toggled true (lit "a") true fresh))
          (replied [] [] (lit "a") (rejected none) opened opened-pending))
        (toggled true (lit "a") true failed))
      (lit "a")
