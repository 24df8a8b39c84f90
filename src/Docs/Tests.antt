-- ===== src/Docs/Tests.antt =====
-- Runs of the table of contents.
use any_gateway.Base.{◌≡◌, refl, true}
use any_gateway.Base.Text.{lit, text_eq}
use any_gateway.Base.Dict.{has, get, put}
use any_gateway.Docs.{
  sections, initial, toggle_expand, flat_sections, find_parent_id, set_active, expand_parent,
  displayed,
}
use any_gateway.Docs.Sidebar.{set_active-displayed}

runs : Unit {0}
unfolding lit text_eq has get put toggle_expand flat_sections find_parent_id set_active
    expand_parent displayed
runs = tt

-- The group is closed, and a section in it comes into sight.
set_active-displayed_example :
    has
      (displayed sections
        (set_active sections (lit "auth") (toggle_expand (lit "quickstart") initial)).expanded)
      (lit "auth")
    ≡ true
unfolding runs
set_active-displayed_example =
    set_active-displayed sections (lit "auth") (toggle_expand (lit "quickstart") initial)
      (
        tt,
        refl,
        (
          (refl, (refl, (refl, (refl, tt)))),
          refl,
          (tt, refl, (tt, refl, (tt, refl, (tt, refl, (tt, refl, (tt, refl, tt)))))),
        ),
      )
      refl refl
