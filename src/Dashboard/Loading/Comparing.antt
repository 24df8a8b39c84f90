-- ===== src/Dashboard/Loading/Comparing.antt =====
-- The comparison of what the effect depends on is that of equality.
use any_gateway.Base.{◌≡◌, refl, ap, true, Option, none, some, arith}
use any_gateway.Base.Text.{Text, text_eq_iff, text_eq_refl}
use any_gateway.Dashboard.{SortOrder, asc, desc, DashboardFilters, Paging, Deps}
use any_gateway.Dashboard.Loading.{order_eq, name_eq, filters_eq, paging_eq, same_deps}

order_eq_refl : (a : SortOrder) → order_eq a a ≡ true
order_eq_refl asc = refl
order_eq_refl desc = refl

order_eq_sound : (a b : SortOrder) → order_eq a b ≡ true → a ≡ b
order_eq_sound asc asc h = refl
order_eq_sound desc desc h = refl
order_eq_sound asc desc h = absurd cc
order_eq_sound desc asc h = absurd cc

name_eq_refl : (a : Option Text) → name_eq a a ≡ true
name_eq_refl none = refl
name_eq_refl (some t) = text_eq_refl t

name_eq_sound : (a b : Option Text) → name_eq a b ≡ true → a ≡ b
name_eq_sound none none h = refl
name_eq_sound (some t) (some u) h = ap some ((text_eq_iff t u).0 h)
name_eq_sound none (some u) h = absurd cc
name_eq_sound (some t) none h = absurd cc

filters_eq_refl : (f : DashboardFilters) → filters_eq f f ≡ true
filters_eq_refl f =
    rw (text_eq_refl f.start_date, text_eq_refl f.end_date, name_eq_refl f.username) refl

paging_eq_refl : (g : Paging) → paging_eq g g ≡ true
paging_eq_refl g = ground (arith, text_eq_refl g.sort_by, order_eq_refl g.sort_order)

pub same_deps_refl : (d : Deps) → same_deps d d ≡ true
unfolding same_deps
same_deps_refl d =
    ground (arith, filters_eq_refl d.filters, paging_eq_refl d.usage, paging_eq_refl d.models)

filters_eq_sound : (f g : DashboardFilters) → filters_eq f g ≡ true → f ≡ g
filters_eq_sound f g h =
    let p : f.start_date ≡ g.start_date =
      (text_eq_iff f.start_date g.start_date).0 (ground arith) in
    let q : f.end_date ≡ g.end_date = (text_eq_iff f.end_date g.end_date).0 (ground arith) in
    let r : f.username ≡ g.username = name_eq_sound f.username g.username (ground arith) in
    λ i. record { start_date = p i; end_date = q i; username = r i }

paging_eq_sound : (g h : Paging) → paging_eq g h ≡ true → g ≡ h
paging_eq_sound g h e =
    let a : g.current ≡ h.current = ground arith in
    let b : g.page_size ≡ h.page_size = ground arith in
    let p : g.sort_by ≡ h.sort_by = (text_eq_iff g.sort_by h.sort_by).0 (ground arith) in
    let q : g.sort_order ≡ h.sort_order = order_eq_sound g.sort_order h.sort_order (ground arith) in
    λ i. record { current = a i; page_size = b i; sort_by = p i; sort_order = q i }

pub same_deps_sound : (d e : Deps) → same_deps d e ≡ true → d ≡ e
unfolding same_deps
same_deps_sound d e h =
    let p : d.filters ≡ e.filters = filters_eq_sound d.filters e.filters (ground arith) in
    let q : d.usage ≡ e.usage = paging_eq_sound d.usage e.usage (ground arith) in
    let r : d.models ≡ e.models = paging_eq_sound d.models e.models (ground arith) in
    let k : d.refresh_key ≡ e.refresh_key = ground arith in
    λ i. record { filters = p i; usage = q i; models = r i; refresh_key = k i }
