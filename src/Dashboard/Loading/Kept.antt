-- ===== src/Dashboard/Loading/Kept.antt =====
-- What the handlers and the replies leave of the page as it was.
use any_gateway.Base.{
  ℕ, ◌≡◌, refl, Bool, false, ◌==◌, Option, none, some, List, inl, inr, arith, Bool-cases,
}
use any_gateway.Base.Text.{Text, lit, is_empty, trim}
use any_gateway.Json.{Json, member, present}
use any_gateway.Api.{Reply, Fetched}
use any_gateway.Dashboard.{
  TableState, Page, Clock, Loaded, deps_of, paging_of, on_loaded, rows_or_empty, with_total,
  load_users,
}
use any_gateway.Dashboard.Handlers.{
  handle_search, handle_redeem, handle_export, on_redeemed, credit_amount, changed,
}
use any_gateway.Dashboard.Loading.{Action, act}

-- What the page displays of an answer.
pub record Shown : Type 0 where
  pub overview : Option Json
  pub usage_rows : List Json
  pub usage_total : ℕ
  pub model_rows : List Json
  pub model_total : ℕ
  pub status : Option Json

abbrev pub shown_of : Page → Shown
shown_of p = record {
  overview = p.overview;
  usage_rows = p.usage_rows;
  usage_total = p.usage_table.total;
  model_rows = p.model_rows;
  model_total = p.model_table.total;
  status = p.my_status;
}

abbrev pub shown_from : Loaded → Shown
shown_from d = record {
  overview = some d.overview;
  usage_rows = rows_or_empty d.usage_rows;
  usage_total = d.usage_total;
  model_rows = rows_or_empty d.model_rows;
  model_total = d.model_total;
  status = some d.status;
}

-- What the effect depends on, and what an answer sets, are not touched by a handler that only
-- changes the rest.
paging-with_total : (n : ℕ) (t : TableState) → paging_of (with_total n t) ≡ paging_of t
paging-with_total n t = elim (Bool-cases (t.total == n)) [ inl e ↦ rw e refl | inr e ↦ rw e refl ]

total-with_total : (n : ℕ) (t : TableState) → (with_total n t).total ≡ n
total-with_total n t = elim (Bool-cases (t.total == n)) [
  | inl e ↦ rw e (ground arith)
  | inr e ↦ rw e refl
]

pub deps-on_loaded : (o : Option Loaded) (p : Page) → deps_of (on_loaded o p).0 ≡ deps_of p
unfolding on_loaded
deps-on_loaded none p = refl
deps-on_loaded (some d) p =
    let u = paging-with_total d.usage_total p.usage_table in
    let m = paging-with_total d.model_total p.model_table in
    λ i. record { filters = p.applied; usage = u i; models = m i; refresh_key = p.refresh_key }

pub shown-on_loaded : (d : Loaded) (p : Page) → shown_of (on_loaded (some d) p).0 ≡ shown_from d
unfolding on_loaded
shown-on_loaded d p =
    rw (total-with_total d.usage_total p.usage_table, total-with_total d.model_total p.model_table)
      refl

pub loading-on_loaded : (o : Option Loaded) (p : Page) → (on_loaded o p).0.loading ≡ false
unfolding on_loaded
loading-on_loaded none p = refl
loading-on_loaded (some d) p = refl

-- A handler leaves what is displayed of the answers.
abbrev pub SamePage : Page → Page → Type 0
SamePage p q = (p.loading ≡ q.loading) × (shown_of p ≡ shown_of q)

SamePage-credit_amount :
    (c : Clock) (o : Option Json) (p : Page) → SamePage (credit_amount c o p).0 p
SamePage-credit_amount c none p = (refl, refl)
SamePage-credit_amount c (some (Json.num n)) p = (refl, refl)
SamePage-credit_amount c (some Json.null) p = (refl, refl)
SamePage-credit_amount c (some (Json.bool b)) p = (refl, refl)
SamePage-credit_amount c (some (Json.str t)) p = (refl, refl)
SamePage-credit_amount c (some (Json.arr vs)) p = (refl, refl)
SamePage-credit_amount c (some (Json.obj fs)) p = (refl, refl)

SamePage-on_redeemed : (c : Clock) (r : Reply) (p : Page) → SamePage (on_redeemed c r p).0 p
unfolding on_redeemed
SamePage-on_redeemed c (Reply.fulfilled data') p =
    SamePage-credit_amount c (present (member (lit "amount_usd") data')) p
SamePage-on_redeemed c (Reply.rejected detail) p = (refl, refl)

SamePage-load_users :
    (before : Text → Text → Bool) (r : Fetched Text) (p : Page)
    → SamePage (load_users before r p).0 p
unfolding load_users
SamePage-load_users before (Fetched.list names) p = (refl, refl)
SamePage-load_users before Fetched.no_list p = (refl, refl)
SamePage-load_users before Fetched.failed p = (refl, refl)

SamePage-handle_redeem : (c : Clock) (r : Reply) (p : Page) → SamePage (handle_redeem c r p).0 p
unfolding handle_redeem
SamePage-handle_redeem c r p = elim (Bool-cases (is_empty (trim p.voucher_code))) [
  | inl e ↦ rw e (refl, refl)
  | inr e ↦ rw e (SamePage-on_redeemed c r p)
]

pub SamePage-act :
    (today : Text) (c : Clock) (is_admin : Bool) (a : Action) (p : Page)
    → SamePage (act today c is_admin a p) p
unfolding act handle_search changed handle_export
SamePage-act today c is_admin Action.search p = (refl, refl)
SamePage-act today c is_admin Action.refresh p = (refl, refl)
SamePage-act today c is_admin (Action.usage_change g s) p = (refl, refl)
SamePage-act today c is_admin (Action.model_change g s) p = (refl, refl)
SamePage-act today c is_admin (Action.range first second) p = (refl, refl)
SamePage-act today c is_admin (Action.user u) p = (refl, refl)
SamePage-act today c is_admin (Action.code t) p = (refl, refl)
SamePage-act today c is_admin (Action.users before reply) p = SamePage-load_users before reply p
SamePage-act today c is_admin (Action.exported ok) p = (refl, refl)
SamePage-act today c is_admin (Action.redeemed r) p = SamePage-handle_redeem c r p
