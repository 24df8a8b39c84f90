-- ===== src/Payment/Packages.antt =====
-- The packages of apps/react/src/pages/Payment.
use any_gateway.Base.{ℕ, Bool, true, false, Option, none, some, List, [], ◌∷◌, if◌then◌else◌}
use any_gateway.Base.Text.{Text, lit, is_empty, trim}
use any_gateway.Base.Dict.{Dict}
use any_gateway.Json.{Json, null, bool, num, str}
use any_gateway.Api.{fetched, failure, Call, Fetched, Notice, Effect, call, notify, reload, object}
use any_gateway.Api.Payments.{
  get_payment_packages, get_payment_package_groups, create_payment_package, update_payment_package,
  delete_payment_package,
}
use any_gateway.Payment.{text_or}

-- What the page reads of a package.
pub record PaymentPackage : Type 0 where
  pub id : Text
  pub label : Text
  pub amount_cny_cents : ℕ
  pub credit_usd : ℕ
  pub duration_days : Option ℕ
  pub group_id : Option Text
  pub group_name : Option Text
  pub sort_order : ℕ
  pub enabled : Bool

-- The values of the form of a package.
pub record PackageValues : Type 0 where
  pub label : Text
  pub amount_yuan : Option ℕ
  pub credit_usd : Option ℕ
  pub duration_days : Option ℕ
  pub group_id : Option Text
  pub group_name : Option Text
  pub sort_order : Option ℕ
  pub enabled : Option Bool

-- The state hooks of the packages, and what the form was last filled with.
pub record Packages : Type 0 where
  pub data' : List Json
  pub visible : Bool
  pub editing : Option Text
  pub pkg_groups : List Json
  pub shown : Option PackageValues

-- `fetchData` of the packages with its reply
unfoldable pub fetch_packages : Fetched Json → Packages → Packages × List Effect
fetch_packages reply s = (
  record s { data' = fetched reply s.data' },
  call (get_payment_packages []) ∷ failure (lit "加载套餐失败") reply,
)

-- `fetchGroups` with its reply; a failure is not shown
unfoldable pub fetch_package_groups : Fetched Json → Packages → Packages × List Effect
fetch_package_groups reply s =
    (record s { pkg_groups = fetched reply s.pkg_groups }, call get_payment_package_groups ∷ [])

-- `openCreate`
abbrev pub open_create : Packages → Packages
open_create s = record s {
  editing = none;
  visible = true;
  shown = some (record {
    label = [];
    amount_yuan = none;
    credit_usd = none;
    duration_days = none;
    group_id = none;
    group_name = none;
    sort_order = some 0;
    enabled = some true;
  });
}

-- `openEdit`; `hundredth` is the engine's division of a double by 100
abbrev pub open_edit : (ℕ → ℕ) → PaymentPackage → Packages → Packages
open_edit hundredth row s = record s {
  editing = some row.id;
  visible = true;
  shown = some (record {
    label = row.label;
    amount_yuan = some (hundredth row.amount_cny_cents);
    credit_usd = some row.credit_usd;
    duration_days = row.duration_days;
    group_id = row.group_id;
    group_name = some (text_or row.group_name);
    sort_order = some row.sort_order;
    enabled = some row.enabled;
  });
}

abbrev pub num_or : ℕ → Option ℕ → Json
num_or d none = num d
num_or d (some n) = num n

abbrev pub num_or_null : Option ℕ → Json
num_or_null none = null
num_or_null (some n) = num n

abbrev pub text_or_null : Option Text → Json
text_or_null none = null
text_or_null (some t) = str t

abbrev pub name_or_null : Text → Json
name_or_null t = if is_empty t then null else str t

abbrev pub zero_if : Option ℕ → ℕ
zero_if none = 0
zero_if (some n) = n

abbrev pub bool_or : Bool → Option Bool → Json
bool_or d none = bool d
bool_or d (some b) = bool b

-- `payload`; `cents` is the engine's `Math.round(x * 100)`
unfoldable pub package_payload : (ℕ → ℕ) → PackageValues → Dict Json
package_payload cents v =
    (lit "label", str v.label)
    ∷ (lit "amount_cny_cents", num (cents (zero_if v.amount_yuan)))
    ∷ (lit "credit_usd", num_or 0 v.credit_usd)
    ∷ (lit "duration_days", num_or_null v.duration_days)
    ∷ (lit "group_id", text_or_null v.group_id)
    ∷ (lit "group_name", name_or_null (trim (text_or v.group_name)))
    ∷ (lit "sort_order", num_or 0 v.sort_order)
    ∷ (lit "enabled", bool_or true v.enabled)
    ∷ []

abbrev submit_call : Option Text → Dict Json → Call
submit_call none payload = create_payment_package (object payload)
submit_call (some id) payload = update_payment_package id (object payload)

abbrev submitted : Option Text → Bool → Notice
submitted none true = Notice.success (lit "套餐已创建")
submitted none false = Notice.error (lit "创建失败")
submitted (some id) true = Notice.success (lit "套餐已更新")
submitted (some id) false = Notice.error (lit "更新失败")

-- `handleSubmit` of a package; a reload stands for both of the lists.
unfoldable pub handle_submit_package :
    (ℕ → ℕ) → PackageValues → Bool → Packages → Packages × List Effect
handle_submit_package cents v ok s =
    let request = call (submit_call s.editing (package_payload cents v)) in
    if ok
    then (record s { visible = false }, request ∷ notify (submitted s.editing true) ∷ reload ∷ [])
    else (s, request ∷ notify (submitted s.editing false) ∷ [])

-- `handleToggle`
unfoldable pub handle_toggle : Text → Bool → Bool → List Effect
handle_toggle id checked ok =
    call (update_payment_package id (object ((lit "enabled", bool checked) ∷ [])))
    ∷ (if ok then reload ∷ [] else notify (Notice.error (lit "操作失败")) ∷ [])

-- `handleDelete` of a package
unfoldable pub handle_delete_package : Text → Bool → List Effect
handle_delete_package id ok =
    call (delete_payment_package id)
    ∷ (if ok
        then notify (Notice.success (lit "已删除")) ∷ reload ∷ []
        else notify (Notice.error (lit "删除失败")) ∷ [])
