-- ===== src/Vouchers.antt =====
-- apps/react/src/pages/Vouchers: the creation and the deletion of vouchers. Numbers are the
-- patterns of their doubles. A field that the form leaves undefined is none.
pub mod Display
pub mod Payload
use any_gateway.Base.{
  ℕ, Bool, true, false, not, Option, none, some, List, [], ◌∷◌, ◌++◌, keep, map, length,
  if◌then◌else◌,
}
use any_gateway.Base.Text.{Text, lit, is_empty, decimal}
use any_gateway.Base.Dict.{Dict}
use any_gateway.Base.Double.{is_truthy}
use any_gateway.Json.{Json, num, str, arr, elems, truthy, member, member?, present, Engine, to_text}
use any_gateway.Api.{
  fetched, failure, Reply, fulfilled, rejected, Fetched, list, no_list, failed, Notice, Effect,
  call, notify, reload, object,
}
use any_gateway.Api.Accounts.{get_vouchers, create_voucher, delete_voucher, batch_delete_vouchers}

-- The values of the form.
pub record Values : Type 0 where
  pub amount_usd : ℕ
  pub count : Option ℕ
  pub duration_days : Option ℕ
  pub group_id : Option Text
  pub expires_at : Option Text

-- The state hooks.
pub record Page : Type 0 where
  pub data' : List Json
  pub visible : Bool
  pub submitting : Bool
  pub result_codes : List Json
  pub result_visible : Bool
  pub selected_keys : List Text
  pub batch_deleting : Bool

-- `fetchData` with its reply
unfoldable pub fetch_data : Fetched Json → Page → Page × List Effect
fetch_data reply s =
    (record s { data' = fetched reply s.data' }, call get_vouchers ∷ failure (lit "加载失败") reply)

-- 1 where no number is given
abbrev count_or_one : Option ℕ → ℕ
count_or_one none = 0x3FF0000000000000
count_or_one (some n) = n

abbrev pub text_field : Text → Option Text → Dict Json
text_field name none = []
text_field name (some t) = if is_empty t then [] else (name, str t) ∷ []

abbrev pub duration_fields : Option ℕ → Option Text → Dict Json
duration_fields none group = []
duration_fields (some n) group =
    if is_truthy n then (lit "duration_days", num n) ∷ text_field (lit "group_id") group else []

-- `payload`
unfoldable pub voucher_payload : Values → Dict Json
voucher_payload v =
    (lit "amount_usd", num v.amount_usd)
    ∷ (lit "count", num (count_or_one v.count))
    ∷ (duration_fields v.duration_days v.group_id ++ text_field (lit "expires_at") v.expires_at)

abbrev is_filled : Option Json → Bool
is_filled none = false
is_filled (some v) = truthy v

abbrev one_code : Option Json → List Json
one_code none = []
one_code (some c) = if truthy c then c ∷ [] else []

-- `.map(v => v.code).filter(Boolean)`
unfoldable pub codes_of : List Json → List Json
codes_of [] = []
codes_of (v ∷ vs) = one_code (member (lit "code") v) ++ codes_of vs

abbrev single_code : Json → Option Json → Option Json
single_code data' none = member? (lit "code") (member (lit "data") data')
single_code data' (some c) = some c

abbrev codes_from : Json → Option Json → List Json
codes_from data' (some (arr vs)) = codes_of (elems vs)
codes_from data' _ = one_code (single_code data' (present (member (lit "code") data')))

-- `codes`: those of the list of vouchers, if the reply has one, or the only one; the vouchers are
-- taken to be an array of objects
unfoldable pub codes : Json → List Json
codes data' = codes_from data' (member (lit "vouchers") data')

abbrev with_codes : List Json → Page → Page
with_codes [] s = s
with_codes (c ∷ cs) s = record s { result_codes = c ∷ cs; result_visible = true }

abbrev created : List Json → Notice
created [] = Notice.success (lit "创建成功（券码见列表）")
created (c ∷ cs) = Notice.success (lit "已生成 " ++ decimal (length (c ∷ cs)) ++ lit " 张消费券")

-- `handleSubmit` with its reply
unfoldable pub handle_submit : Values → Reply → Page → Page × List Effect
handle_submit v (fulfilled data') s = (
  record (with_codes (codes data') s) { visible = false; submitting = false },
  call (create_voucher (object (voucher_payload v))) ∷ notify (created (codes data')) ∷ reload ∷ [],
)
handle_submit v (rejected detail) s = (
  record s { submitting = false },
  call (create_voucher (object (voucher_payload v))) ∷ notify (Notice.error (lit "创建失败")) ∷ [],
)

-- `handleDelete`
unfoldable pub handle_delete : Text → Bool → List Effect
handle_delete id ok =
    call (delete_voucher id)
    ∷ (if ok
        then notify (Notice.success (lit "已删除")) ∷ reload ∷ []
        else notify (Notice.error (lit "删除失败")) ∷ [])

abbrev deleted_text : Engine → List Text → Option Json → Text
deleted_text e keys none = decimal (length keys)
deleted_text e keys (some n) = to_text e n

-- `handleBatchDelete` with its reply
unfoldable pub handle_batch_delete : Engine → Reply → Page → Page × List Effect
handle_batch_delete e (fulfilled data') s = (
  record s { selected_keys = []; batch_deleting = false },
  call (batch_delete_vouchers s.selected_keys)
      ∷ notify (
          Notice.success (
            lit "已删除 "
            ++ deleted_text e s.selected_keys (present (member (lit "deleted") data'))
            ++ lit " 张消费券"))
      ∷ reload
      ∷ [],
)
handle_batch_delete e (rejected detail) s = (
  record s { batch_deleting = false },
  call (batch_delete_vouchers s.selected_keys) ∷ notify (Notice.error (lit "批量删除失败")) ∷ [],
)
