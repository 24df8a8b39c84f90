-- ===== src/Groups/GroupPrices.antt =====
-- The dialog of a group's prices of apps/react/src/pages/Groups.
use any_gateway.Base.{ℕ, Bool, true, Option, none, some, List, [], ◌∷◌, if◌then◌else◌}
use any_gateway.Base.Text.{Text, lit, is_empty, trim}
use any_gateway.Base.Double.{is_at_most_zero}
use any_gateway.Json.{Json}
use any_gateway.Api.{Fetched, Notice, Effect, call, notify}
use any_gateway.Api.Groups.{
  GroupModelPriceCreate, get_group_prices, create_group_price, delete_group_price,
}
use any_gateway.Groups.{behind}
use any_gateway.Api.{fetched, failure}

pub data PriceMode : Type 0 where
  token request audio_second character : PriceMode

-- The state hooks of the dialog of the prices, but for the flags of loading.
pub record Prices : Type 0 where
  pub visible : Bool
  pub managing : Text
  pub prices : List Json
  pub new_mode : PriceMode
  pub new_model_name : Text
  pub new_unit : Text
  pub new_value : ℕ

-- `fetchGroupPrices` with its reply
unfoldable pub fetch_group_prices : Text → Fetched Json → Prices → Prices × List Effect
fetch_group_prices group reply s = (
  record s { prices = fetched reply s.prices },
  call (get_group_prices group) ∷ failure (lit "加载价格失败") reply,
)

-- `handleOpenPrices`
unfoldable pub handle_open_prices : Text → Fetched Json → Prices → Prices × List Effect
handle_open_prices group reply s = fetch_group_prices group reply (record s {
  managing = group;
  visible = true;
  new_mode = token;
  new_model_name = [];
  new_unit = lit "input_token";
  new_value = 0;
})

-- the radio buttons' `onChange`
abbrev pub set_price_mode : PriceMode → Prices → Prices
set_price_mode mode s = record s { new_mode = mode; new_unit = lit "input_token" }

-- The `onChange` of the price: 0 where the field is cleared.
abbrev pub set_price_value : Option ℕ → Prices → Prices
set_price_value none s = record s { new_value = 0 }
set_price_value (some n) s = record s { new_value = n }

abbrev unit_of : PriceMode → Text → Text
unit_of token unit = unit
unit_of request unit = lit "request"
unit_of audio_second unit = lit "audio_second"
unit_of character unit = lit "character"

abbrev new_price : Prices → GroupModelPriceCreate
new_price s = record {
  group_id = s.managing;
  model_name = trim s.new_model_name;
  unit = unit_of s.new_mode s.new_unit;
  price_per_unit = s.new_value;
}

abbrev price_added : Bool → Fetched Json → Prices → Prices × List Effect
price_added ok reply s =
    if ok
    then behind (notify (Notice.success (lit "价格已添加")) ∷ [])
        (fetch_group_prices s.managing reply (record s { new_model_name = []; new_value = 0 }))
    else (s, notify (Notice.error (lit "添加失败")) ∷ [])

-- `handleAddGroupPrice`
unfoldable pub handle_add_group_price : Bool → Fetched Json → Prices → Prices × List Effect
handle_add_group_price ok reply s =
    if is_empty (trim s.new_model_name)
    then (s, notify (Notice.warning (lit "请输入模型名称")) ∷ [])
    else if is_at_most_zero s.new_value
    then (s, notify (Notice.warning (lit "单价必须大于 0")) ∷ [])
    else behind (call (create_group_price (new_price s)) ∷ []) (price_added ok reply s)

-- `handleDeleteGroupPrice`
unfoldable pub handle_delete_group_price :
    Text → Bool → Fetched Json → Prices → Prices × List Effect
handle_delete_group_price id ok reply s = behind (call (delete_group_price id) ∷ []) (
    if ok
    then behind (notify (Notice.success (lit "已删除")) ∷ []) (fetch_group_prices s.managing reply s)
    else (s, notify (Notice.error (lit "删除失败")) ∷ []))
