-- ===== src/Api.antt =====
-- The requests of apps/react/src/api: what each function hands to the axios client. The server is
-- not modelled: a handler takes its reply as an argument.
pub mod Client
pub mod Groups
pub mod Accounts
pub mod Payments
pub mod Stats
pub mod Interfaces
use any_gateway.Base.{Bool, true, false, Option, none, some, List, [], ◌∷◌, ◌++◌, if◌then◌else◌}
use any_gateway.Base.Text.{Text, lit}
use any_gateway.Base.Dict.{Dict}
use any_gateway.Json.{Json, str, bool, obj, arr, to_fields, to_elems, Engine, truthy, to_text}

pub data Method : Type 0 where
  get post put patch delete : Method

pub record Call : Type 0 where
  pub method : Method
  pub url : Text
  pub params : Dict Json
  pub body : Option Json

-- What a promise of the client gives: the response's `data`, or a rejection with the `detail` of
-- the error's response, if there is one.
pub data Reply : Type 0 where
  fulfilled : Json → Reply
  rejected : Option Json → Reply

-- What a request for a list gives whose elements are typed: `res.data?.data ?? res.data` is an
-- array or not, or the request is rejected.
pub data Fetched {ℓ} (A : Type ℓ) : Type ℓ where
  list : List A → Fetched A
  no_list : Fetched A
  failed : Fetched A

-- `Message.success` and its companions
pub data Notice : Type 0 where
  success error warning info : Text → Notice

abbrev pub bare : Method → Text → Call
bare m url = record { method = m; url = url; params = []; body = none }

abbrev pub with_body : Method → Text → Json → Call
with_body m url data' = record { method = m; url = url; params = []; body = some data' }

abbrev pub with_params : Text → Dict Json → Call
with_params url ps = record { method = get; url = url; params = ps; body = none }

abbrev pub object : Dict Json → Json
object d = obj (to_fields d)

-- auth.ts
unfoldable pub login : Text → Text → Call
login username password =
    with_body post (lit "/admin/auth/login")
      (object ((lit "username", str username) ∷ (lit "password", str password) ∷ []))

unfoldable pub get_me : Call
get_me = bare get (lit "/auth/me")

unfoldable pub get_my_status : Call
get_my_status = bare get (lit "/auth/my-status")

-- channels.ts
unfoldable pub get_channels : Call
get_channels = bare get (lit "/admin/channels")

unfoldable pub create_channel : Json → Call
create_channel data' = with_body post (lit "/admin/channels") data'

unfoldable pub update_channel : Text → Json → Call
update_channel id data' = with_body patch (lit "/admin/channels/" ++ id) data'

unfoldable pub delete_channel : Text → Call
delete_channel id = bare delete (lit "/admin/channels/" ++ id)

unfoldable pub get_upstream_models : Text → Call
get_upstream_models id = bare get (lit "/admin/channels/" ++ id ++ lit "/upstream-models")

-- prices.ts
unfoldable pub get_prices : Call
get_prices = bare get (lit "/admin/model-prices")

unfoldable pub create_price : Json → Call
create_price data' = with_body post (lit "/admin/model-prices") data'

unfoldable pub update_price : Text → Json → Call
update_price id data' = with_body patch (lit "/admin/model-prices/" ++ id) data'

unfoldable pub delete_price : Text → Call
delete_price id = bare delete (lit "/admin/model-prices/" ++ id)

-- logs.ts
unfoldable pub get_logs : Dict Json → Call
get_logs ps = with_params (lit "/admin/logs") ps

unfoldable pub get_my_logs : Dict Json → Call
get_my_logs ps = with_params (lit "/user/logs") ps

unfoldable pub get_log_messages : Text → Call
get_log_messages id = bare get (lit "/admin/logs/" ++ id ++ lit "/messages")

unfoldable pub get_my_log_messages : Text → Call
get_my_log_messages id = bare get (lit "/user/logs/" ++ id ++ lit "/messages")

-- What a handler does besides changing its component's state, in order.
pub data Effect : Type 0 where
  call : Call → Effect
  notify : Notice → Effect
  reload : Effect
  navigate : Text → Effect

-- `Array.isArray(raw) ? raw : []`, and what is there already where the request fails
abbrev pub fetched {ℓ} : {A : Type ℓ} → Fetched A → List A → List A
fetched (list xs) old = xs
fetched no_list old = []
fetched failed old = old

-- The message of a failed request.
abbrev pub failure {ℓ} : {A : Type ℓ} → Text → Fetched A → List Effect
failure message failed = notify (Notice.error message) ∷ []
failure message _ = []

-- `err?.response?.data?.detail || message`
abbrev pub detail_or : Engine → Text → Option Json → Text
detail_or e message none = message
detail_or e message (some detail) = if truthy detail then to_text e detail else message

-- `res.data?.data ?? res.data`
abbrev pub or_whole : Json → Option Json → Json
or_whole data' none = data'
or_whole data' (some raw) = raw

-- The requests among the effects.
abbrev pub requests : List Effect → List Call
requests [] = []
requests (call c ∷ es) = c ∷ requests es
requests (_ ∷ es) = requests es
