-- ===== src/Json.antt =====
-- JSON values as JavaScript holds them after `JSON.parse`, and the operations on them that
-- apps/react/src uses: `typeof` tests, member access, `String`, `Object.entries`, `for … of`.
-- A number is the 64-bit pattern of its double. An object is its own entries, in the order of
-- insertion; own members that hide those of `Object.prototype` are outside the model.
use Prim.Native.Nat.{ℕ}
use any_gateway.Base.{
  ◌≡◌, refl, ap, suc, ◌/◌, ◌%◌, ◌^◌, Bool, true, false, not, ◌&&◌, Option, none, some, List, [],
  ◌∷◌, map, leb, ◌==◌, if◌then◌else◌,
}
use any_gateway.Base.Text.{Text, lit, is_empty, join, decimal}
use any_gateway.Base.Dict.{Dict, get}

mutual
  pub data Json : Type 0 where
    null : Json
    bool : Bool → Json
    num : ℕ → Json
    str : Text → Json
    arr : Elems → Json
    obj : Fields → Json

  pub data Elems : Type 0 where
    nil : Elems
    cons : Json → Elems → Elems

  pub data Fields : Type 0 where
    end : Fields
    field : Text → Json → Fields → Fields

abbrev pub elems : Elems → List Json
elems nil = []
elems (cons v vs) = v ∷ elems vs

abbrev pub to_elems : List Json → Elems
to_elems [] = nil
to_elems (v ∷ vs) = cons v (to_elems vs)

abbrev pub fields : Fields → Dict Json
fields end = []
fields (field k v fs) = (k, v) ∷ fields fs

abbrev pub to_fields : Dict Json → Fields
to_fields [] = end
to_fields ((k, v) ∷ d) = field k v (to_fields d)

-- What the model takes of the JavaScript engine: `JSON.parse` (`none` where it throws),
-- `JSON.stringify(v)`, `JSON.stringify(v, null, 2)` and `String` of a number.
pub record Engine : Type 0 where
  pub parse : Text → Option Json
  pub stringify : Json → Text
  pub pretty : Json → Text
  pub number_text : ℕ → Text

-- `Number.isFinite`: the exponent bits are not all ones.
unfoldable pub is_finite : ℕ → Bool
is_finite n = not (n / 2 ^ 52 % 2048 == 2047)

-- The truth value of a value. Zero has two patterns; JSON has no NaN.
unfoldable pub truthy : Json → Bool
truthy null = false
truthy (bool b) = b
truthy (num n) = not (n % 2 ^ 63 == 0)
truthy (str s) = not (is_empty s)
truthy (arr vs) = true
truthy (obj fs) = true

-- `v?.[name]` of a value that may be absent: absent where there is no such member.
unfoldable pub member : Text → Json → Option Json
member name (obj fs) = get name (fields fs)
member name _ = none

unfoldable pub member? : Text → Option Json → Option Json
unfolding member
member? name none = none
member? name (some v) = member name v

-- `v ?? d` on absent values: `null` counts as absent
abbrev pub present : Option Json → Option Json
present (some null) = none
present v = v

-- `typeof v === 'string'`, with the string
abbrev pub string_of : Option Json → Option Text
string_of (some (str s)) = some s
string_of _ = none

-- `Array.isArray(v)`, with the elements
abbrev pub array_of : Option Json → Option (List Json)
array_of (some (arr vs)) = some (elems vs)
array_of _ = none

abbrev pub get_or_empty : Option Text → Text
get_or_empty none = []
get_or_empty (some s) = s

module _ (e : Engine) where
  -- `String(v)`; in an array `null` gives the empty text.
  unfoldable mutual
    pub to_text : Json → Text
    to_text null = lit "null"
    to_text (bool b) = if b then lit "true" else lit "false"
    to_text (num n) = e.number_text n
    to_text (str s) = s
    to_text (arr vs) = join (lit ",") (element_texts vs)
    to_text (obj fs) = lit "[object Object]"

    pub element_texts : Elems → List Text
    element_texts nil = []
    element_texts (cons null vs) = [] ∷ element_texts vs
    element_texts (cons v vs) = to_text v ∷ element_texts vs

-- The code points of a text, as `for … of` takes them.
unfoldable pub characters : Text → List Text
characters [] = []
characters (c ∷ []) = (c ∷ []) ∷ []
characters (c ∷ d ∷ s) =
    let pair = (c ∷ d ∷ []) ∷ characters s in
    let single = (c ∷ []) ∷ characters (d ∷ s) in
    if leb 0xD800 c && leb c 0xDBFF && leb 0xDC00 d && leb d 0xDFFF then pair else single

-- `for (const m of v)`; `none` where `v` is not iterable, which throws
unfoldable pub iterate : Json → Option (List Json)
unfolding characters
iterate (arr vs) = some (elems vs)
iterate (str s) = some (map str (characters s))
iterate _ = none

abbrev indexed : ℕ → List Json → Dict Json
indexed i [] = []
indexed i (v ∷ vs) = (decimal i, v) ∷ indexed (suc i) vs

-- `Object.entries(v)`; `none` where it throws
unfoldable pub entries_of : Json → Option (Dict Json)
entries_of null = none
entries_of (obj fs) = some (fields fs)
entries_of (arr vs) = some (indexed 0 (elems vs))
entries_of (str s) = some (indexed 0 (map (λ c. str (c ∷ [])) s))
entries_of _ = some []

pub fields-to_fields : (d : Dict Json) → fields (to_fields d) ≡ d
fields-to_fields [] = refl
fields-to_fields ((k, v) ∷ d) = ap (λ (r : Dict Json). (k, v) ∷ r) (fields-to_fields d)

pub elems-to_elems : (vs : List Json) → elems (to_elems vs) ≡ vs
elems-to_elems [] = refl
elems-to_elems (v ∷ vs) = ap (λ (r : List Json). v ∷ r) (elems-to_elems vs)
