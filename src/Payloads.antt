-- ===== src/Payloads.antt =====
-- The bodies of the requests that the pages make against the types that apps/react/src/api
-- declares: the lemmas about single members.
pub mod Channels
pub mod Bodies
mod Tests
use any_gateway.Base.{
  ℕ, ◌≡◌, refl, ◌∙◌, Bool, true, false, Option, none, some, List, [], ◌∷◌, ◌++◌, map,
}
use any_gateway.Base.Text.{Text, lit, trim}
use any_gateway.Base.Dict.{Dict, get}
use any_gateway.Json.{Json, num, str, bool}
use any_gateway.Api.Interfaces.{
  Interface, text, number, boolean, nothing, either, all_texts, conforms, declared, entries_fit,
  entries_fit-append,
}
use any_gateway.Prices.Editing
use any_gateway.Prices.Editing.{Meta, meta_fields}
use any_gateway.Payment.{secret_field}
use any_gateway.Payment.Packages.{num_or, num_or_null, text_or_null, name_or_null, bool_or}
use any_gateway.Vouchers
use any_gateway.Channels.Drawer

abbrev pub is_some : Option Text → Bool
is_some none = false
is_some (some t) = true

module _ (i : Interface) (k : Text) where
  -- A text under this name has its declared type.
  abbrev TakesText : Type 0
  TakesText = (t : Text) → declared (get k i) (str t) ≡ true

  abbrev TakesNumber : Type 0
  TakesNumber = (n : ℕ) → declared (get k i) (num n) ≡ true

  one_entry : (v : Json) → declared (get k i) v ≡ true → entries_fit i ((k, v) ∷ []) ≡ true
  unfolding entries_fit
  one_entry v h = rw h refl

  price_text_fits : (o : Option Text) → TakesText → entries_fit i (Editing.text_field k o) ≡ true
  unfolding entries_fit
  price_text_fits none h = refl
  price_text_fits (some t) h = one_entry (str t) (h t)

  price_number_fits : (o : Option ℕ) → TakesNumber → entries_fit i (Editing.number_field k o) ≡ true
  unfolding entries_fit
  price_number_fits none h = refl
  price_number_fits (some n) h = one_entry (num n) (h n)

  pub secret_fits : (o : Option Text) → TakesText → entries_fit i (secret_field k o) ≡ true
  unfolding entries_fit
  secret_fits none h = refl
  secret_fits (some []) h = refl
  secret_fits (some (c ∷ t)) h = one_entry (str (trim (c ∷ t))) (h (trim (c ∷ t)))

  pub voucher_text_fits :
      (o : Option Text) → TakesText → entries_fit i (Vouchers.text_field k o) ≡ true
  unfolding entries_fit
  voucher_text_fits none h = refl
  voucher_text_fits (some []) h = refl
  voucher_text_fits (some (c ∷ t)) h = one_entry (str (c ∷ t)) (h (c ∷ t))

  pub channel_text_fits :
      (o : Option Text) → TakesText → entries_fit i (Drawer.text_field k o) ≡ true
  unfolding entries_fit
  channel_text_fits none h = refl
  channel_text_fits (some t) h = one_entry (str t) (h t)

-- The parts of an object fit, so the object fits.
both_fit :
    (i : Interface) (d e : Dict Json)
    → entries_fit i d ≡ true
    → entries_fit i e ≡ true
    → entries_fit i (d ++ e) ≡ true
both_fit i d e h k = entries_fit-append i d e ∙ rw (h, k) refl

meta_fit :
    (i : Interface) (m : Meta)
    → TakesNumber i (lit "context_length")
    → TakesText i (lit "vendor")
    → TakesText i (lit "stability")
    → entries_fit i (meta_fields m) ≡ true
meta_fit i m c v s =
    both_fit i _ _
      (both_fit i _ _ (price_number_fits i (lit "context_length") m.context_length c)
        (price_text_fits i (lit "vendor") m.vendor v))
      (price_text_fits i (lit "stability") m.stability s)

text_conforms : (t : Text) → conforms text (str t) ≡ true
unfolding conforms
text_conforms t = refl

number_conforms : (n : ℕ) → conforms number (num n) ≡ true
unfolding conforms
number_conforms n = refl

bool_conforms : (b : Bool) → conforms boolean (bool b) ≡ true
unfolding conforms
bool_conforms b = refl

num_or-conforms : (d : ℕ) (o : Option ℕ) → conforms number (num_or d o) ≡ true
unfolding conforms
num_or-conforms d none = refl
num_or-conforms d (some n) = refl

num_or_null-conforms : (o : Option ℕ) → conforms (either number nothing) (num_or_null o) ≡ true
unfolding conforms
num_or_null-conforms none = refl
num_or_null-conforms (some n) = refl

text_or_null-conforms : (o : Option Text) → conforms (either text nothing) (text_or_null o) ≡ true
unfolding conforms
text_or_null-conforms none = refl
text_or_null-conforms (some t) = refl

name_or_null-conforms : (t : Text) → conforms (either text nothing) (name_or_null t) ≡ true
unfolding conforms
name_or_null-conforms [] = refl
name_or_null-conforms (c ∷ t) = refl

bool_or-conforms : (d : Bool) (o : Option Bool) → conforms boolean (bool_or d o) ≡ true
unfolding conforms
bool_or-conforms d none = refl
bool_or-conforms d (some b) = refl

all_texts-str : (ts : List Text) → all_texts (map str ts) ≡ true
all_texts-str [] = refl
all_texts-str (t ∷ ts) = all_texts-str ts
