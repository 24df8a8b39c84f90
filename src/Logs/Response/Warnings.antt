-- ===== src/Logs/Response/Warnings.antt =====
-- The warnings of a parsed response.
use any_gateway.Base.{
  ◌≡◌, ◌≤◌, refl, ap, ◌∙◌, Bool, true, false, ◌⊎◌, Option, none, some, List, [], ◌∷◌, length, arith,
  Bool-cases, inl, inr, find?, last?,
}
use any_gateway.Base.Text.{Text, lit, text_eq, text_eq_iff}
use any_gateway.Base.Dict.{has}
use any_gateway.Json.{Engine}
use any_gateway.Logs.{build_response_warnings, reason_is, truncated}
use any_gateway.Logs.Stream.{Stream, stream_parts, finish_reason_of}

-- At most one warning is given, and the warning of a truncated response exactly where the reason
-- is "length".
pub build_response_warnings_lem :
    (reason : Option Text) (r c t : Bool)
    → (length (build_response_warnings reason r c t) ≤ 1)
      × (has (build_response_warnings reason r c t) truncated ≡ reason_is reason (lit "length"))
unfolding build_response_warnings has lit text_eq
build_response_warnings_lem none true true t = (omega arith, refl)
build_response_warnings_lem none true false t = (omega arith, refl)
build_response_warnings_lem none false c t = (omega arith, refl)
build_response_warnings_lem (some reason) r c t =
    elim (Bool-cases (text_eq reason (lit "length"))) [
      | inl h ↦ let same = (text_eq_iff reason (lit "length")).0 h in rw same (by_reason r c t)
      | inr h ↦ ground arith
    ]
  where
    by_reason :
        (r c t : Bool)
        → (length (build_response_warnings (some (lit "length")) r c t) ≤ 1)
          × (has (build_response_warnings (some (lit "length")) r c t) truncated ≡ true)
    by_reason r c t = ground arith

last-has : (rs : List Text) (t : Text) → has rs t ≡ false → reason_is (last? rs) t ≡ false
unfolding has
last-has [] t h = refl
last-has (r ∷ []) t h = ground arith
last-has (r ∷ q ∷ rs) t h = last-has (q ∷ rs) t (ground arith)

find-has :
    (rs : List Text) (t : Text)
    → ((has rs t ≡ true) × (find? (λ r. text_eq r t) rs ≡ some t))
      ⊎ ((has rs t ≡ false) × (find? (λ r. text_eq r t) rs ≡ none))
unfolding has
find-has [] t = inr (refl, refl)
find-has (r ∷ rs) t = elim (Bool-cases (text_eq r t)) [
  | inl h ↦ let same = (text_eq_iff r t).0 h in inl (rw h (refl, ap some same))
  | inr h ↦ rw h (find-has rs t)
]

reason-length :
    (rs : List Text) → reason_is (finish_reason_of rs) (lit "length") ≡ has rs (lit "length")
unfolding finish_reason_of
reason-length rs = elim (find-has rs (lit "length")) [
  | inl (h, f) ↦ rw (h, f) ((text_eq_iff _ _).1 refl)
  | inr (h, f) ↦ rw (h, f) (last-has rs (lit "length") h)
]

-- Of a stream, the warning of a truncated response is given exactly where some choice has finished
-- for its length, whatever reasons come before and behind; there is at most one warning.
pub stream_parts-truncated :
    (e : Engine) (s : Stream)
    → (has (stream_parts e s).warnings truncated ≡ has s.finish_reasons (lit "length"))
      × (length (stream_parts e s).warnings ≤ 1)
unfolding stream_parts
stream_parts-truncated e s =
    let (few, same) = build_response_warnings_lem (finish_reason_of s.finish_reasons) _ _ _ in
    (same ∙ reason-length s.finish_reasons, few)
