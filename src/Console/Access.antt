-- ===== src/Console/Access.antt =====
-- The guards and the menu agree.
use any_gateway.Base.{
  ◌≡◌, refl, Bool, true, false, not, ◌&&◌, Option, none, some, List, [], ◌∷◌, All, inl, inr, arith,
  drop, Bool-cases,
}
use any_gateway.Base.Text.{Text, lit, is_empty, text_eq}
use any_gateway.Base.Dict.{has, get, keys}
use any_gateway.Api.Client.{AuthState, signed_out, Browser, on_rejected}
use any_gateway.Api.{navigate}
use any_gateway.Console.{
  Page, View, page, redirect, auth_guard, refuses, filled, children, child_view, own_guard,
  layout_view, view, menu, public_pages, handle_logout,
}

abbrev pub shows : View → Bool
shows (page p) = true
shows _ = false

-- In a session with a token and a role that are not empty: an entry stands in the menu exactly if
-- the guards of its address let its page be shown, and this is so for every page below the layout.
pub menu-shows :
    (s : AuthState) (role : Text)
    → filled s.token ≡ true
    → s.role ≡ some role
    → is_empty role ≡ false
    → All (λ key. has (menu s) key ≡ shows (view (47 ∷ key) s)) (keys children)
unfolding menu has view layout_view get auth_guard lit text_eq
menu-shows s role f r n = elim (Bool-cases (text_eq (lit "admin") role)) [
  | inl a ↦ elim (Bool-cases (text_eq (lit "superadmin") role)) [
    | inl b ↦
        rw (f, r, n, a, b)
          (refl, (refl, (refl, (refl, (refl, (refl, (refl, (refl, (refl, (refl, tt))))))))))
    | inr b ↦
        rw (f, r, n, a, b)
          (refl, (refl, (refl, (refl, (refl, (refl, (refl, (refl, (refl, (refl, tt))))))))))
  ]
  | inr a ↦ elim (Bool-cases (text_eq (lit "superadmin") role)) [
    | inl b ↦
        rw (f, r, n, a, b)
          (refl, (refl, (refl, (refl, (refl, (refl, (refl, (refl, (refl, (refl, tt))))))))))
    | inr b ↦
        rw (f, r, n, a, b)
          (refl, (refl, (refl, (refl, (refl, (refl, (refl, (refl, (refl, (refl, tt))))))))))
  ]
]

auth_guard-shows :
    (roles : Option (List Text)) (s : AuthState) (v : View)
    → shows (auth_guard roles s v) ≡ (filled s.token && not (refuses roles s.role) && shows v)
unfolding auth_guard
auth_guard-shows roles s v = ground arith

child_view-shows :
    (c : Option (Page × Option (List Text))) (s : AuthState)
    → shows (child_view c s) ≡ true
    → filled s.token ≡ true
child_view-shows none s h = cc
child_view-shows (some c) s h = ground (arith, auth_guard-shows none s (own_guard c s))

layout_view-shows :
    (key : Text) (s : AuthState) → shows (layout_view key s) ≡ true → filled s.token ≡ true
unfolding layout_view
layout_view-shows [] s h = ground (arith, auth_guard-shows none s (redirect (lit "/apikeys")))
layout_view-shows (c ∷ key) s h = child_view-shows (get (c ∷ key) children) s h

-- At an address that has no page without a guard, a page is shown only to a session whose token is
-- there and not empty.
pub view-shows :
    (path : Text) (s : AuthState)
    → get path public_pages ≡ none
    → shows (view path s) ≡ true
    → filled s.token ≡ true
unfolding view get text_eq lit
view-shows path s g h = layout_view-shows (drop 1 path) s (rw g at h)

-- When the server answers a request with the status 401, or when the user signs out, no page is
-- shown any more at an address that has no page without a guard, and the user is sent to the
-- sign-in.
pub signed_out-view :
    (path : Text) (b : Browser)
    → get path public_pages ≡ none
    → (shows (view path (on_rejected (some 401) b).session) ≡ false)
      × ((on_rejected (some 401) b).location ≡ some (lit "/login"))
      × (shows (view path (handle_logout b.session).0) ≡ false)
      × ((handle_logout b.session).1 ≡ navigate (lit "/login") ∷ [])
unfolding on_rejected handle_logout
signed_out-view path b g = (gone, refl, gone, refl)
  where
    gone : shows (view path signed_out) ≡ false
    gone = elim (Bool-cases (shows (view path signed_out))) [
      | inl h ↦ absurd (cc (view-shows path signed_out g h))
      | inr h ↦ h
    ]
