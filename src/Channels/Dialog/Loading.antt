-- ===== src/Channels/Dialog/Loading.antt =====
-- The loading of the upstream's models as interleavings: the dialog is opened, closed, reloaded and
-- edited while requests wait for their replies, which come in any order.
use any_gateway.Base.{
  ℕ, suc, ◌≡◌, ◌≢◌, ◌≤◌, refl, true, false, Option, none, some, List, [], ◌∷◌, ◌++◌, ◌⊎◌, inl, inr,
  arith, All, ◌==◌, Bool-cases,
}
use any_gateway.Base.Text.{Text}
use any_gateway.Base.Dict.{get}
use any_gateway.Json.{Engine}
use any_gateway.Api.{Reply, fulfilled, rejected}
use any_gateway.Channels.{Channel, parse_models_detail}
use any_gateway.Channels.Dialog.{
  Dialog, Pending, start_load, start_with, show_with, show_detail, opened_on, finish_load, initial,
  open_manage_models, close_dialog, reply_ids,
}

-- The dialog, the requests that wait, and the lists that replies have brought, with the channels
-- that they were asked for.
pub record World : Type 0 where
  pub dialog : Dialog
  pub pending : List Pending
  pub brought : List (Text × List Text)

abbrev pub add_pending : Option Pending → List Pending → List Pending
add_pending none ps = ps
add_pending (some p) ps = p ∷ ps

abbrev pub bring : Pending → Reply → List (Text × List Text) → List (Text × List Text)
bring p (fulfilled data') b = (p.channel, reply_ids data') ∷ b
bring p (rejected detail) b = b

abbrev pub go_on : Dialog × Option Pending → World → World
go_on (s, started) w = record w { dialog = s; pending = add_pending started w.pending }

abbrev pub drop_reply : List Pending → List Pending → Dialog → Pending → Reply → World → World
drop_reply before after s p r w = record {
  dialog = (finish_load p r s).0;
  pending = before ++ after;
  brought = bring p r w.brought;
}

-- What can happen next.
pub data Step : World → World → Type 0 where
  opened :
      (e : Engine) (c : Channel) (w : World) → Step w (go_on (open_manage_models e c w.dialog) w)
  closed : (w : World) → Step w (record w { dialog = close_dialog w.dialog })
  reloaded :
      (c : Channel) (w : World)
      → w.dialog.managing ≡ some c
      → Step w (go_on (start_load c.id true w.dialog) w)
  replied :
      (before after : List Pending) (p : Pending) (r : Reply) (w : World)
      → w.pending ≡ before ++ p ∷ after
      → Step w (drop_reply before after w.dialog p r w)
  edited :
      (s : Dialog) (w : World)
      → s.fetch_seq ≡ w.dialog.fetch_seq
      → s.loading_upstream ≡ w.dialog.loading_upstream
      → s.upstream_cache ≡ w.dialog.upstream_cache
      → Step w (record w { dialog = s })

pub data Reach (w : World) : World → Type 0 where
  here : Reach w w
  next : {u v : World} → Reach w u → Step u v → Reach w v

-- A request in the list has the number `n`.
abbrev pub HasSeq : ℕ → List Pending → Type 0
HasSeq n [] = ⊥
HasSeq n (p ∷ ps) = (p.seq ≡ n) ⊎ HasSeq n ps

-- No request is newer than the counter, and while the dialog shows that it loads, a request with
-- the newest number waits.
abbrev pub IsTracked : World → Type 0
IsTracked w =
    All (λ p. p.seq ≤ w.dialog.fetch_seq) w.pending
    × (w.dialog.loading_upstream ≡ true → HasSeq w.dialog.fetch_seq w.pending)

All-le_mono :
    (m n : ℕ) (ps : List Pending) → m ≤ n → All (λ p. p.seq ≤ m) ps → All (λ p. p.seq ≤ n) ps
All-le_mono m n [] le h = tt
All-le_mono m n (p ∷ ps) le (h, hs) = (omega arith, All-le_mono m n ps le hs)

All-remove :
    (n : ℕ) (before after : List Pending) (p : Pending)
    → All (λ q. q.seq ≤ n) (before ++ p ∷ after)
    → All (λ q. q.seq ≤ n) (before ++ after)
All-remove n [] after p (_, h) = h
All-remove n (q ∷ before) after p (k, h) = (k, All-remove n before after p h)

HasSeq-remove :
    (n : ℕ) (before after : List Pending) (p : Pending)
    → p.seq ≢ n
    → HasSeq n (before ++ p ∷ after)
    → HasSeq n (before ++ after)
HasSeq-remove n [] after p stale (inl e) = absurd (stale e)
HasSeq-remove n [] after p stale (inr h) = h
HasSeq-remove n (q ∷ before) after p stale (inl e) = inl e
HasSeq-remove n (q ∷ before) after p stale (inr h) = inr (HasSeq-remove n before after p stale h)

-- Two states of the dialog with the same hooks for loading.
abbrev pub SameLoad : Dialog → Dialog → Type 0
SameLoad s t =
    (s.fetch_seq ≡ t.fetch_seq)
    × (s.loading_upstream ≡ t.loading_upstream)
    × (s.upstream_cache ≡ t.upstream_cache)

start_with-IsTracked :
    (o : Option (List Text)) (id : Text) (s : Dialog) (w : World)
    → SameLoad s w.dialog
    → IsTracked w
    → IsTracked (go_on (start_with o id s) w)
unfolding start_with
start_with-IsTracked (some ids) id s w (e, l, c) h = rw (e, l) h
start_with-IsTracked none id s w (e, l, c) (h, k) = (
  (omega arith, All-le_mono w.dialog.fetch_seq (suc s.fetch_seq) w.pending (omega arith) h),
  λ _. inl refl,
)

show_with-IsTracked :
    (o : Option (List Text)) (id : Text) (s : Dialog) (w : World)
    → SameLoad s w.dialog
    → IsTracked w
    → IsTracked (go_on (show_with o id s) w)
unfolding show_with start_load
show_with-IsTracked (some ids) id s w (e, l, c) h = rw (e, l) h
show_with-IsTracked none id s w same h =
    start_with-IsTracked (get id s.upstream_cache) id (record s { upstream_ids = none }) w same h

open_manage_models-IsTracked :
    (e : Engine) (c : Channel) (w : World)
    → IsTracked w
    → IsTracked (go_on (open_manage_models e c w.dialog) w)
unfolding open_manage_models
open_manage_models-IsTracked e c w h = go (parse_models_detail e c.models)
  where
    go : (o : Option _) → IsTracked (go_on (show_detail o c.id (opened_on e c w.dialog)) w)
    go none = unfold show_detail in h
    go (some d) = unfold show_detail in show_with-IsTracked _ c.id _ w (refl, refl, refl) h

-- A reply to an older request changes nothing.
pub finish_load-stale :
    (p : Pending) (r : Reply) (s : Dialog) → p.seq ≢ s.fetch_seq → (finish_load p r s).0 ≡ s
unfolding finish_load
finish_load-stale p (fulfilled data') s h = ground arith
finish_load-stale p (rejected detail) s h = ground arith

pub finish_load-current :
    (p : Pending) (r : Reply) (s : Dialog)
    → p.seq ≡ s.fetch_seq
    → ((finish_load p r s).0.fetch_seq ≡ s.fetch_seq)
      × ((finish_load p r s).0.loading_upstream ≡ false)
unfolding finish_load
finish_load-current p (fulfilled data') s h = ground arith
finish_load-current p (rejected detail) s h = ground arith

finish_load-IsTracked :
    (before after : List Pending) (p : Pending) (r : Reply) (w : World)
    → IsTracked (record w { pending = before ++ p ∷ after })
    → IsTracked (drop_reply before after w.dialog p r w)
finish_load-IsTracked before after p r w (h, k) = elim (Bool-cases (p.seq == w.dialog.fetch_seq)) [
  | inl e ↦
      let (same, idle) = finish_load-current p r w.dialog (ground arith) in
      (
        All-le_mono w.dialog.fetch_seq _ (before ++ after) (omega arith)
            (All-remove _ before after p h),
        λ l. absurd (cc (idle, l)),
      )
  | inr e ↦
      let stale : p.seq ≢ w.dialog.fetch_seq = ground arith in
      rw (finish_load-stale p r w.dialog stale)
        (All-remove _ before after p h, λ l. HasSeq-remove _ before after p stale (k l))
]

Step-IsTracked : {u v : World} → Step u v → IsTracked u → IsTracked v
Step-IsTracked (opened e c w) h = open_manage_models-IsTracked e c w h
Step-IsTracked (closed w) h = unfold close_dialog in h
Step-IsTracked (reloaded c w m) h =
    unfold start_load in start_with-IsTracked none c.id w.dialog w (refl, refl, refl) h
Step-IsTracked (replied before after p r w e) h =
    finish_load-IsTracked before after p r w (rw (← e) h)
Step-IsTracked (edited s w e l c) h = rw (e, l) h

Reach-IsTracked : {w v : World} → Reach w v → IsTracked w → IsTracked v
Reach-IsTracked here h = h
Reach-IsTracked (next r st) h = Step-IsTracked st (Reach-IsTracked r h)

-- The page as it is first shown.
abbrev pub fresh : World
fresh = record { dialog = initial; pending = []; brought = [] }

-- Whatever happens behind the first display of the page, and in whatever order replies come: while
-- the dialog shows that it loads, a request with the newest number still waits for its reply.
pub Reach-HasSeq :
    {v : World}
    → Reach fresh v
    → v.dialog.loading_upstream ≡ true
    → HasSeq v.dialog.fetch_seq v.pending
Reach-HasSeq r l = (Reach-IsTracked r (tt, λ h. absurd cc)).1 l
