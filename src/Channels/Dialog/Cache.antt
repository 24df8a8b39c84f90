-- ===== src/Channels/Dialog/Cache.antt =====
-- What the dialog shows and caches of the upstream's models, and whose models they are.
use any_gateway.Base.{
  ◌≡◌, refl, true, Option, none, some, List, [], ◌∷◌, ◌⊎◌, inl, inr, arith, ◌==◌, Bool-cases,
}
use mathlib.Core.Path.{subst}
use any_gateway.Base.Text.{Text, text_eq, text_eq_iff}
use any_gateway.Base.Dict.{Dict, get, put, get-put}
use any_gateway.Json.{Json, Engine}
use any_gateway.Toml.{VoiceEntry}
use any_gateway.Api.{Reply, fulfilled, rejected}
use any_gateway.Channels.{Channel, parse_models_detail}
use any_gateway.Channels.Dialog.{
  Dialog, Pending, start_load, start_with, show_with, show_detail, opened_on, finish_load,
  open_manage_models, close_dialog, reply_ids,
}
use any_gateway.Channels.Dialog.Loading.{
  World, Step, opened, closed, reloaded, replied, edited, Reach, here, next, bring, fresh,
  finish_load-stale,
}

-- A reply for the channel `id` has brought the list `ids`.
abbrev pub WasBrought : Text → List Text → List (Text × List Text) → Type 0
WasBrought id ids [] = ⊥
WasBrought id ids ((k, ks) ∷ b) = ((k ≡ id) × (ks ≡ ids)) ⊎ WasBrought id ids b

-- Every cached list was brought for its own channel.
abbrev pub IsSound : World → Type 0
IsSound w =
    (id : Text) (ids : List Text)
    → get id w.dialog.upstream_cache ≡ some ids
    → WasBrought id ids w.brought

start_with-cache :
    (o : Option (List Text)) (id : Text) (s : Dialog)
    → (start_with o id s).0.upstream_cache ≡ s.upstream_cache
unfolding start_with
start_with-cache none id s = refl
start_with-cache (some ids) id s = refl

show_with-cache :
    (o : Option (List Text)) (id : Text) (s : Dialog)
    → (show_with o id s).0.upstream_cache ≡ s.upstream_cache
unfolding show_with start_load
show_with-cache none id s = start_with-cache (get id s.upstream_cache) id _
show_with-cache (some ids) id s = refl

show_detail-cache :
    (o : Option (List Json × Dict (List VoiceEntry))) (id : Text) (s : Dialog)
    → (show_detail o id s).0.upstream_cache ≡ s.upstream_cache
unfolding show_detail
show_detail-cache none id s = refl
show_detail-cache (some d) id s = show_with-cache _ id _

same_cache-IsSound :
    (t : Dialog) (w : World)
    → t.upstream_cache ≡ w.dialog.upstream_cache
    → IsSound w
    → (id : Text) (ids : List Text) → get id t.upstream_cache ≡ some ids
    → WasBrought id ids w.brought
same_cache-IsSound t w e h id ids g = h id ids (subst (λ c. get id c ≡ some ids) e g)

bring-more :
    (p : Pending) (r : Reply) (id : Text) (ids : List Text) (b : List (Text × List Text))
    → WasBrought id ids b
    → WasBrought id ids (bring p r b)
bring-more p (fulfilled data') id ids b h = inr h
bring-more p (rejected detail) id ids b h = h

finish_load-cache :
    (p : Pending) (data' : Json) (s : Dialog)
    → p.seq ≡ s.fetch_seq
    → (finish_load p (fulfilled data') s).0.upstream_cache
      ≡ put p.channel (reply_ids data') s.upstream_cache
unfolding finish_load
finish_load-cache p data' s h = ground arith

finish_load-cache_rejected :
    (p : Pending) (detail : Option Json) (s : Dialog)
    → (finish_load p (rejected detail) s).0.upstream_cache ≡ s.upstream_cache
unfolding finish_load
finish_load-cache_rejected p detail s = ground arith

put-brought :
    (k id : Text) (ks ids : List Text) (cache : Dict (List Text)) (b : List (Text × List Text))
    → (get id cache ≡ some ids → WasBrought id ids b)
    → get id (put k ks cache) ≡ some ids
    → WasBrought id ids ((k, ks) ∷ b)
put-brought k id ks ids cache b h g = elim (Bool-cases (text_eq k id)) [
  | inl same ↦ inl ((text_eq_iff k id).0 same, ground (arith, get-put k id ks cache))
  | inr other ↦ inr (h (ground (arith, get-put k id ks cache)))
]

finish_load-IsSound :
    (p : Pending) (r : Reply) (w : World)
    → IsSound w
    → (id : Text) (ids : List Text) → get id (finish_load p r w.dialog).0.upstream_cache ≡ some ids
    → WasBrought id ids (bring p r w.brought)
finish_load-IsSound p (rejected detail) w h id ids g =
    h id ids (subst (λ c. get id c ≡ some ids) (finish_load-cache_rejected p detail w.dialog) g)
finish_load-IsSound p (fulfilled data') w h id ids g =
    elim (Bool-cases (p.seq == w.dialog.fetch_seq)) [
      | inl e ↦
          put-brought p.channel id (reply_ids data') ids w.dialog.upstream_cache w.brought
            (h id ids)
            (subst (λ c. get id c ≡ some ids) (finish_load-cache p data' w.dialog (ground arith)) g)
      | inr e ↦ inr (
          h id ids (
            subst (λ t. get id t.upstream_cache ≡ some ids)
              (finish_load-stale p (fulfilled data') w.dialog (ground arith)) g))
    ]

Step-IsSound : {u v : World} → Step u v → IsSound u → IsSound v
Step-IsSound (opened e c w) h =
    same_cache-IsSound (open_manage_models e c w.dialog).0 w
      (unfold open_manage_models in show_detail-cache _ c.id (opened_on e c w.dialog)) h
Step-IsSound (closed w) h = unfold close_dialog in h
Step-IsSound (reloaded c w m) h =
    same_cache-IsSound (start_load c.id true w.dialog).0 w
      (unfold start_load in start_with-cache _ c.id w.dialog) h
Step-IsSound (replied before after p r w e) h = finish_load-IsSound p r w h
Step-IsSound (edited s w e l c) h = same_cache-IsSound s w c h

Reach-IsSound : {w v : World} → Reach w v → IsSound w → IsSound v
Reach-IsSound here h = h
Reach-IsSound (next r st) h = Step-IsSound st (Reach-IsSound r h)

-- Whatever happens behind the first display of the page, and in whatever order replies come: a
-- cached list of models was brought by a reply to a request for that same channel.
pub Reach-WasBrought :
    {v : World}
    → Reach fresh v
    → (id : Text) (ids : List Text) → get id v.dialog.upstream_cache ≡ some ids
    → WasBrought id ids v.brought
unfolding get
Reach-WasBrought r = Reach-IsSound r (λ id ids h. absurd cc)

-- The dialog is opened on a channel with a cached list while the newest request, for another
-- channel, still waits: the reply is taken for current, and the list of the other channel replaces
-- the one that belongs to the channel on display.
pub stale_candidates :
    (e : Engine) (c : Channel) (s : Dialog) (p : Pending) (data' : Json) (ids : List Text)
    (detail : List Json × Dict (List VoiceEntry))
    → parse_models_detail e c.models ≡ some detail
    → get c.id s.upstream_cache ≡ some ids
    → p.seq ≡ s.fetch_seq
    → ((open_manage_models e c s).0.upstream_ids ≡ some ids)
      × ((finish_load p (fulfilled data') (open_manage_models e c s).0).0.managing ≡ some c)
      × ((finish_load p (fulfilled data') (open_manage_models e c s).0).0.upstream_ids
          ≡ some (reply_ids data'))
unfolding open_manage_models show_detail show_with finish_load
stale_candidates e c s p data' ids detail h g same = rw (h, g) (ground arith)
