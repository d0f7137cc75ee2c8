-- ===== src/Tools/Layers/Order.antt =====
-- What the layers hold and in which order, and what a reported cycle means (tools/registry.go).
use polka.Base.{ℕ, zero, suc, Text, ◌==◌, Bool, true, false, ◌||◌, List, [], ◌∷◌, ◌++◌, length, leb}
use polka.Base.{◌≡◌, ◌≢◌, refl, sym, subst, ap₂, Bool-cases, ◌∙◌, arith, inl, inr, All}
use polka.Base.Dict.{Dict, lookup_or}
use polka.Base.Result.{Result, ok, err, ◌>>=◌, >>=-eq-ok, ok_injective, ok_not_err}
use polka.Tools.Layers.{
  InstallRequest, LayerError, cycle_detected, is_remaining, any_remaining, is_ready, ready,
}
use polka.Tools.Layers.{blocked, insert_by_order, sort_by_order, layer_rounds, layer_requests}
use mathlib.Core.List.{Perm, Permᴰ, perm_middle, cons-ne-nil}
use polka.Tools.Layers.Progress.{ready-cases, layer_rounds_stuck, layer_rounds_taken}
use mathlib.Core.Logic.{∥∥₁_elim}
use mathlib.Core.List.Perm

-- the requests of all layers
abbrev pub concat : List (List InstallRequest) → List InstallRequest
concat [] = []
concat (l ∷ ls) = l ++ concat ls

insert_by_order-perm :
    (order : Dict ℕ) (r : InstallRequest) (ss : List InstallRequest)
    → Perm (insert_by_order order r ss) (r ∷ ss)
unfolding insert_by_order
insert_by_order-perm order r [] = Perm.refl (r ∷ [])
insert_by_order-perm order r (s ∷ ss) =
    elim (Bool-cases (leb (lookup_or 0 r.tool order) (lookup_or 0 s.tool order))) [
      | inl e ↦ rw e (Perm.refl (r ∷ s ∷ ss))
      | inr e ↦ rw e (Perm.trans (Perm.cons s (insert_by_order-perm order r ss)) (Perm.swap r s ss))
    ]

sort_by_order-perm : (order : Dict ℕ) (rs : List InstallRequest) → Perm (sort_by_order order rs) rs
unfolding sort_by_order
sort_by_order-perm order [] = Perm.refl []
sort_by_order-perm order (r ∷ rs) =
    Perm.trans (insert_by_order-perm order r (sort_by_order order rs))
      (Perm.cons r (sort_by_order-perm order rs))

ready-blocked-perm :
    (deps : Dict (List Text)) (remaining rs : List InstallRequest)
    → Perm (ready deps remaining rs ++ blocked deps remaining rs) rs
unfolding ready blocked
ready-blocked-perm deps remaining [] = Perm.refl []
ready-blocked-perm deps remaining (r ∷ rs) =
    let rest = ready-blocked-perm deps remaining rs in
    elim (Bool-cases (is_ready deps remaining r)) [
      | inl e ↦ rw e (Perm.cons r rest)
      | inr e ↦ rw e (Perm.trans (perm_middle (ready deps remaining rs) _) (Perm.cons r rest))
    ]

pub or_left_comm : (p q r : Bool) → (p || (q || r)) ≡ (q || (p || r))
or_left_comm p q r = ground arith

pub is_remaining-permᴰ :
    (id : Text) {xs ys : List InstallRequest}
    → Permᴰ xs ys
    → is_remaining id xs ≡ is_remaining id ys
is_remaining-permᴰ id Permᴰ.nil = refl
is_remaining-permᴰ id (Permᴰ.cons e p) =
    ap₂ (λ (r : InstallRequest) b. r.tool == id || b) e (is_remaining-permᴰ id p)
is_remaining-permᴰ id (Permᴰ.swap {a = x} {b = y} {l = l} e f) =
    or_left_comm (x.tool == id) (y.tool == id) (is_remaining id l)
    ∙ ap₂ (λ (r t : InstallRequest). r.tool == id || (t.tool == id || is_remaining id l)) f e
is_remaining-permᴰ id (Permᴰ.trans p q) = is_remaining-permᴰ id p ∙ is_remaining-permᴰ id q

-- whether a tool remains does not depend on the order
pub is_remaining-perm :
    (id : Text) {xs ys : List InstallRequest} → Perm xs ys → is_remaining id xs ≡ is_remaining id ys
is_remaining-perm id p = ∥∥₁_elim p (hlevel) (is_remaining-permᴰ id)

any_remaining-perm :
    (ids : List Text) {xs ys : List InstallRequest}
    → Perm xs ys
    → any_remaining ids xs ≡ any_remaining ids ys
any_remaining-perm [] p = refl
any_remaining-perm (id ∷ ids) p = ap₂ ◌||◌ (is_remaining-perm id p) (any_remaining-perm ids p)

All-insert_by_order {κ} :
    (P : InstallRequest → Type κ) (order : Dict ℕ) (r : InstallRequest) (ss : List InstallRequest)
    → P r
    → All P ss
    → All P (insert_by_order order r ss)
unfolding insert_by_order
All-insert_by_order P order r [] p h = (p, tt)
All-insert_by_order P order r (s ∷ ss) p (q, h) =
    ground (arith, All-insert_by_order P order r ss p h)

All-sort_by_order {κ} :
    (P : InstallRequest → Type κ) (order : Dict ℕ) (rs : List InstallRequest)
    → All P rs
    → All P (sort_by_order order rs)
unfolding sort_by_order
All-sort_by_order P order [] h = tt
All-sort_by_order P order (r ∷ rs) (p, h) =
    All-insert_by_order P order r (sort_by_order order rs) p (All-sort_by_order P order rs h)

bind-eq-err :
    (m : Result LayerError (List (List InstallRequest))) (layer : List InstallRequest)
    (e : LayerError)
    → (m >>= λ layers. ok (layer ∷ layers)) ≡ err e
    → m ≡ err e
bind-eq-err (ok layers) layer e h = cc
bind-eq-err (err f) layer e h = ground arith

module _ (deps : Dict (List Text)) where
  -- none of the tools that the request depends on is among `rs`
  abbrev pub IsFree : List InstallRequest → InstallRequest → Type 0
  IsFree rs r = any_remaining (lookup_or [] r.tool deps) rs ≡ false

  -- no request of a layer depends on a request of its own layer or of a later one
  abbrev pub IsLayered : List (List InstallRequest) → Type 0
  IsLayered [] = Unit
  IsLayered (l ∷ ls) = All (IsFree (l ++ concat ls)) l × IsLayered ls

  ready-IsFree :
      (remaining rs : List InstallRequest) → All (IsFree remaining) (ready deps remaining rs)
  unfolding ready
  ready-IsFree remaining [] = tt
  ready-IsFree remaining (r ∷ rs) = ground (arith, ready-IsFree remaining rs)

  All-IsFree-perm :
      (xs ys rs : List InstallRequest) → Perm xs ys → All (IsFree xs) rs → All (IsFree ys) rs
  All-IsFree-perm xs ys [] p h = tt
  All-IsFree-perm xs ys (r ∷ rs) p (e, h) =
      (sym (any_remaining-perm (lookup_or [] r.tool deps) p) ∙ e, All-IsFree-perm xs ys rs p h)

  -- the requests of the layers, and that their order is right
  abbrev Good : List InstallRequest → List (List InstallRequest) → Type 0
  Good rs layers = Perm (concat layers) rs × IsLayered layers

  module _ (order : Dict ℕ) where
    Good-nil :
        (layers : List (List InstallRequest))
        → ◌≡◌ {A = Result LayerError (List (List InstallRequest))} (ok []) (ok layers)
        → Good [] layers
    Good-nil layers h = subst (Good []) (ok_injective h) (Perm.refl [], tt)

    -- a layer in front of good layers for the requests that it leaves
    Good-cons :
        (rs : List InstallRequest) (layers : List (List InstallRequest))
        → Good (blocked deps rs rs) layers
        → Good rs (sort_by_order order (ready deps rs rs) ∷ layers)
    Good-cons rs layers (p, g) =
        let all =
          Perm.trans (Perm.append (sort_by_order-perm order (ready deps rs rs)) p)
            (ready-blocked-perm deps rs rs) in
        (
          all,
          (
            All-IsFree-perm rs (sort_by_order order (ready deps rs rs) ++ concat layers) _
                (Perm.symm all)
                (All-sort_by_order (IsFree rs) order (ready deps rs rs) (ready-IsFree rs rs)),
            g,
          ),
        )

    rounds-Good :
        (f : ℕ) (rs : List InstallRequest) (layers : List (List InstallRequest))
        → layer_rounds order deps f rs ≡ ok layers
        → Good rs layers
    rounds-Good zero [] layers h = unfold layer_rounds in Good-nil layers h
    rounds-Good zero (r ∷ rs) layers h = unfold layer_rounds in cc
    rounds-Good (suc f) [] layers h = unfold layer_rounds in Good-nil layers h
    rounds-Good (suc f) (r ∷ rs) layers h = elim (ready-cases deps (r ∷ rs) (r ∷ rs)) [
      | inl e ↦
          absurd (ok_not_err layers cycle_detected (sym h ∙ layer_rounds_stuck order deps f r rs e))
      | inr (l, ls, e) ↦
          let (rest, p, q) =
            >>=-eq-ok (layer_rounds order deps f (blocked deps (r ∷ rs) (r ∷ rs))) _
              (sym (layer_rounds_taken order deps f r rs e) ∙ h) in
          subst (Good (r ∷ rs)) (ok_injective q)
            (Good-cons (r ∷ rs) rest (rounds-Good f (blocked deps (r ∷ rs) (r ∷ rs)) rest p))
    ]

  -- If layers are given, they hold every request once and nothing else, and no request depends on
  -- one of its own layer or of a later layer.
  pub layer_requests_sound :
      (order : Dict ℕ) (rs : List InstallRequest) (layers : List (List InstallRequest))
      → layer_requests order deps rs ≡ ok layers
      → Perm (concat layers) rs × IsLayered layers
  unfolding layer_requests
  layer_requests_sound order rs layers h = rounds-Good order (length rs) rs layers h

  -- every one of `rs` depends on one of `stuck`
  abbrev pub AllBlocked : List InstallRequest → List InstallRequest → Type 0
  AllBlocked stuck rs = All (λ r. any_remaining (lookup_or [] r.tool deps) stuck ≡ true) rs

  ready-nil-AllBlocked :
      (remaining rs : List InstallRequest) → ready deps remaining rs ≡ [] → AllBlocked remaining rs
  unfolding ready
  ready-nil-AllBlocked remaining [] h = tt
  ready-nil-AllBlocked remaining (r ∷ rs) h = ground (arith, ready-nil-AllBlocked remaining rs)

  is_remaining-blocked :
      (id : Text) (remaining rs : List InstallRequest)
      → is_remaining id (blocked deps remaining rs) ≡ true
      → is_remaining id rs ≡ true
  unfolding blocked
  is_remaining-blocked id remaining [] h = h
  is_remaining-blocked id remaining (r ∷ rs) h =
      ground (arith, is_remaining-blocked id remaining rs)

  -- requests among `rs`, at least one, each of which depends on one of them
  abbrev pub HasCycle : List InstallRequest → Type 0
  HasCycle rs =
      (stuck : List InstallRequest) × (stuck ≢ [])
      × ((id : Text) → is_remaining id stuck ≡ true → is_remaining id rs ≡ true)
      × AllBlocked stuck stuck

  rounds_cycle :
      (order : Dict ℕ) (f : ℕ) (rs : List InstallRequest)
      → layer_rounds order deps f rs ≡ err cycle_detected
      → HasCycle rs
  rounds_cycle order zero [] h = unfold layer_rounds in cc
  rounds_cycle order zero (r ∷ rs) h = unfold layer_rounds in cc
  rounds_cycle order (suc f) [] h = unfold layer_rounds in cc
  rounds_cycle order (suc f) (r ∷ rs) h = elim (ready-cases deps (r ∷ rs) (r ∷ rs)) [
    | inl e ↦ (r ∷ rs, cons-ne-nil r rs, λ id m. m, ready-nil-AllBlocked (r ∷ rs) (r ∷ rs) e)
    | inr (l, ls, e) ↦
        let left = blocked deps (r ∷ rs) (r ∷ rs) in
        let (stuck, n, sub, b) = rounds_cycle order f left (
          bind-eq-err (layer_rounds order deps f left) _ cycle_detected
            (sym (layer_rounds_taken order deps f r rs e) ∙ h)) in
        (stuck, n, λ id m. is_remaining-blocked id (r ∷ rs) (r ∷ rs) (sub id m), b)
  ]

  -- If a cycle is reported, there are requests, at least one, each of which depends on another one
  -- of them or on itself.
  pub layer_requests_cycle :
      (order : Dict ℕ) (rs : List InstallRequest)
      → layer_requests order deps rs ≡ err cycle_detected
      → HasCycle rs
  unfolding layer_requests
  layer_requests_cycle order rs h = rounds_cycle order (length rs) rs h
