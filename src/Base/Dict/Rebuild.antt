-- ===== src/Base/Dict/Rebuild.antt =====
-- The loop by which every normalisation fills a fresh map: `for k, v := range m { out[k'] = v' }`,
-- where `f k v` is the entry that the body writes, or `none` for `continue`.
use mathlib.Core.Path.{◌≡◌, refl, sym, ◌∙◌}
use mathlib.Core.Logic.{◌≢◌}
use mathlib.Core.Option.{Option, none, some}
use mathlib.Core.List.{[], ◌∷◌, ◌++◌, append_assoc, append-nil}
use native.Mathlib.Omega.{arith}
use polka.Base.Lists.{All}
use polka.Base.Strings.{Text}
use polka.Base.Dict.{Dict, lookup, insert, NodupKeys}
use polka.Base.Dict.Laws.{insert-All, lookup-nil, lookup-cons, insert-NodupKeys}

module _ {ℓ κ} {V : Type ℓ} {W : Type κ} (f : Text → V → Option (Text × W)) where
  abbrev pub put_entry : Option (Text × W) → Dict W → Dict W
  put_entry none out = out
  put_entry (some (k, w)) out = insert k w out

  unfoldable pub rebuild_from : Dict W → Dict V → Dict W
  unfolding insert
  rebuild_from out [] = out
  rebuild_from out ((k, v) ∷ m) = rebuild_from (put_entry (f k v) out) m

  unfoldable pub rebuild : Dict V → Dict W
  unfolding rebuild_from
  rebuild m = rebuild_from [] m

  put_entry-NodupKeys :
      (o : Option (Text × W)) (out : Dict W) → NodupKeys out → NodupKeys (put_entry o out)
  put_entry-NodupKeys none out u = u
  put_entry-NodupKeys (some (k, w)) out u = insert-NodupKeys k w out u

  rebuild_from-NodupKeys :
      (out : Dict W) (m : Dict V) → NodupKeys out → NodupKeys (rebuild_from out m)
  unfolding rebuild_from
  rebuild_from-NodupKeys out [] u = u
  rebuild_from-NodupKeys out ((k, v) ∷ m) u =
      rebuild_from-NodupKeys (put_entry (f k v) out) m (put_entry-NodupKeys (f k v) out u)

  -- The fresh map has one entry for a key.
  pub rebuild-NodupKeys : (m : Dict V) → NodupKeys (rebuild m)
  unfolding rebuild
  rebuild-NodupKeys m = rebuild_from-NodupKeys [] m tt

module _ {ℓ κ} {V : Type ℓ} {W : Type κ} (f : Text → V → Option (Text × W)) where
  module _ {μ} (P : Text × W → Type μ)
      (good : (k : Text) (v : V) (e : Text × W) → f k v ≡ some e → P e) where
    put_entry-All :
        (k : Text) (v : V) (o : Option (Text × W)) (out : Dict W)
        → f k v ≡ o
        → All P out
        → All P (put_entry f o out)
    put_entry-All k v none out e h = h
    put_entry-All k v (some (j, w)) out e h = insert-All P j w out (good k v (j, w) e) h

    rebuild_from-All : (out : Dict W) (m : Dict V) → All P out → All P (rebuild_from f out m)
    unfolding rebuild_from
    rebuild_from-All out [] h = h
    rebuild_from-All out ((k, v) ∷ m) h =
        rebuild_from-All (put_entry f (f k v) out) m (put_entry-All k v (f k v) out refl h)

    -- What holds of every entry that the body writes holds of every entry of the result.
    pub rebuild-All : (m : Dict V) → All P (rebuild f m)
    unfolding rebuild
    rebuild-All m = rebuild_from-All [] m tt

All-trivial {ℓ} :
    {W : Type ℓ} (m : Dict W)
    → All (λ (k, w). ◌≡◌ {A = Option (Text × W)} (some (k, w)) (some (k, w))) m
All-trivial [] = tt
All-trivial (e ∷ m) = (refl, All-trivial m)

module _ {ℓ} {W : Type ℓ} where
  lookup-append_ne_none :
      (j k : Text) (w : W) (out m : Dict W) → j ≡ k → lookup j (out ++ (k, w) ∷ m) ≢ none
  unfolding lookup
  lookup-append_ne_none j k w [] m e = ground arith
  lookup-append_ne_none j k w ((i, x) ∷ out) m e = ground (arith, lookup-append_ne_none j k w out m)

  lookup-append_none :
      (k : Text) (w : W) (out m : Dict W) → NodupKeys (out ++ (k, w) ∷ m) → lookup k out ≡ none
  lookup-append_none k w [] m u = lookup-nil k
  lookup-append_none k w ((j, x) ∷ out) m (fresh, u) =
      rw lookup-cons
        (ground (arith, lookup-append_none k w out m u, lookup-append_ne_none j k w out m))

  insert-append :
      (k : Text) (w : W) (out : Dict W) → lookup k out ≡ none → insert k w out ≡ out ++ (k, w) ∷ []
  unfolding insert lookup
  insert-append k w [] e = refl
  insert-append k w ((j, x) ∷ out) e = ground (arith, insert-append k w out)

  module _ (f : Text → W → Option (Text × W)) where
    rebuild_from_fixed :
        (out m : Dict W)
        → NodupKeys (out ++ m)
        → All (λ (k, w). f k w ≡ some (k, w)) m
        → rebuild_from f out m ≡ out ++ m
    unfolding rebuild_from
    rebuild_from_fixed out [] u h = rw append-nil
    rebuild_from_fixed out ((k, w) ∷ m) u (e, h) =
        let copied = insert-append k w out (lookup-append_none k w out m u) in
        rw (e, copied)
          (rebuild_from_fixed (out ++ (k, w) ∷ []) m (rw append_assoc u) h
            ∙ append_assoc out ((k, w) ∷ []) m)

    -- A map of entries that the body writes unchanged is its own copy.
    pub rebuild_fixed :
        (m : Dict W) → NodupKeys m → All (λ (k, w). f k w ≡ some (k, w)) m → rebuild f m ≡ m
    unfolding rebuild
    rebuild_fixed m u h = rebuild_from_fixed [] m u h

    -- A loop whose body writes its own output unchanged is idempotent.
    pub rebuild-rebuild :
        ((k : Text) (w : W) (e : Text × W) → f k w ≡ some e → f e.0 e.1 ≡ some e)
        → (m : Dict W) → rebuild f (rebuild f m) ≡ rebuild f m
    rebuild-rebuild h m =
        rebuild_fixed (rebuild f m) (rebuild-NodupKeys f m)
          (rebuild-All f (λ (k, w). f k w ≡ some (k, w)) (λ k w e p. h k w e p) m)

module _ {ℓ κ} {V : Type ℓ} {W : Type κ} (h : V → W) where
  -- the same keys with other values
  abbrev pub map_values : Dict V → Dict W
  map_values [] = []
  map_values ((k, v) ∷ m) = (k, h v) ∷ map_values m

  pub lookup-map_values :
      (k : Text) (m : Dict V) → lookup k m ≡ none → lookup k (map_values m) ≡ none
  unfolding lookup
  lookup-map_values k [] e = refl
  lookup-map_values k ((j, v) ∷ m) e = ground (arith, lookup-map_values k m)

  pub map_values-NodupKeys : (m : Dict V) → NodupKeys m → NodupKeys (map_values m)
  map_values-NodupKeys [] u = tt
  map_values-NodupKeys ((k, v) ∷ m) (fresh, u) =
      (lookup-map_values k m fresh, map_values-NodupKeys m u)

  module _ {μ} {X : Type μ} (g : Text → W → Option (Text × X)) where
    rebuild_from-map_values :
        (out : Dict X) (m : Dict V)
        → rebuild_from g out (map_values m) ≡ rebuild_from (λ k v. g k (h v)) out m
    unfolding rebuild_from
    rebuild_from-map_values out [] = refl
    rebuild_from-map_values out ((k, v) ∷ m) =
        rebuild_from-map_values (put_entry g (g k (h v)) out) m

    pub rebuild-map_values : (m : Dict V) → rebuild g (map_values m) ≡ rebuild (λ k v. g k (h v)) m
    unfolding rebuild
    rebuild-map_values m = rebuild_from-map_values [] m

  pub rebuild_from_copy :
      (out : Dict W) (m : Dict V)
      → NodupKeys (out ++ map_values m)
      → rebuild_from (λ k v. some (k, h v)) out m ≡ out ++ map_values m
  rebuild_from_copy out m u =
      sym (rebuild_from-map_values (λ k w. some (k, w)) out m)
      ∙ rebuild_from_fixed (λ k w. some (k, w)) out (map_values m) u (All-trivial (map_values m))

  -- A loop that converts each value and keeps its key.
  pub rebuild_copy : (m : Dict V) → NodupKeys m → rebuild (λ k v. some (k, h v)) m ≡ map_values m
  unfolding rebuild
  rebuild_copy m u = rebuild_from_copy [] m (map_values-NodupKeys m u)

-- A loop over a converted copy of a freshly filled map.
pub rebuild_copy_rebuild {ℓ κ μ ν} :
    {V : Type ℓ} {W : Type κ} {X : Type μ} {Y : Type ν} (f : Text → V → Option (Text × W))
    (h : W → X) (g : Text → X → Option (Text × Y)) (m : Dict V)
    → rebuild g (rebuild (λ k w. some (k, h w)) (rebuild f m))
      ≡ rebuild (λ k w. g k (h w)) (rebuild f m)
rebuild_copy_rebuild f h g m =
    rw (rebuild_copy h (rebuild f m) (rebuild-NodupKeys f m)) (rebuild-map_values h g (rebuild f m))

module _ {ℓ κ} {V : Type ℓ} {W : Type κ} (f : Text → V → Option (Text × W)) where
  pub rebuild_from-append :
      (out : Dict W) (m n : Dict V)
      → rebuild_from f out (m ++ n) ≡ rebuild_from f (rebuild_from f out m) n
  unfolding rebuild_from
  rebuild_from-append out [] n = refl
  rebuild_from-append out ((k, v) ∷ m) n = rebuild_from-append (put_entry f (f k v) out) m n

  -- A loop whose body writes nothing leaves the map alone.
  pub rebuild_from_skip :
      (out : Dict W) (m : Dict V) → All (λ (k, v). f k v ≡ none) m → rebuild_from f out m ≡ out
  unfolding rebuild_from
  rebuild_from_skip out [] h = refl
  rebuild_from_skip out ((k, v) ∷ m) (e, h) = rw e (rebuild_from_skip out m h)
