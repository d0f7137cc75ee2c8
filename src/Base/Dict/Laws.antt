-- ===== src/Base/Dict/Laws.antt =====
-- Lookup after each map operation, and that the operations keep one entry for a key.
use mathlib.Core.Path.{◌≡◌, refl}
use mathlib.Core.Bool.{Bool}
use mathlib.Core.Option.{none, some}
use mathlib.Core.List.{[], ◌∷◌, ◌++◌}
use native.Mathlib.Omega.{arith}
use polka.Base.Bools.{if◌then◌else◌}
use polka.Base.Lists.{All}
use polka.Base.Strings.{Text, ◌==◌}
use polka.Base.Dict.{Dict, lookup, lookup_or, insert, delete, delete_where, NodupKeys}

module _ {ℓ} {V : Type ℓ} where
  pub lookup-nil : (k : Text) → lookup {V = V} k [] ≡ none
  unfolding lookup
  lookup-nil k = refl

  pub lookup-cons :
      (j k : Text) (v : V) (m : Dict V)
      → lookup j ((k, v) ∷ m) ≡ (if j == k then some v else lookup j m)
  unfolding lookup
  lookup-cons j k v m = refl

  pub lookup-insert :
      (j k : Text) (v : V) (m : Dict V)
      → lookup j (insert k v m) ≡ (if j == k then some v else lookup j m)
  unfolding insert lookup
  lookup-insert j k v [] = refl
  lookup-insert j k v ((i, w) ∷ m) = ground (arith, lookup-insert j k v m)

  pub lookup_or-insert :
      (d : V) (j k : Text) (v : V) (m : Dict V)
      → lookup_or d j (insert k v m) ≡ (if j == k then v else lookup_or d j m)
  unfolding lookup_or
  lookup_or-insert d j k v m = ground (arith, lookup-insert j k v m)

  pub lookup-delete :
      (j k : Text) (m : Dict V) → lookup j (delete k m) ≡ (if j == k then none else lookup j m)
  unfolding delete lookup
  lookup-delete j k [] = ground arith
  lookup-delete j k ((i, w) ∷ m) = ground (arith, lookup-delete j k m)

  pub lookup-delete_where :
      (j : Text) (test : Text → Bool) (m : Dict V)
      → lookup j (delete_where test m) ≡ (if test j then none else lookup j m)
  unfolding delete_where lookup
  lookup-delete_where j test [] = ground arith
  lookup-delete_where j test ((i, w) ∷ m) = ground (arith, lookup-delete_where j test m)

  pub insert-NodupKeys : (k : Text) (v : V) (m : Dict V) → NodupKeys m → NodupKeys (insert k v m)
  unfolding insert
  insert-NodupKeys k v [] u = (lookup-nil k, tt)
  insert-NodupKeys k v ((j, w) ∷ m) (fresh, u) =
      ground (arith, insert-NodupKeys k v m u, lookup-insert j k v m)

  pub delete-NodupKeys : (k : Text) (m : Dict V) → NodupKeys m → NodupKeys (delete k m)
  unfolding delete
  delete-NodupKeys k [] u = tt
  delete-NodupKeys k ((j, w) ∷ m) (fresh, u) =
      ground (arith, delete-NodupKeys k m u, lookup-delete j k m)

  pub delete_where-NodupKeys :
      (test : Text → Bool) (m : Dict V) → NodupKeys m → NodupKeys (delete_where test m)
  unfolding delete_where
  delete_where-NodupKeys test [] u = tt
  delete_where-NodupKeys test ((j, w) ∷ m) (fresh, u) =
      ground (arith, delete_where-NodupKeys test m u, lookup-delete_where j test m)

pub insert-All {ℓ κ} :
    {W : Type ℓ} (P : Text × W → Type κ) (k : Text) (w : W) (m : Dict W)
    → P (k, w)
    → All P m
    → All P (insert k w m)
unfolding insert
insert-All P k w [] p h = (p, tt)
insert-All P k w ((j, x) ∷ m) p (q, h) = ground (arith, insert-All P k w m p h)

pub delete-All {ℓ κ} :
    {W : Type ℓ} (P : Text × W → Type κ) (k : Text) (m : Dict W) → All P m → All P (delete k m)
unfolding delete
delete-All P k [] h = tt
delete-All P k ((j, x) ∷ m) (q, h) = ground (arith, delete-All P k m h)

module _ {ℓ} {V : Type ℓ} where
  pub lookup-append :
      (k : Text) (m n : Dict V) → lookup k m ≡ none → lookup k n ≡ none → lookup k (m ++ n) ≡ none
  unfolding lookup
  lookup-append k [] n h g = g
  lookup-append k ((j, v) ∷ m) n h g = ground (arith, lookup-append k m n)

  pub append-NodupKeys :
      (m n : Dict V)
      → NodupKeys m
      → NodupKeys n
      → All (λ (k, _). lookup k n ≡ none) m
      → NodupKeys (m ++ n)
  append-NodupKeys [] n u w h = w
  append-NodupKeys ((k, v) ∷ m) n (fresh, u) w (e, h) =
      (lookup-append k m n fresh e, append-NodupKeys m n u w h)
