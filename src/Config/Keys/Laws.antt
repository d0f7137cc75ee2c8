-- ===== src/Config/Keys/Laws.antt =====
-- What a read sees after a write or a delete, for keys in normal form.
use polka.Base.{Text, ◌==◌, norm, Bool, true, false, ◌&&◌, not, none, some, [], ◌∷◌}
use polka.Base.{◌≡◌, refl, arith, if◌then◌else◌, Bool-cases, inl, inr}
use polka.Base.Strings.Laws.{equal_fold-norm, norm-norm}
use polka.Base.Dict.{Dict, insert, delete, delete_where, find_where}
use polka.Base.Dict.Laws.{lookup-insert, lookup-delete, lookup-delete_where}
use polka.Config.Keys.{matches_key, lookup_fold, delete_fold, set_fold}

pub matches_key-norm : (t raw : Text) → matches_key (norm t) raw ≡ (norm raw == norm t)
unfolding matches_key
matches_key-norm t raw = equal_fold-norm raw t

module _ {ℓ} {V : Type ℓ} (p : Text → Bool) where
  find_where-delete_where :
      (q : Text → Bool)
      → ((j : Text) → p j ≡ true → q j ≡ false)
      → (m : Dict V) → find_where p (delete_where q m) ≡ find_where p m
  unfolding find_where delete_where
  find_where-delete_where q h [] = refl
  find_where-delete_where q h ((j, w) ∷ m) = ground (arith, h j, find_where-delete_where q h m)

  find_where-delete :
      (k : Text) → p k ≡ false → (m : Dict V) → find_where p (delete k m) ≡ find_where p m
  unfolding find_where delete
  find_where-delete k h [] = refl
  find_where-delete k h ((j, w) ∷ m) = ground (arith, find_where-delete k h m)

  find_where-insert :
      (k : Text) (v : V) → p k ≡ false → (m : Dict V) → find_where p (insert k v m) ≡ find_where p m
  unfolding find_where insert
  find_where-insert k v h [] = ground arith
  find_where-insert k v h ((j, w) ∷ m) = ground (arith, find_where-insert k v h m)

  find_where-delete_self : (m : Dict V) → find_where p (delete_where p m) ≡ none
  unfolding find_where delete_where
  find_where-delete_self [] = refl
  find_where-delete_self ((j, w) ∷ m) = ground (arith, find_where-delete_self m)

module _ {ℓ} {V : Type ℓ} (t u : Text) (v : V) (m : Dict V) where
  -- a key that matches one normal form matches no other
  apart :
      (norm u == norm t) ≡ false
      → (j : Text) → matches_key (norm u) j ≡ true
      → matches_key (norm t) j ≡ false
  apart h j e = ground (arith, matches_key-norm u j, matches_key-norm t j)

  abbrev others : Text → Bool
  others raw = not (raw == norm t) && matches_key (norm t) raw

  -- a key that matches one normal form is not among the other spellings of another
  apart_others :
      (norm u == norm t) ≡ false → (j : Text) → matches_key (norm u) j ≡ true → others j ≡ false
  apart_others h j e = ground (arith, apart h j e)

  mismatch : (norm u == norm t) ≡ false → matches_key (norm u) (norm t) ≡ false
  mismatch h = ground (arith, matches_key-norm u (norm t), norm-norm t)

  mismatch_back : (norm u == norm t) ≡ false → matches_key (norm t) (norm u) ≡ false
  mismatch_back h = ground (arith, matches_key-norm t (norm u), norm-norm u)

  pub lookup_fold-set_fold :
      lookup_fold (norm u) (set_fold (norm t) v m)
      ≡ (if norm u == norm t then some v else lookup_fold (norm u) m)
  unfolding lookup_fold set_fold
  lookup_fold-set_fold = elim (Bool-cases (norm u == norm t)) [
    | inl same ↦ ground (arith, lookup-insert (norm u) (norm t) v (delete_where others m))
    | inr differ ↦
        let p : Text → Bool = matches_key (norm u) in
        ground (
          arith,
          lookup-insert (norm u) (norm t) v (delete_where others m),
          lookup-delete_where (norm u) others m,
          mismatch_back differ,
          find_where-insert p (norm t) v (mismatch differ) (delete_where others m),
          find_where-delete_where p others (apart_others differ) m,
        )
  ]

  pub lookup_fold-delete_fold :
      lookup_fold (norm u) (delete_fold (norm t) m)
      ≡ (if norm u == norm t then none else lookup_fold (norm u) m)
  unfolding lookup_fold delete_fold
  lookup_fold-delete_fold = elim (Bool-cases (norm u == norm t)) [
    | inl same ↦ ground (
      arith,
      lookup-delete_where (norm u) (matches_key (norm t)) (delete (norm t) m),
      lookup-delete (norm u) (norm t) m,
      find_where-delete_self (matches_key (norm u)) (delete (norm t) m),
    )
    | inr differ ↦
        let p : Text → Bool = matches_key (norm u) in
        ground (
          arith,
          lookup-delete_where (norm u) (matches_key (norm t)) (delete (norm t) m),
          lookup-delete (norm u) (norm t) m,
          mismatch_back differ,
          find_where-delete_where p (matches_key (norm t)) (apart differ) (delete (norm t) m),
          find_where-delete p (norm t) (mismatch differ) m,
        )
  ]
