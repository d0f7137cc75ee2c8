-- ===== src/Config/Workers/Names.antt =====
-- `SortedWorkerNames` (config/workers.go): the names in the byte order of `sort.Strings`.
use polka.Base.{Text, Bool, true, false, List, [], ◌∷◌, map, if◌then◌else◌, ltb, eqb, ◌≡◌, refl}
use polka.Base.{arith, ◌⊎◌, inl, inr}
use polka.Base.Dict.{Dict}

-- `s <= t` of Go strings
unfoldable pub text_le : Text → Text → Bool
text_le [] t = true
text_le (c ∷ s) [] = false
text_le (c ∷ s) (d ∷ t) =
    let rest = text_le s t in if ltb c d then true else if eqb c d then rest else false

unfoldable pub insert_sorted : Text → List Text → List Text
unfolding text_le
insert_sorted s [] = s ∷ []
insert_sorted s (t ∷ ts) = if text_le s t then s ∷ t ∷ ts else t ∷ insert_sorted s ts

-- `sort.Strings`: insertion sort gives the one sorted order
unfoldable pub sort_texts : List Text → List Text
unfolding insert_sorted
sort_texts [] = []
sort_texts (s ∷ ss) = insert_sorted s (sort_texts ss)

abbrev pub keys {ℓ} : {V : Type ℓ} → Dict V → List Text
keys = map (λ (k, _). k)

unfoldable pub sorted_worker_names {ℓ} : {V : Type ℓ} → Dict V → List Text
unfolding sort_texts
sorted_worker_names workers = sort_texts (keys workers)

text_le_total : (s t : Text) → (text_le s t ≡ true) ⊎ (text_le t s ≡ true)
unfolding text_le
text_le_total [] t = inl refl
text_le_total (c ∷ s) [] = inr refl
text_le_total (c ∷ s) (d ∷ t) = ground (arith, text_le_total s t)

-- two texts that are each at most the other are the same
pub text_le_antisymm : (s t : Text) → text_le s t ≡ true → text_le t s ≡ true → s ≡ t
unfolding text_le
text_le_antisymm [] [] h g = refl
text_le_antisymm [] (d ∷ t) h g = ground arith
text_le_antisymm (c ∷ s) [] h g = ground arith
text_le_antisymm (c ∷ s) (d ∷ t) h g = ground (arith, text_le_antisymm s t)

pub text_le_trans : (s t u : Text) → text_le s t ≡ true → text_le t u ≡ true → text_le s u ≡ true
unfolding text_le
text_le_trans [] t u h g = refl
text_le_trans (c ∷ s) [] u h g = ground arith
text_le_trans (c ∷ s) (d ∷ t) [] h g = ground arith
text_le_trans (c ∷ s) (d ∷ t) (e ∷ u) h g = ground (arith, text_le_trans s t u)

-- each text is at most the next
abbrev pub IsSorted : List Text → Type 0
IsSorted [] = Unit
IsSorted (s ∷ []) = Unit
IsSorted (s ∷ t ∷ ts) = (text_le s t ≡ true) × IsSorted (t ∷ ts)

insert_sorted-IsSorted : (s : Text) (ts : List Text) → IsSorted ts → IsSorted (insert_sorted s ts)
unfolding insert_sorted
insert_sorted-IsSorted s [] h = tt
insert_sorted-IsSorted s (t ∷ []) h = ground (arith, text_le_total s t)
insert_sorted-IsSorted s (t ∷ u ∷ ts) h =
    ground (arith, text_le_total s t, insert_sorted-IsSorted s (u ∷ ts))

-- Sorted names are in order.
pub sort_texts-IsSorted : (ss : List Text) → IsSorted (sort_texts ss)
unfolding sort_texts
sort_texts-IsSorted [] = tt
sort_texts-IsSorted (s ∷ ss) = insert_sorted-IsSorted s (sort_texts ss) (sort_texts-IsSorted ss)
