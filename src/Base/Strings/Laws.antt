-- ===== src/Base/Strings/Laws.antt =====
-- Laws of the text operations.
use Prim.Native.Nat.{ℕ}
use Prim.Native.Nat.{◌≤◌}
use polka.Base.Lists.{length}
use mathlib.Core.Path.{◌≡◌, refl}
use mathlib.Core.Logic.{◌≢◌}
use mathlib.Core.Bool.{true}
use mathlib.Core.List.{List, [], ◌∷◌}
use native.Mathlib.Omega.{arith}
use polka.Base.Strings.{Text, null, is_space, lower_char, lower, trim_left, trim_right, trim, norm}
use polka.Base.Strings.{◌==◌, equal_fold, split, join, cons_part}

lower_char_idem : (c : ℕ) → lower_char (lower_char c) ≡ lower_char c
unfolding lower_char
lower_char_idem c = ground arith

is_space-lower_char : (c : ℕ) → is_space (lower_char c) ≡ is_space c
unfolding is_space lower_char
is_space-lower_char c = ground arith

pub lower-lower : (s : Text) → lower (lower s) ≡ lower s
unfolding lower
lower-lower [] = refl
lower-lower (c ∷ s) = cc (lower_char_idem c, lower-lower s)

null-lower : (s : Text) → null (lower s) ≡ null s
unfolding lower
null-lower [] = refl
null-lower (c ∷ s) = refl

trim_left-lower : (s : Text) → trim_left (lower s) ≡ lower (trim_left s)
unfolding lower trim_left
trim_left-lower [] = refl
trim_left-lower (c ∷ s) = ground (arith, is_space-lower_char c, trim_left-lower s)

trim_right-lower : (s : Text) → trim_right (lower s) ≡ lower (trim_right s)
unfolding trim_right lower
trim_right-lower [] = refl
trim_right-lower (c ∷ s) =
    ground (arith, is_space-lower_char c, trim_right-lower s, null-lower (trim_right s))

trim-lower : (s : Text) → trim (lower s) ≡ lower (trim s)
unfolding trim
trim-lower s = rw (trim_left-lower s) (trim_right-lower (trim_left s))

trim_right-trim_right : (s : Text) → trim_right (trim_right s) ≡ trim_right s
unfolding trim_right
trim_right-trim_right [] = refl
trim_right-trim_right (c ∷ s) = ground (arith, trim_right-trim_right s)

trim_left-trim_right : (s : Text) → trim_left (trim_right (trim_left s)) ≡ trim_right (trim_left s)
unfolding trim_left trim_right
trim_left-trim_right [] = refl
trim_left-trim_right (c ∷ s) = ground (arith, trim_left-trim_right s)

pub trim-trim : (s : Text) → trim (trim s) ≡ trim s
unfolding trim
trim-trim s = rw (trim_left-trim_right s) (trim_right-trim_right (trim_left s))

pub trim_left-trim : (s : Text) → trim_left (trim s) ≡ trim s
unfolding trim
trim_left-trim s = trim_left-trim_right s

pub trim_right-trim : (s : Text) → trim_right (trim s) ≡ trim s
unfolding trim
trim_right-trim s = trim_right-trim_right (trim_left s)

pub length-trim_left : (s : Text) → length (trim_left s) ≤ length s
unfolding trim_left
length-trim_left [] = omega arith
length-trim_left (c ∷ s) = ground (arith, length-trim_left s)

pub trim-nil : trim [] ≡ []
unfolding trim
trim-nil = refl

pub norm-nil : norm [] ≡ []
unfolding norm
norm-nil = refl

-- A normal form is its own normal form.
pub norm-norm : (s : Text) → norm (norm s) ≡ norm s
unfolding norm
norm-norm s = rw (trim-lower, trim-trim, lower-lower)

pub trim-norm : (s : Text) → trim (norm s) ≡ norm s
unfolding norm
trim-norm s = rw (trim-lower, trim-trim)

pub lower-norm : (s : Text) → lower (norm s) ≡ norm s
unfolding norm
lower-norm s = lower-lower (trim s)

pub norm-trim : (s : Text) → norm (trim s) ≡ norm s
unfolding norm
norm-trim s = rw trim-trim

-- Comparing a trimmed text with a normal form under case folding is comparing normal forms.
pub equal_fold-norm : (s t : Text) → equal_fold (trim s) (norm t) ≡ (norm s == norm t)
unfolding equal_fold norm
equal_fold-norm s t = rw lower-lower

pub text-eq_iff : (s t : Text) → ((s == t) ≡ true) → s ≡ t
text-eq_iff s t h = ground arith

cons_part-ne-nil : (c : ℕ) (ps : List Text) → cons_part c ps ≢ []
cons_part-ne-nil c [] = ground arith
cons_part-ne-nil c (p ∷ ps) = ground arith

split-ne-nil : (sep : ℕ) (s : Text) → split sep s ≢ []
unfolding split
split-ne-nil sep [] = ground arith
split-ne-nil sep (c ∷ s) = ground (arith, cons_part-ne-nil c (split sep s))

join-cons_part :
    (sep c : ℕ) (ps : List Text) → ps ≢ [] → join sep (cons_part c ps) ≡ c ∷ join sep ps
unfolding join
join-cons_part sep c [] h = absurd (h refl)
join-cons_part sep c (p ∷ []) h = refl
join-cons_part sep c (p ∷ q ∷ ps) h = refl

join-empty_part : (sep : ℕ) (ps : List Text) → ps ≢ [] → join sep ([] ∷ ps) ≡ sep ∷ join sep ps
unfolding join
join-empty_part sep [] h = absurd (h refl)
join-empty_part sep (p ∷ ps) h = refl

-- Joining what a split gives restores the text.
pub join-split : (sep : ℕ) (s : Text) → join sep (split sep s) ≡ s
unfolding split
join-split sep [] = unfold join in refl
join-split sep (c ∷ s) = ground (
  arith,
  join-split sep s,
  split-ne-nil sep s,
  join-cons_part sep c (split sep s),
  join-empty_part sep (split sep s),
)
