-- ===== src/Tools/Constraint/Parts.antt =====
-- Versions of numbers, taken apart at their dots and put together again (tools/manifest_rules.go).
use polka.Base.{
  ℕ, zero, suc, ◌+◌, ◌*◌, ◌-◌, Text, null, trim, Bool, true, false, ◌||◌, Option, none, some,
}
use polka.Base.{
  List, [], ◌∷◌, ◌++◌, length, if◌then◌else◌, leb, eqb, ◌≡◌, ◌≢◌, refl, ap, ap₂, sym, ◌∙◌, arith,
  All, All-map, All-append,
}
use polka.Base.Strings.{split, join, cons_part, is_space, trim_left, trim_right}
use polka.Base.Strings.Laws.{trim-trim}
use polka.Base.Int.{ℤ, pos}
use polka.Tools.Probe.{parse_digits, parse_int, unsigned, positive, negative}
use polka.Tools.Version.{parts, count}
use polka.Tools.Version.Order.{Reads, IsRelease}
use polka.Tools.Constraint.{take, truncate_version_parts, version_part_count}

-- neither space nor a dot
abbrev pub IsPlain : Text → Type 0
IsPlain = All (λ c. (is_space c ≡ false) × (eqb c b'.' ≡ false))

abbrev HasNoSpace : Text → Type 0
HasNoSpace = All (λ c. is_space c ≡ false)

parse_digits-IsPlain : (k : ℕ) (s : Text) (n : ℕ) → parse_digits k s ≡ some n → IsPlain s
unfolding parse_digits is_space
parse_digits-IsPlain k [] n h = tt
parse_digits-IsPlain k (c ∷ s) n h = ground (arith, parse_digits-IsPlain (k * 10 + (c - b'0')) s n)

unsigned-IsPlain : (s : Text) (n : ℕ) → unsigned s ≡ some n → IsPlain s
unsigned-IsPlain [] n h = tt
unsigned-IsPlain (c ∷ s) n h = parse_digits-IsPlain 0 (c ∷ s) n h

positive-some : (o : Option ℕ) (z : ℤ) → positive o ≡ some z → (n : ℕ) × (o ≡ some n)
positive-some none z h = cc
positive-some (some n) z h = (n, refl)

negative-some : (o : Option ℕ) (z : ℤ) → negative o ≡ some z → (n : ℕ) × (o ≡ some n)
negative-some none z h = cc
negative-some (some n) z h = (n, refl)

-- a sign in front of digits
signed-IsPlain :
    (c : ℕ) (s : Text) (n : ℕ)
    → (eqb c b'-' || eqb c b'+') ≡ true
    → unsigned s ≡ some n
    → IsPlain (c ∷ s)
unfolding is_space
signed-IsPlain c s n h e = ground (arith, unsigned-IsPlain s n e)

parse_int-IsPlain : (p : Text) (z : ℤ) → parse_int p ≡ some z → IsPlain p
unfolding parse_int
parse_int-IsPlain [] z h = tt
parse_int-IsPlain (c ∷ s) z h = go (eqb c b'-') (eqb c b'+') refl refl h
  where
    go :
        (m q : Bool)
        → eqb c b'-' ≡ m
        → eqb c b'+' ≡ q
        → (if m
            then negative (unsigned s)
            else if q
            then positive (unsigned s)
            else positive (unsigned (c ∷ s)))
          ≡ some z
        → IsPlain (c ∷ s)
    go true q a b e =
        let (n, x) = negative-some (unsigned s) z e in signed-IsPlain c s n (ground arith) x
    go false true a b e =
        let (n, x) = positive-some (unsigned s) z e in signed-IsPlain c s n (ground arith) x
    go false false a b e =
        let (n, x) = positive-some (unsigned (c ∷ s)) z e in unsigned-IsPlain (c ∷ s) n x

pub Reads-IsPlain : (ps : List Text) (ns : List ℕ) → Reads ps ns → All IsPlain ps
Reads-IsPlain [] [] h = tt
Reads-IsPlain (p ∷ ps) (n ∷ ns) (x, h) = (parse_int-IsPlain p (pos n) x, Reads-IsPlain ps ns h)
Reads-IsPlain [] (n ∷ ns) h = tt
Reads-IsPlain (p ∷ ps) [] h = absurd h

cons_part-append :
    (c : ℕ) (ps qs : List Text) → ps ≢ [] → cons_part c (ps ++ qs) ≡ cons_part c ps ++ qs
cons_part-append c [] qs n = absurd (n refl)
cons_part-append c (p ∷ ps) qs n = refl

split-ne-nil : (sep : ℕ) (s : Text) → split sep s ≢ []
unfolding split
split-ne-nil sep [] = ground arith
split-ne-nil sep (c ∷ s) = go (eqb c sep) (split sep s)
  where
    go : (b : Bool) (ps : List Text) → (if b then [] ∷ ps else cons_part c ps) ≢ []
    go true ps = ground arith
    go false [] = ground arith
    go false (p ∷ ps) = ground arith

-- a text is split at each separator
pub split-append : (sep : ℕ) (s w : Text) → split sep (s ++ sep ∷ w) ≡ split sep s ++ split sep w
unfolding split
split-append sep [] w = ground arith
split-append sep (c ∷ s) w = ground (
  arith,
  split-append sep s w,
  cons_part-append c (split sep s) (split sep w) (split-ne-nil sep s),
)

split-IsPlain : (p : Text) → IsPlain p → split b'.' p ≡ p ∷ []
unfolding split
split-IsPlain [] h = refl
split-IsPlain (c ∷ p) (x, h) = ground (arith, split-IsPlain p h)

-- splitting gives back the parts that were joined
split-join : (ps : List Text) → ps ≢ [] → All IsPlain ps → split b'.' (join b'.' ps) ≡ ps
unfolding join
split-join [] n h = absurd (n refl)
split-join (p ∷ []) n (x, h) = split-IsPlain p x
split-join (p ∷ q ∷ ps) n (x, h) =
    split-append b'.' p (join b'.' (q ∷ ps))
    ∙ ap₂ ◌++◌ (split-IsPlain p x) (split-join (q ∷ ps) (λ e. cc) h)

-- one more part than there are dots
pub length-split : (sep : ℕ) (s : Text) → length (split sep s) ≡ count sep s + 1
unfolding split count
length-split sep [] = refl
length-split sep (c ∷ s) = ground (arith, length-split sep s, length-cons_part c (split sep s))
  where
    length-cons_part :
        (d : ℕ) (ps : List Text)
        → length (cons_part d ps) ≡ (if leb (length ps) 0 then 1 else length ps)
    length-cons_part d [] = refl
    length-cons_part d (p ∷ ps) = ground arith

HasNoSpace-join : (ps : List Text) → All IsPlain ps → HasNoSpace (join b'.' ps)
unfolding join is_space
HasNoSpace-join [] h = tt
HasNoSpace-join (p ∷ []) (x, h) = All-map _ _ (λ c (y, z). y) p x
HasNoSpace-join (p ∷ q ∷ ps) (x, h) =
    All-append (λ c. is_space c ≡ false) p (b'.' ∷ join b'.' (q ∷ ps))
      (All-map _ _ (λ c (y, z). y) p x) (refl, HasNoSpace-join (q ∷ ps) h)

trim_right-HasNoSpace : (s : Text) → HasNoSpace s → trim_right s ≡ s
unfolding trim_right
trim_right-HasNoSpace [] h = refl
trim_right-HasNoSpace (c ∷ s) (x, h) = ground (arith, trim_right-HasNoSpace s h)

trim-HasNoSpace : (s : Text) → HasNoSpace s → trim s ≡ s
unfolding trim trim_left
trim-HasNoSpace [] h = unfold trim_right in refl
trim-HasNoSpace (c ∷ s) (x, h) = rw x (trim_right-HasNoSpace (c ∷ s) (x, h))

All-take {ℓ κ} : {A : Type ℓ} (P : A → Type κ) (n : ℕ) (xs : List A) → All P xs → All P (take n xs)
unfolding take
All-take P zero xs h = tt
All-take P (suc n) [] h = tt
All-take P (suc n) (x ∷ xs) (p, h) = (p, All-take P n xs h)

take-all {ℓ} : {A : Type ℓ} (n : ℕ) (xs : List A) → leb (length xs) n ≡ true → take n xs ≡ xs
unfolding take
take-all zero [] h = refl
take-all zero (x ∷ xs) h = ground arith
take-all (suc n) [] h = refl
take-all (suc n) (x ∷ xs) h = ground (arith, take-all n xs)

take-ne-nil : (n : ℕ) (ps : List Text) → leb n 0 ≡ false → ps ≢ [] → take n ps ≢ []
unfolding take
take-ne-nil zero ps z h = ground arith
take-ne-nil (suc n) [] z h = h
take-ne-nil (suc n) (p ∷ ps) z h = λ k. cc

-- Truncating a version of numbers keeps its first parts.
pub parts-truncate_version_parts :
    (version : Text) (n : ℕ)
    → leb n 0 ≡ false
    → IsRelease version
    → null (trim version) ≡ false
    → parts (truncate_version_parts version n) ≡ take n (parts version)
unfolding truncate_version_parts
parts-truncate_version_parts version n z (ns, r) e =
    rw z (rw e (go (leb (length (parts version)) n) refl))
  where
    go :
        (b : Bool)
        → leb (length (parts version)) n ≡ b
        → parts (if b then trim version else join b'.' (take n (parts version)))
          ≡ take n (parts version)
    go true h = ap (split b'.') (trim-trim version) ∙ sym (take-all n (parts version) h)
    go false h =
        let plain = All-take IsPlain n (parts version) (Reads-IsPlain (parts version) ns r) in
        ap (split b'.') (
          trim-HasNoSpace (join b'.' (take n (parts version)))
            (HasNoSpace-join (take n (parts version)) plain))
        ∙ split-join (take n (parts version))
            (take-ne-nil n (parts version) z (split-ne-nil b'.' (trim version))) plain

-- the number of parts, of a version that is not empty
pub version_part_count-parts :
    (version : Text)
    → null (trim version) ≡ false
    → version_part_count version ≡ length (parts version)
unfolding version_part_count
version_part_count-parts version e = rw e (sym (length-split b'.' (trim version)))

pub some_parts : (version : Text) → leb (length (parts version)) 0 ≡ false
some_parts version = go (parts version) (split-ne-nil b'.' (trim version))
  where
    go : (ps : List Text) → ps ≢ [] → leb (length ps) 0 ≡ false
    go [] n = absurd (n refl)
    go (p ∷ ps) n = ground arith
