-- ===== src/Tools/Version/Order.antt =====
-- The order of versions (tools/downloader.go).
use polka.Base.{ℕ, Text, codes, false, Option, none, some, List, [], ◌∷◌}
use polka.Base.{◌≡◌, refl, ap, ap₂, sym, ◌∙◌, arith}
use polka.Base.Int.{ℤ, pos, negsuc}
use polka.Tools.Probe.{parse_int, parse_digits}
use polka.Tools.Version.{Sign, less, equal, greater, is_positive, and_then, compare_ℕ, compare_ℤ}
use polka.Tools.Version.{
  compare_text, compare_values, compare_part, compare_parts, compare_versions, parts,
}

abbrev pub opposite : Sign → Sign
opposite less = greater
opposite equal = equal
opposite greater = less

opposite-and_then : (s t : Sign) → opposite (and_then s t) ≡ and_then (opposite s) (opposite t)
opposite-and_then less t = refl
opposite-and_then equal t = refl
opposite-and_then greater t = refl

opposite-compare_ℕ : (m n : ℕ) → opposite (compare_ℕ m n) ≡ compare_ℕ n m
opposite-compare_ℕ m n = ground arith

opposite-compare_ℤ : (m n : ℤ) → opposite (compare_ℤ m n) ≡ compare_ℤ n m
opposite-compare_ℤ (pos m) (pos n) = opposite-compare_ℕ m n
opposite-compare_ℤ (pos m) (negsuc n) = refl
opposite-compare_ℤ (negsuc m) (pos n) = refl
opposite-compare_ℤ (negsuc m) (negsuc n) = opposite-compare_ℕ n m

opposite-compare_text : (s t : Text) → opposite (compare_text s t) ≡ compare_text t s
unfolding compare_text
opposite-compare_text [] [] = refl
opposite-compare_text [] (d ∷ t) = refl
opposite-compare_text (c ∷ s) [] = refl
opposite-compare_text (c ∷ s) (d ∷ t) =
    opposite-and_then (compare_ℕ c d) (compare_text s t)
    ∙ ap₂ and_then (opposite-compare_ℕ c d) (opposite-compare_text s t)

opposite-compare_values :
    (m n : Option ℤ) (l r : Text) → opposite (compare_values m n l r) ≡ compare_values n m r l
opposite-compare_values (some m) (some n) l r = opposite-compare_ℤ m n
opposite-compare_values (some m) none l r = opposite-compare_text l r
opposite-compare_values none (some n) l r = opposite-compare_text l r
opposite-compare_values none none l r = opposite-compare_text l r

opposite-compare_parts : (ls rs : List Text) → opposite (compare_parts ls rs) ≡ compare_parts rs ls
unfolding compare_parts
opposite-compare_parts [] [] = refl
opposite-compare_parts [] (r ∷ rs) =
    opposite-and_then (compare_part (codes "0") r) (compare_parts [] rs)
    ∙ ap₂ and_then (opposite-compare_values (parse_int (codes "0")) (parse_int r) (codes "0") r)
        (opposite-compare_parts [] rs)
opposite-compare_parts (l ∷ ls) [] =
    opposite-and_then (compare_part l (codes "0")) (compare_parts ls [])
    ∙ ap₂ and_then (opposite-compare_values (parse_int l) (parse_int (codes "0")) l (codes "0"))
        (opposite-compare_parts ls [])
opposite-compare_parts (l ∷ ls) (r ∷ rs) =
    opposite-and_then (compare_part l r) (compare_parts ls rs)
    ∙ ap₂ and_then (opposite-compare_values (parse_int l) (parse_int r) l r)
        (opposite-compare_parts ls rs)

-- Comparing two versions the other way round gives the opposite sign, whatever they consist of.
pub compare_versions_antisym :
    (left right : Text) → opposite (compare_versions left right) ≡ compare_versions right left
unfolding compare_versions
compare_versions_antisym left right = opposite-compare_parts (parts left) (parts right)

-- lists of numbers, of which one that is missing is 0
unfoldable pub compare_numbers : List ℕ → List ℕ → Sign
compare_numbers [] [] = equal
compare_numbers [] (n ∷ ns) = and_then (compare_ℕ 0 n) (compare_numbers [] ns)
compare_numbers (m ∷ ms) [] = and_then (compare_ℕ m 0) (compare_numbers ms [])
compare_numbers (m ∷ ms) (n ∷ ns) = and_then (compare_ℕ m n) (compare_numbers ms ns)

-- the parts are the numbers
abbrev pub Reads : List Text → List ℕ → Type 0
Reads [] [] = Unit
Reads [] (n ∷ ns) = ⊥
Reads (p ∷ ps) [] = ⊥
Reads (p ∷ ps) (n ∷ ns) = (parse_int p ≡ some (pos n)) × Reads ps ns

-- a version whose parts are natural numbers
abbrev pub IsRelease : Text → Type 0
IsRelease v = (ns : List ℕ) × Reads (parts v) ns

zero_parsed : parse_int (codes "0") ≡ some (pos 0)
unfolding parse_int parse_digits
zero_parsed = refl

compare_part-numbers :
    (l r : Text) (m n : ℕ)
    → parse_int l ≡ some (pos m)
    → parse_int r ≡ some (pos n)
    → compare_part l r ≡ compare_ℕ m n
compare_part-numbers l r m n h g = ap₂ (λ a b. compare_values a b l r) h g

pub compare_parts-Reads :
    (ls rs : List Text) (ms ns : List ℕ)
    → Reads ls ms
    → Reads rs ns
    → compare_parts ls rs ≡ compare_numbers ms ns
unfolding compare_parts compare_numbers
compare_parts-Reads [] [] [] [] h g = refl
compare_parts-Reads [] (r ∷ rs) [] (n ∷ ns) h (x, g) =
    ap₂ and_then (compare_part-numbers (codes "0") r 0 n zero_parsed x)
      (compare_parts-Reads [] rs [] ns h g)
compare_parts-Reads (l ∷ ls) [] (m ∷ ms) [] (x, h) g =
    ap₂ and_then (compare_part-numbers l (codes "0") m 0 x zero_parsed)
      (compare_parts-Reads ls [] ms [] h g)
compare_parts-Reads (l ∷ ls) (r ∷ rs) (m ∷ ms) (n ∷ ns) (x, h) (y, g) =
    ap₂ and_then (compare_part-numbers l r m n x y) (compare_parts-Reads ls rs ms ns h g)
compare_parts-Reads [] rs (m ∷ ms) ns h g = absurd h
compare_parts-Reads (l ∷ ls) rs [] ns h g = absurd h
compare_parts-Reads ls [] ms (n ∷ ns) h g = absurd g
compare_parts-Reads ls (r ∷ rs) ms [] h g = absurd g

and_then_trans :
    (a b c : ℕ) (s t u : Sign)
    → (is_positive s ≡ false → is_positive t ≡ false → is_positive u ≡ false)
    → is_positive (and_then (compare_ℕ a b) s) ≡ false
    → is_positive (and_then (compare_ℕ b c) t) ≡ false
    → is_positive (and_then (compare_ℕ a c) u) ≡ false
and_then_trans a b c s t u f h g = ground arith

pub compare_numbers_trans :
    (ks bs cs : List ℕ)
    → is_positive (compare_numbers ks bs) ≡ false
    → is_positive (compare_numbers bs cs) ≡ false
    → is_positive (compare_numbers ks cs) ≡ false
unfolding compare_numbers
compare_numbers_trans [] [] [] h g = refl
compare_numbers_trans [] [] (c ∷ cs) h g = g
compare_numbers_trans [] (b ∷ bs) [] h g = refl
compare_numbers_trans [] (b ∷ bs) (c ∷ cs) h g =
    and_then_trans 0 b c _ _ _ (compare_numbers_trans [] bs cs) h g
compare_numbers_trans (a ∷ ks) [] [] h g = h
compare_numbers_trans (a ∷ ks) [] (c ∷ cs) h g =
    and_then_trans a 0 c _ _ _ (compare_numbers_trans ks [] cs) h g
compare_numbers_trans (a ∷ ks) (b ∷ bs) [] h g =
    and_then_trans a b 0 _ _ _ (compare_numbers_trans ks bs []) h g
compare_numbers_trans (a ∷ ks) (b ∷ bs) (c ∷ cs) h g =
    and_then_trans a b c _ _ _ (compare_numbers_trans ks bs cs) h g

pub compare_numbers_refl : (ks : List ℕ) → is_positive (compare_numbers ks ks) ≡ false
unfolding compare_numbers
compare_numbers_refl [] = refl
compare_numbers_refl (a ∷ ks) = ground (arith, compare_numbers_refl ks)

-- Of versions that consist of numbers, one that is not after a second one is not after a third one
-- that the second one is not after.
pub compare_versions_trans :
    (u v w : Text)
    → IsRelease u
    → IsRelease v
    → IsRelease w
    → is_positive (compare_versions u v) ≡ false
    → is_positive (compare_versions v w) ≡ false
    → is_positive (compare_versions u w) ≡ false
unfolding compare_versions
compare_versions_trans u v w (ks, a) (ms, b) (ns, c) h g =
    ap is_positive (compare_parts-Reads (parts u) (parts w) ks ns a c)
    ∙ compare_numbers_trans ks ms ns
        (ap is_positive (sym (compare_parts-Reads (parts u) (parts v) ks ms a b)) ∙ h)
        (ap is_positive (sym (compare_parts-Reads (parts v) (parts w) ms ns b c)) ∙ g)

pub compare_versions_refl : (v : Text) → IsRelease v → is_positive (compare_versions v v) ≡ false
unfolding compare_versions
compare_versions_refl v (ns, a) =
    ap is_positive (compare_parts-Reads (parts v) (parts v) ns ns a a) ∙ compare_numbers_refl ns
