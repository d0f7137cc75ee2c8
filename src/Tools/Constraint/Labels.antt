-- ===== src/Tools/Constraint/Labels.antt =====
-- Labels of a manifest's versions, and the versions they stand for (tools/manifest_rules.go).
use polka.Base.{
  ℕ, zero, suc, Text, codes, null, trim, ◌==◌, text_dec, Bool, true, false, not, ◌&&◌, ◌||◌, Option,
  none, some,
}
use polka.Base.{
  List, [], ◌∷◌, ◌++◌, length, if◌then◌else◌, leb, ◌≡◌, refl, ap, sym, subst, ◌∙◌, arith, ◌⊎◌, inl,
  inr, Bool-cases,
}
use mathlib.Core.List.{append-nil, append_assoc}
use polka.Base.Strings.{cut_prefix, split, trim_prefix}
use polka.Base.Strings.Laws.{text-eq_iff, trim-trim}
use polka.Tools.Version.{is_negative, compare_versions, parts, version_matches_request}
use polka.Tools.Version.Order.{Reads, IsRelease, compare_numbers, compare_parts-Reads}
use polka.Tools.Constraint.{
  ManifestVersionConstraint, stripped, version_part_count, take, truncate_version_parts,
}
use polka.Tools.Constraint.{allows_label, allows_resolved}
use polka.Tools.Constraint.Parts.{
  split-append, version_part_count-parts, some_parts, parts-truncate_version_parts,
}

-- fewer numbers are not below the first ones of a lower bound
compare_numbers-take :
    (ks xs ms : List ℕ)
    → is_negative (compare_numbers (ks ++ xs) ms) ≡ false
    → is_negative (compare_numbers ks (take (length ks) ms)) ≡ false
unfolding compare_numbers take
compare_numbers-take [] xs ms h = refl
compare_numbers-take (k ∷ ks) xs [] h = ground (arith, no_less ks)
  where
    no_less : (ns : List ℕ) → is_negative (compare_numbers ns []) ≡ false
    no_less [] = refl
    no_less (n ∷ ns) = ground (arith, no_less ns)
compare_numbers-take (k ∷ ks) xs (m ∷ ms) h = ground (arith, compare_numbers-take ks xs ms)

compare_numbers-nil :
    (xs ms : List ℕ)
    → is_negative (compare_numbers xs ms) ≡ true
    → is_negative (compare_numbers [] ms) ≡ true
unfolding compare_numbers
compare_numbers-nil [] ms h = h
compare_numbers-nil (x ∷ xs) [] h = ground (arith, compare_numbers-nil xs [])
compare_numbers-nil (x ∷ xs) (m ∷ ms) h = ground (arith, compare_numbers-nil xs ms)

-- fewer numbers stay below an upper bound
compare_numbers-below :
    (ks xs ms : List ℕ)
    → is_negative (compare_numbers (ks ++ xs) ms) ≡ true
    → is_negative (compare_numbers ks ms) ≡ true
unfolding compare_numbers
compare_numbers-below [] xs ms h = compare_numbers-nil xs ms h
compare_numbers-below (k ∷ ks) xs [] h = ground (arith, compare_numbers-below ks xs [])
compare_numbers-below (k ∷ ks) xs (m ∷ ms) h = ground (arith, compare_numbers-below ks xs ms)

Reads-append :
    (ps qs : List Text) (ns : List ℕ)
    → Reads (ps ++ qs) ns
    → (ks : List ℕ) × (xs : List ℕ) × (ns ≡ ks ++ xs) × Reads ps ks × (length ks ≡ length ps)
Reads-append [] qs ns h = ([], ns, refl, tt, refl)
Reads-append (p ∷ ps) qs [] h = absurd h
Reads-append (p ∷ ps) qs (n ∷ ns) (x, h) =
    let (ks, xs, e, r, l) = Reads-append ps qs ns h in
    (n ∷ ks, xs, ap (λ zs. n ∷ zs) e, (x, r), ap (λ k. suc k) l)

Reads-take : (n : ℕ) (ps : List Text) (ms : List ℕ) → Reads ps ms → Reads (take n ps) (take n ms)
unfolding take
Reads-take zero ps ms h = tt
Reads-take (suc n) [] [] h = tt
Reads-take (suc n) (p ∷ ps) (m ∷ ms) (x, h) = (x, Reads-take n ps ms h)
Reads-take (suc n) [] (m ∷ ms) h = absurd h
Reads-take (suc n) (p ∷ ps) [] h = absurd h

cut_prefix-some : (p s w : Text) → cut_prefix p s ≡ some w → s ≡ p ++ w
unfolding cut_prefix
cut_prefix-some [] s w h = ground arith
cut_prefix-some (c ∷ p) [] w h = cc
cut_prefix-some (c ∷ p) (d ∷ s) w h = ground (arith, cut_prefix-some p s w)

-- the parts of a version begin with those of the request that it matches
matches-parts :
    (version requested : Text)
    → version_matches_request version requested ≡ true
    → (qs : List Text) × (split b'.' version ≡ split b'.' requested ++ qs)
unfolding version_matches_request
matches-parts version requested h = elim (Bool-cases (version == requested)) [
  | inl e ↦ (
    [],
    ap (split b'.') (text-eq_iff version requested e) ∙ sym (append-nil (split b'.' requested)),
  )
  | inr e ↦ go (cut_prefix (requested ++ b'.' ∷ []) version) refl (ground arith)
]
  where
    go :
        (o : Option Text)
        → cut_prefix (requested ++ b'.' ∷ []) version ≡ o
        → elim o [ none ↦ false | some rest ↦ true ] ≡ true
        → (qs : List Text) × (split b'.' version ≡ split b'.' requested ++ qs)
    go none e g = cc
    go (some w) e g = (
      split b'.' w,
      ap (split b'.') (
            cut_prefix-some (requested ++ b'.' ∷ []) version w e
            ∙ append_assoc requested (b'.' ∷ []) w)
          ∙ split-append b'.' requested w,
    )

least_reached :
    (least label version : Text) (qs : List Text)
    → null (trim least) ≡ false
    → null (trim label) ≡ false
    → IsRelease least
    → IsRelease version
    → parts version ≡ parts label ++ qs
    → is_negative (compare_versions version least) ≡ false
    → is_negative (compare_versions label (truncate_version_parts least (version_part_count label)))
      ≡ false
unfolding compare_versions
least_reached least label version qs e f (ms, rm) (ns, rn) p h =
    let (ks, xs, q, rk, l) = Reads-append (parts label) qs ns (subst (λ ps. Reads ps ns) p rn) in
    let bound = compare_numbers-take ks xs ms (
      ap is_negative (
        sym (
          compare_parts-Reads (parts version) (parts least) (ks ++ xs) ms
            (subst (Reads (parts version)) q rn) rm))
      ∙ h) in
    let counted = version_part_count-parts label f ∙ sym l in
    let kept =
      parts-truncate_version_parts least (length ks)
        (subst (λ n. leb n 0 ≡ false) (sym l) (some_parts label)) (ms, rm) e in
    rw counted (
      ap is_negative (
        compare_parts-Reads (parts label) (parts (truncate_version_parts least (length ks))) ks
          (take (length ks) ms) rk
          (subst (λ ps. Reads ps (take (length ks) ms)) (sym kept)
            (Reads-take (length ks) (parts least) ms rm)))
      ∙ bound)

below_kept :
    (below label version : Text) (qs : List Text)
    → IsRelease below
    → IsRelease version
    → parts version ≡ parts label ++ qs
    → is_negative (compare_versions version below) ≡ true
    → is_negative (compare_versions label below) ≡ true
unfolding compare_versions
below_kept below label version qs (ms, rm) (ns, rn) p h =
    let (ks, xs, q, rk, l) = Reads-append (parts label) qs ns (subst (λ ps. Reads ps ns) p rn) in
    ap is_negative (compare_parts-Reads (parts label) (parts below) ks ms rk rm)
    ∙ compare_numbers-below ks xs ms (
        ap is_negative (
          sym (
            compare_parts-Reads (parts version) (parts below) (ks ++ xs) ms
              (subst (Reads (parts version)) q rn) rm))
        ∙ h)

matches-null :
    (version requested : Text)
    → version_matches_request version requested ≡ true
    → null requested ≡ false
    → null version ≡ false
unfolding version_matches_request text_dec cut_prefix
matches-null [] [] h e = e
matches-null [] (c ∷ r) h e = cc
matches-null (d ∷ v) r h e = refl

-- a bound is left out or consists of numbers
abbrev pub IsBound : Text → Type 0
IsBound bound = (null bound ≡ true) ⊎ IsRelease bound

bounded : (bound : Text) → IsBound bound → null bound ≡ false → IsRelease bound
bounded bound (inl e) n = cc
bounded bound (inr r) n = r

second : (a b : Bool) → a ≡ false → (if a then true else b) ≡ true → b ≡ true
second a b e h = ground arith

-- how the two tests of the bounds combine
verdict :
    (no_least no_below x x' y y' : Bool)
    → (no_least ≡ false → x ≡ false → x' ≡ false)
    → (no_below ≡ false → y ≡ true → y' ≡ true)
    → (if no_least && no_below then true else if not no_least && x then false else no_below || y)
      ≡ true
    → (if no_least && no_below then true else if not no_least && x' then false else no_below || y')
      ≡ true
verdict no_least no_below x x' y y' f g h = ground arith

-- Where the bounds and the version consist of numbers, a label is allowed if a version that it
-- stands for, one that is equal to it or goes on behind it with a dot, is allowed when resolved.
pub allows_label-allows_resolved :
    (c : ManifestVersionConstraint) (label version : Text)
    → IsBound (trim c.min)
    → IsBound (trim c.below)
    → IsRelease (stripped version)
    → version_matches_request (stripped version) (stripped label) ≡ true
    → allows_resolved c version ≡ true
    → allows_label c label ≡ true
unfolding allows_resolved allows_label
allows_label-allows_resolved c label version least below r m h =
    elim (Bool-cases (null (stripped label))) [
      | inl e ↦ ground arith
      | inr e ↦
          let L = stripped label in
          let V = stripped version in
          let (qs, p) = matches-parts V L m in
          let prefix =
            ap (split b'.') (trim-trim (trim_prefix (codes "v") (trim version)))
            ∙ p
            ∙ ap (λ s. split b'.' s ++ qs)
                (sym (trim-trim (trim_prefix (codes "v") (trim label)))) in
          let present = matches-null V L m e in
          rw e (
            verdict (null (trim c.min)) (null (trim c.below)) _ _ _ _
              (λ a x.
                least_reached (trim c.min) L V qs (ap null (trim-trim c.min) ∙ a)
                  (ap null (trim-trim (trim_prefix (codes "v") (trim label))) ∙ e)
                  (bounded (trim c.min) least a) r prefix x)
              (λ b y. below_kept (trim c.below) L V qs (bounded (trim c.below) below b) r prefix y)
              (second (null V) _ present h))
    ]
