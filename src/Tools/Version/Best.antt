-- ===== src/Tools/Version/Best.antt =====
-- Which candidate the loops of tools/downloader.go choose.
use polka.Base.{Text, Bool, true, false, null, Option, none, some, List, [], ◌∷◌}
use polka.Base.{◌≡◌, refl, ap, sym, subst, ◌∙◌, arith, ◌⊎◌, inl, inr, All, Bool-cases}
use mathlib.Core.List.{Mem, mem-cons_self, mem-cons_of_mem}
use polka.Base.Result.{ok, err}
use polka.Tools.Version.{Sign, is_positive, compare_versions, best_by, found}
use polka.Tools.Version.{
  no_matching_release, bare, matching, resolve_matching_version, version_matches_request,
}
use polka.Tools.Version.{
  GithubRelease, tagged_version, untagged, is_eligible, resolve_github_release_version,
}
use polka.Tools.Version.Order.{
  IsRelease, opposite, compare_versions_antisym, compare_versions_trans, compare_versions_refl,
}

true-ne-false : ◌≡◌ {A = Bool} true false → ⊥
true-ne-false h = cc

abbrev pub IsNotAfter : Text → Text → Type 0
IsNotAfter v w = is_positive (compare_versions v w) ≡ false

IsNotAfter-opposite : (v w : Text) → is_positive (compare_versions v w) ≡ true → IsNotAfter w v
IsNotAfter-opposite v w h = go (compare_versions v w) h (compare_versions_antisym v w)
  where
    go : (s : Sign) → is_positive s ≡ true → opposite s ≡ compare_versions w v → IsNotAfter w v
    go s h e = subst (λ t. is_positive t ≡ false) e (ground arith)

module _ {ℓ} {A : Type ℓ} (version : A → Text) (keeps : A → Bool) where
  -- a kept candidate that no kept candidate is higher than
  abbrev pub IsBest : List A → A → Type ℓ
  IsBest xs b =
      Mem b xs
      × (keeps b ≡ true)
      × All (λ a. keeps a ≡ true → IsNotAfter (version a) (version b)) xs

  -- every candidate that is kept consists of numbers
  abbrev pub AreReleases : List A → Type 0
  AreReleases = All (λ a. keeps a ≡ true → IsRelease (version a))

  abbrev Improves : List A → A → A → Type ℓ
  Improves xs b0 b =
      (IsRelease (version b) × IsNotAfter (version b0) (version b))
      × ((b ≡ b0) ⊎ (Mem b xs × (keeps b ≡ true)))
      × All (λ a. keeps a ≡ true → IsNotAfter (version a) (version b)) xs

  -- a result that was found behind `a`, or is `a`
  taken :
      (a b : A) (xs : List A)
      → keeps a ≡ true
      → (b ≡ a) ⊎ (Mem b xs × (keeps b ≡ true))
      → Mem b (a ∷ xs) × (keeps b ≡ true)
  taken a b xs k (inl e) = subst (λ c. Mem c (a ∷ xs) × (keeps c ≡ true)) (sym e) (mem-cons_self, k)
  taken a b xs k (inr (m, kb)) = (mem-cons_of_mem a m, kb)

  later :
      (a b b0 : A) (xs : List A)
      → (b ≡ b0) ⊎ (Mem b xs × (keeps b ≡ true))
      → (b ≡ b0) ⊎ (Mem b (a ∷ xs) × (keeps b ≡ true))
  later a b b0 xs (inl e) = inl e
  later a b b0 xs (inr (m, k)) = inr (mem-cons_of_mem a m, k)

  best_by-some :
      (xs : List A) (b0 : A)
      → IsRelease (version b0)
      → AreReleases xs
      → (b : A) × (best_by version keeps (some b0) xs ≡ some b) × Improves xs b0 b
  unfolding best_by
  best_by-some [] b0 r rs = (b0, refl, ((r, compare_versions_refl (version b0) r), inl refl, tt))
  best_by-some (a ∷ xs) b0 r (ra, rs) = elim (Bool-cases (keeps a)) [
    | inr k ↦
        let (b, e, ((s, n), m, all)) = best_by-some xs b0 r rs in
        (b, rw k e, ((s, n), later a b b0 xs m, ((λ h. absurd (true-ne-false (sym h ∙ k))), all)))
    | inl k ↦ elim (Bool-cases (is_positive (compare_versions (version a) (version b0)))) [
      | inl p ↦
          let (b, e, ((s, n), m, all)) = best_by-some xs a (ra k) rs in
          (
            b,
            rw k (rw p e),
            (
              (
                s,
                compare_versions_trans (version b0) (version a) (version b) r (ra k) s
                    (IsNotAfter-opposite (version a) (version b0) p) n,
              ),
              inr (taken a b xs k m),
              ((λ h. n), all),
            ),
          )
      | inr p ↦
          let (b, e, ((s, n), m, all)) = best_by-some xs b0 r rs in
          (
            b,
            rw k (rw p e),
            (
              (s, n),
              later a b b0 xs m,
              (
                (λ h. compare_versions_trans (version a) (version b0) (version b) (ra k) r s p n),
                all,
              ),
            ),
          )
    ]
  ]

  -- the loop gives the best candidate, or none when none is kept
  pub best_by-IsBest :
      (xs : List A)
      → AreReleases xs
      → ((b : A) × (best_by version keeps none xs ≡ some b) × IsBest xs b)
        ⊎ ((best_by version keeps none xs ≡ none) × All (λ a. keeps a ≡ false) xs)
  unfolding best_by
  best_by-IsBest [] rs = inr (refl, tt)
  best_by-IsBest (a ∷ xs) (ra, rs) = elim (Bool-cases (keeps a)) [
    | inl k ↦
        let (b, e, ((s, n), m, all)) = best_by-some xs a (ra k) rs in
        let (mb, kb) = taken a b xs k m in inl (b, rw k e, (mb, kb, ((λ h. n), all)))
    | inr k ↦ elim (best_by-IsBest xs rs) [
      | inl (b, e, (m, kb, all)) ↦
          inl
            (b, rw k e, (mem-cons_of_mem a m, kb, ((λ h. absurd (true-ne-false (sym h ∙ k))), all)))
      | inr (e, all) ↦ inr (rw k e, (k, all))
    ]
  ]

found-cases {ℓ} :
    {A : Type ℓ} (o : Option A) (P : A → Type ℓ) (Q : Type 0)
    → ((b : A) × (o ≡ some b) × P b) ⊎ ((o ≡ none) × Q)
    → ((b : A) × (found o ≡ ok b) × P b) ⊎ ((found o ≡ err no_matching_release) × Q)
found-cases o P Q (inl (b, e, p)) = inl (b, ap found e, p)
found-cases o P Q (inr (e, q)) = inr (ap found e, q)

-- Where the releases that come into question have versions of numbers only, the one that is chosen
-- is among the releases, comes into question, and no other such release has a higher version; and
-- when none is chosen, none comes into question.
pub resolve_github_release_version-IsBest :
    (tag_prefix : Text) (releases : List GithubRelease) (request : Text)
    → AreReleases
        (tagged_version tag_prefix)
        (is_eligible tag_prefix (untagged tag_prefix request))
        releases
    → ((b : GithubRelease) × (resolve_github_release_version tag_prefix releases request ≡ ok b)
        × IsBest
            (tagged_version tag_prefix)
            (is_eligible tag_prefix (untagged tag_prefix request))
            releases
            b)
      ⊎ ((resolve_github_release_version tag_prefix releases request ≡ err no_matching_release)
          × All (λ r. is_eligible tag_prefix (untagged tag_prefix request) r ≡ false) releases)
unfolding resolve_github_release_version
resolve_github_release_version-IsBest tag_prefix releases request rs =
    let version = tagged_version tag_prefix in
    let keeps = is_eligible tag_prefix (untagged tag_prefix request) in
    found-cases (best_by version keeps none releases) (IsBest version keeps releases)
      (All (λ r. keeps r ≡ false) releases) (best_by-IsBest version keeps releases rs)

abbrev map_bare : Option Text → Option Text
map_bare none = none
map_bare (some v) = some (bare v)

-- filtering first and choosing then is choosing among those that match
best_by-matching :
    (requested : Text) (versions : List Text) (best : Option Text)
    → best_by (λ v. v) (λ v. true) (map_bare best) (matching versions requested)
      ≡ map_bare (best_by bare (λ v. version_matches_request (bare v) requested) best versions)
unfolding best_by matching
best_by-matching requested [] best = refl
best_by-matching requested (v ∷ vs) none =
    ground (arith, best_by-matching requested vs (some v), best_by-matching requested vs none)
best_by-matching requested (v ∷ vs) (some b) =
    ground (arith, best_by-matching requested vs (some v), best_by-matching requested vs (some b))

-- For a request that is not empty, where the versions that match it consist of numbers, the result
-- is one of the versions, without its "v", that matches, and no version that matches is higher; and
-- when there is no result, no version matches.
pub resolve_matching_version-IsBest :
    (versions : List Text) (request : Text)
    → null (bare request) ≡ false
    → AreReleases bare (λ v. version_matches_request (bare v) (bare request)) versions
    → ((v : Text) × (resolve_matching_version versions request ≡ ok (bare v))
        × IsBest bare (λ v. version_matches_request (bare v) (bare request)) versions v)
      ⊎ ((resolve_matching_version versions request ≡ err no_matching_release)
          × All (λ v. version_matches_request (bare v) (bare request) ≡ false) versions)
unfolding resolve_matching_version
resolve_matching_version-IsBest versions request n rs = rw n (
    rw (best_by-matching (bare request) versions none) (
      outcome
        (best_by-IsBest bare (λ v. version_matches_request (bare v) (bare request)) versions rs)))
  where
    outcome :
        {P : Text → Type 0} {Q : Type 0} {o : Option Text}
        → ((v : Text) × (o ≡ some v) × P v) ⊎ ((o ≡ none) × Q)
        → ((v : Text) × (found (map_bare o) ≡ ok (bare v)) × P v)
          ⊎ ((found (map_bare o) ≡ err no_matching_release) × Q)
    outcome (inl (v, e, p)) = inl (v, ap (λ o. found (map_bare o)) e, p)
    outcome (inr (e, q)) = inr (ap (λ o. found (map_bare o)) e, q)
