-- ===== src/Config/Extensions/Laws.antt =====
-- How the YAML map of extensions is written and split again (config/types.go).
use polka.Base.{Text, null, norm, trim, Bool, true, false, not, ◌||◌}
use polka.Base.{
  Option, none, some, [], ◌∷◌, ◌++◌, if◌then◌else◌, ◌≡◌, ◌≢◌, refl, ap, ◌∙◌, arith, All,
}
use polka.Base.Strings.{has}
use polka.Base.Strings.Laws.{norm-norm, trim-trim}
use polka.Base.Dict.{Dict, lookup, NodupKeys}
use polka.Base.Dict.Laws.{append-NodupKeys}
use polka.Base.Dict.Rebuild.{
  rebuild_copy, rebuild_from_copy, rebuild-NodupKeys, rebuild-map_values, rebuild_fixed,
  rebuild_from_skip, rebuild_from-append, map_values-NodupKeys, rebuild, rebuild_from,
  rebuild-rebuild, map_values, put_entry, rebuild-All,
}
use polka.Config.Values.{Value, bool, str, sprint}
use polka.Config.Extensions.{toggle_entry, normalize_php_extensions, package_entry}
use polka.Config.Extensions.{
  normalize_pie_extensions, split_entry, split_loop, split_php_extensions_from_yaml,
}
use polka.Config.Extensions.{php_extensions_file_value, is_enabled, pie_extension_version_string}

toggle_entry_idem :
    (k : Text) (v : Bool) (e : Text × Bool)
    → toggle_entry k v ≡ some e
    → toggle_entry e.0 e.1 ≡ some e
toggle_entry_idem k v e h = ground (arith, norm-norm k)

package_entry_idem :
    (k v : Text) (e : Text × Text) → package_entry k v ≡ some e → package_entry e.0 e.1 ≡ some e
package_entry_idem k v e h = ground (arith, norm-norm k, trim-trim v)

-- Normalising the bundled toggles twice is normalising them once.
pub normalize_php_extensions_idem :
    (m : Dict Bool)
    → normalize_php_extensions (normalize_php_extensions m) ≡ normalize_php_extensions m
unfolding normalize_php_extensions
normalize_php_extensions_idem m = rebuild-rebuild toggle_entry toggle_entry_idem m

-- Normalising the PIE packages twice is normalising them once.
pub normalize_pie_extensions_idem :
    (m : Dict Text)
    → normalize_pie_extensions (normalize_pie_extensions m) ≡ normalize_pie_extensions m
unfolding normalize_pie_extensions
normalize_pie_extensions_idem m = rebuild-rebuild package_entry package_entry_idem m

-- the two maps that the loop fills, each by a loop of its own
bundled_entry : Text → Value → Option (Text × Bool)
bundled_entry key value =
    let name = norm key in
    if null name || has b'/' name then none else some (name, is_enabled value)

pie_entry : Text → Value → Option (Text × Text)
pie_entry key value =
    let name = norm key in
    if null name || not (has b'/' name)
    then none
    else some (name, pie_extension_version_string value)

split_entry-eq :
    (k : Text) (v : Value) (bundled : Dict Bool) (pie : Dict Text)
    → split_entry k v (bundled, pie) ≡ (
      put_entry bundled_entry (bundled_entry k v) bundled,
      put_entry pie_entry (pie_entry k v) pie,
    )
unfolding bundled_entry pie_entry
split_entry-eq k v bundled pie = ground arith

split_loop-eq :
    (values : Dict Value) (bundled : Dict Bool) (pie : Dict Text)
    → split_loop values (bundled, pie)
      ≡ (rebuild_from bundled_entry bundled values, rebuild_from pie_entry pie values)
unfolding split_loop rebuild_from
split_loop-eq [] bundled pie = refl
split_loop-eq ((k, v) ∷ values) bundled pie = rw (split_entry-eq k v bundled pie) (
    split_loop-eq values (put_entry bundled_entry (bundled_entry k v) bundled)
      (put_entry pie_entry (pie_entry k v) pie))

pair_path {ℓ κ} :
    {A : Type ℓ} {B : Type κ} {a c : A} {b d : B} → a ≡ c → b ≡ d → ◌≡◌ {A = A × B} (a, b) (c, d)
pair_path p q = λ i. (p i, q i)

abbrev pub IsBundledKey : Text → Type 0
IsBundledKey k = (k ≢ []) × (has b'/' k ≡ false)

abbrev pub IsPieKey : Text → Type 0
IsPieKey k = has b'/' k ≡ true

-- what normalising leaves of a toggle: a key in normal form
normal_toggles : (m : Dict Bool) → All (λ (k, _). norm k ≡ k) (normalize_php_extensions m)
unfolding normalize_php_extensions
normal_toggles m =
    rebuild-All toggle_entry (λ (k, _). norm k ≡ k) (λ k v e h. ground (arith, norm-norm k)) m

normal_packages :
    (m : Dict Text)
    → All (λ (k, v). (norm k ≡ k) × (k ≢ []) × (trim v ≡ v)) (normalize_pie_extensions m)
unfolding normalize_pie_extensions
normal_packages m =
    rebuild-All package_entry (λ (k, v). (norm k ≡ k) × (k ≢ []) × (trim v ≡ v))
      (λ k v e h. ground (arith, norm-norm k, trim-trim v)) m

lookup_pie_key :
    (k : Text) (m : Dict Value)
    → has b'/' k ≡ false
    → All (λ (j, _). IsPieKey j) m
    → lookup k m ≡ none
unfolding lookup
lookup_pie_key k [] h a = refl
lookup_pie_key k ((j, v) ∷ m) h (e, a) = ground (arith, lookup_pie_key k m h a)

module _ (n : Dict Value) (slashes : All (λ (j, _). IsPieKey j) n) where
  disjoint :
      (m : Dict Bool)
      → All (λ (k, _). IsBundledKey k) m
      → All (λ (k, _). lookup k n ≡ none) (map_values bool m)
  disjoint [] h = tt
  disjoint ((k, v) ∷ m) (e, h) = (lookup_pie_key k n e.1 slashes, disjoint m h)

pie_keys :
    (m : Dict Text) → All (λ (k, _). IsPieKey k) m → All (λ (k, _). IsPieKey k) (map_values str m)
pie_keys [] h = tt
pie_keys ((k, v) ∷ m) (e, h) = (e, pie_keys m h)

module _ (bundled : Dict Bool) (pie : Dict Text) where
  toggles : Dict Bool
  toggles = normalize_php_extensions bundled

  packages : Dict Text
  packages = normalize_pie_extensions pie

  toggles-NodupKeys : NodupKeys toggles
  unfolding toggles normalize_php_extensions
  toggles-NodupKeys = rebuild-NodupKeys toggle_entry bundled

  packages-NodupKeys : NodupKeys packages
  unfolding packages normalize_pie_extensions
  packages-NodupKeys = rebuild-NodupKeys package_entry pie

  module _ (plain : All (λ (k, _). IsBundledKey k) toggles)
      (slashes : All (λ (k, _). IsPieKey k) packages) where
    file_value-NodupKeys : NodupKeys (map_values bool toggles ++ map_values str packages)
    file_value-NodupKeys =
        append-NodupKeys (map_values bool toggles) (map_values str packages)
          (map_values-NodupKeys bool toggles toggles-NodupKeys)
          (map_values-NodupKeys str packages packages-NodupKeys)
          (disjoint (map_values str packages) (pie_keys packages slashes) toggles plain)

    php_extensions_file_value-eq :
        php_extensions_file_value bundled pie ≡ map_values bool toggles ++ map_values str packages
    unfolding php_extensions_file_value toggles packages
    php_extensions_file_value-eq =
        rw (rebuild_copy bool toggles toggles-NodupKeys)
          (rebuild_from_copy str (map_values bool toggles) packages file_value-NodupKeys)

bundled_fixed :
    (m : Dict Bool)
    → All (λ (k, _). norm k ≡ k) m
    → All (λ (k, _). IsBundledKey k) m
    → All (λ (k, v). bundled_entry k (bool v) ≡ some (k, v)) m
bundled_fixed [] h g = tt
bundled_fixed ((k, v) ∷ m) (e, h) (f, g) =
    (unfold bundled_entry is_enabled in ground arith, bundled_fixed m h g)

bundled_skip :
    (m : Dict Text)
    → All (λ (k, _). norm k ≡ k) m
    → All (λ (k, _). IsPieKey k) m
    → All (λ (k, v). bundled_entry k v ≡ none) (map_values str m)
bundled_skip [] h g = tt
bundled_skip ((k, v) ∷ m) (e, h) (f, g) = (unfold bundled_entry in ground arith, bundled_skip m h g)

pie_fixed :
    (m : Dict Text)
    → All (λ (k, v). (norm k ≡ k) × (k ≢ []) × (trim v ≡ v)) m
    → All (λ (k, _). IsPieKey k) m
    → All (λ (k, v). pie_entry k (str v) ≡ some (k, v)) m
pie_fixed [] h g = tt
pie_fixed ((k, v) ∷ m) (e, h) (f, g) =
    (unfold pie_entry pie_extension_version_string sprint in ground arith, pie_fixed m h g)

pie_skip :
    (m : Dict Bool)
    → All (λ (k, _). norm k ≡ k) m
    → All (λ (k, _). IsBundledKey k) m
    → All (λ (k, v). pie_entry k v ≡ none) (map_values bool m)
pie_skip [] h g = tt
pie_skip ((k, v) ∷ m) (e, h) (f, g) = (unfold pie_entry in ground arith, pie_skip m h g)

normal_keys :
    (m : Dict Text)
    → All (λ (k, v). (norm k ≡ k) × (k ≢ []) × (trim v ≡ v)) m
    → All (λ (k, _). norm k ≡ k) m
normal_keys [] h = tt
normal_keys ((k, v) ∷ m) (e, h) = (e.0, normal_keys m h)

module _ (b : Dict Bool) (p : Dict Text) (nb : NodupKeys b) (np : NodupKeys p)
    (kb : All (λ (k, _). norm k ≡ k) b) (plain : All (λ (k, _). IsBundledKey k) b)
    (kp : All (λ (k, v). (norm k ≡ k) × (k ≢ []) × (trim v ≡ v)) p)
    (slashes : All (λ (k, _). IsPieKey k) p) where
  split_bundled : rebuild_from bundled_entry [] (map_values bool b ++ map_values str p) ≡ b
  unfolding rebuild
  split_bundled =
      rebuild_from-append bundled_entry [] (map_values bool b) (map_values str p)
      ∙ ap (λ out. rebuild_from bundled_entry out (map_values str p))
          (rebuild-map_values bool bundled_entry b
            ∙ rebuild_fixed (λ k v. bundled_entry k (bool v)) b nb (bundled_fixed b kb plain))
      ∙ rebuild_from_skip bundled_entry b (map_values str p)
          (bundled_skip p (normal_keys p kp) slashes)

  split_pie : rebuild_from pie_entry [] (map_values bool b ++ map_values str p) ≡ p
  unfolding rebuild
  split_pie =
      rebuild_from-append pie_entry [] (map_values bool b) (map_values str p)
      ∙ ap (λ out. rebuild_from pie_entry out (map_values str p))
          (rebuild_from_skip pie_entry [] (map_values bool b) (pie_skip b kb plain))
      ∙ rebuild-map_values str pie_entry p
      ∙ rebuild_fixed (λ k v. pie_entry k (str v)) p np (pie_fixed p kp slashes)

-- Reading back the YAML map that was written for toggles and packages gives both, normalised, if
-- the toggles have names that are not empty and hold no slash and the packages have names with one.
pub split_php_extensions_from_yaml-php_extensions_file_value :
    (bundled : Dict Bool) (pie : Dict Text)
    → All (λ (k, _). IsBundledKey k) (normalize_php_extensions bundled)
    → All (λ (k, _). IsPieKey k) (normalize_pie_extensions pie)
    → split_php_extensions_from_yaml (php_extensions_file_value bundled pie)
      ≡ (normalize_php_extensions bundled, normalize_pie_extensions pie)
unfolding split_php_extensions_from_yaml toggles packages
split_php_extensions_from_yaml-php_extensions_file_value bundled pie plain slashes =
    let b = normalize_php_extensions bundled in
    let p = normalize_pie_extensions pie in
    let nb = toggles-NodupKeys bundled pie in
    let np = packages-NodupKeys bundled pie in
    rw (php_extensions_file_value-eq bundled pie plain slashes, split_loop-eq)
      (pair_path
        (split_bundled b p nb np (normal_toggles bundled) plain (normal_packages pie) slashes)
        (split_pie b p nb np (normal_toggles bundled) plain (normal_packages pie) slashes))
