-- ===== src/Tests/Backends.antt =====
-- Recording and forgetting versions.
use polka.Base.{codes, text_dec, ◌==◌, not, ◌&&◌, ◌||◌, [], ◌∷◌, ◌≡◌, refl, subst}
use polka.Base.Dict.{lookup, lookup_or, insert}
use polka.Config.Workers.Names.{sort_texts, insert_sorted, text_le}
use polka.Backend.State.{InstallState, has, record_version, forget}
use polka.Backend.State.Laws.{
  has-record_version, has-forget, record_version-IsWellFormed, IsDistinct,
}
use polka.Backend.State.Laws.{forget-IsWellFormed, IsWellFormed}

abbrev state : InstallState
state = record {
  version = 1;
  tools =
      (codes "php-zts", codes "8.3.1" ∷ codes "8.4.0" ∷ [])
      ∷ (codes "composer", codes "2.8" ∷ [])
      ∷ [];
}

has-record_version_example :
    has (record_version state (codes "redis") (codes "7.2")) (codes "redis") (codes "7.2") ≡ (
      (codes "redis" == codes "redis" && codes "7.2" == codes "7.2")
      || has state (codes "redis") (codes "7.2"))
has-record_version_example =
    has-record_version state (codes "redis") (codes "7.2") (codes "redis") (codes "7.2")

distinct : IsDistinct (lookup_or [] (codes "php-zts") state.tools)
unfolding lookup lookup_or text_dec
distinct = (refl, (refl, tt))

has-forget_example :
    has (forget state (codes "php-zts") (codes "8.3.1")) (codes "php-zts") (codes "8.4.0") ≡ (
      not (codes "php-zts" == codes "php-zts" && codes "8.4.0" == codes "8.3.1")
      && has state (codes "php-zts") (codes "8.4.0"))
has-forget_example =
    has-forget state (codes "php-zts") (codes "8.3.1") (codes "php-zts") (codes "8.4.0") distinct

abbrev nothing : InstallState
nothing = record { version = 1; tools = [] }

nothing-IsWellFormed : IsWellFormed nothing
unfolding lookup_or lookup
nothing-IsWellFormed u = (tt, tt)

-- the state is what recording its three versions gives
recorded :
    record_version
      (record_version
        (record_version nothing (codes "php-zts") (codes "8.4.0"))
        (codes "php-zts")
        (codes "8.3.1"))
      (codes "composer")
      (codes "2.8")
    ≡ state
unfolding record_version has sort_texts insert_sorted text_le lookup_or lookup insert text_dec
recorded = refl

well_formed : IsWellFormed state
well_formed = subst IsWellFormed recorded (
    record_version-IsWellFormed _ (codes "composer") (codes "2.8") (
      record_version-IsWellFormed _ (codes "php-zts") (codes "8.3.1") (
        record_version-IsWellFormed nothing (codes "php-zts") (codes "8.4.0")
          nothing-IsWellFormed)))

record_version-IsWellFormed_example :
    IsWellFormed (record_version state (codes "redis") (codes "7.2"))
record_version-IsWellFormed_example =
    record_version-IsWellFormed state (codes "redis") (codes "7.2") well_formed

forget-IsWellFormed_example : IsWellFormed (forget state (codes "php-zts") (codes "8.3.1"))
forget-IsWellFormed_example =
    forget-IsWellFormed state (codes "php-zts") (codes "8.3.1") well_formed
