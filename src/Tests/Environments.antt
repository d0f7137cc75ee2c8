-- ===== src/Tests/Environments.antt =====
-- An environment normalised, saved and loaded.
use polka.Base.Strings.{norm, trim, lower, lower_char, trim_left, trim_right, is_space}
use polka.Base.Dict.{insert}
use polka.Base.{text_dec, codes, ◌≡◌, refl}
use polka.Base.Dict.Rebuild.{rebuild, rebuild_from}
use polka.Config.Extensions.Pecl.{normalize_pecl_extensions, normalize_options, trim_dashes}
use polka.Config.Environments.{normalize_environment}
use polka.Config.Environments.Normal.{normalize_environment_idem}
use polka.Tests.Settings.{site}

pecl_stable :
    normalize_pecl_extensions (normalize_pecl_extensions site.pecl_extensions)
    ≡ normalize_pecl_extensions site.pecl_extensions
unfolding normalize_pecl_extensions normalize_options trim_dashes rebuild rebuild_from insert
    text_dec norm lower lower_char trim trim_left trim_right is_space
pecl_stable = refl

normalize_environment_idem_example :
    normalize_environment (codes "site") (normalize_environment (codes "site") site)
    ≡ normalize_environment (codes "site") site
normalize_environment_idem_example = normalize_environment_idem (codes "site") site pecl_stable
