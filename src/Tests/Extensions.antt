-- ===== src/Tests/Extensions.antt =====
-- Extensions and packages, written to a file and read back.
use polka.Base.{Text, codes, text_dec, List, [], ◌∷◌, ◌≡◌, refl, All, inl, inr}
use polka.Base.Strings.{norm, trim, lower, lower_char, trim_left, trim_right, is_space, has}
use polka.Base.Dict.{Dict, insert}
use polka.Base.Dict.Rebuild.{rebuild, rebuild_from}
use polka.Base.Result.{ok}
use polka.Config.Types.{PeclExtensionConfig}
use polka.Config.Extensions.{normalize_php_extensions, normalize_pie_extensions}
use polka.Config.Extensions.{split_php_extensions_from_yaml, php_extensions_file_value}
use polka.Config.Extensions.Laws.{IsBundledKey, IsPieKey}
use polka.Config.Extensions.Laws.{split_php_extensions_from_yaml-php_extensions_file_value}
use polka.Config.Extensions.Pecl.{normalize_pecl_extensions, pecl_extensions_from_yaml}
use polka.Config.Extensions.Pecl.{pecl_extensions_file_value}
use polka.Config.Values.{str}
use polka.Base.Dict.Rebuild.{map_values}
use polka.Config.Extensions.Pecl.{PeclOptions, absent, values, texts}
use polka.Config.Extensions.Pecl.Laws.{YamlDecoder, KeepsTexts, through_file}
use polka.Config.Extensions.Pecl.Laws.{pecl_extensions_from_yaml-pecl_extensions_file_value}
use polka.Config.Workers.Command.{split_worker_command}
use polka.Config.Workers.Command.Laws.{split_worker_command-command_line, command_line, IsQuotable}
use polka.Tests.Settings.{site}

pub plain : All (λ (k, _). IsBundledKey k) (normalize_php_extensions site.php_extensions)
unfolding normalize_php_extensions rebuild rebuild_from insert text_dec has norm lower lower_char
    trim trim_left trim_right is_space
plain = (((λ e. cc), refl), (((λ e. cc), refl), tt))

pub slashes : All (λ (k, _). IsPieKey k) (normalize_pie_extensions site.pie_extensions)
unfolding normalize_pie_extensions rebuild rebuild_from insert text_dec has norm lower lower_char
    trim trim_left trim_right is_space
slashes = (refl, tt)

split_php_extensions_from_yaml-php_extensions_file_value_example :
    split_php_extensions_from_yaml
      (php_extensions_file_value site.php_extensions site.pie_extensions)
    ≡ (normalize_php_extensions site.php_extensions, normalize_pie_extensions site.pie_extensions)
split_php_extensions_from_yaml-php_extensions_file_value_example =
    split_php_extensions_from_yaml-php_extensions_file_value site.php_extensions site.pie_extensions
      plain slashes

abbrev packages : Dict PeclExtensionConfig
packages =
    (
      codes "Redis",
      record {
        version = codes " 6.1.0";
        configure_options = (codes "--enable-redis-lzf", codes "yes") ∷ [];
      },
    )
    ∷ []

-- options that are texts, decoded
abbrev decoded_options : PeclOptions → PeclOptions
decoded_options absent = absent
decoded_options (values m) = values m
decoded_options (texts m) = values (map_values str m)

abbrev pub decoder : YamlDecoder
decoder = record { value = λ v. v; options = decoded_options }

pub decoder-KeepsTexts : KeepsTexts decoder
decoder-KeepsTexts = record { text = λ s. refl; options = λ m. refl }

pecl_extensions_from_yaml-pecl_extensions_file_value_example :
    pecl_extensions_from_yaml
      (map_values (through_file decoder) (pecl_extensions_file_value packages))
    ≡ normalize_pecl_extensions (normalize_pecl_extensions packages)
pecl_extensions_from_yaml-pecl_extensions_file_value_example =
    pecl_extensions_from_yaml-pecl_extensions_file_value decoder decoder-KeepsTexts packages

abbrev arguments : List Text
arguments = codes "php" ∷ codes "it's" ∷ codes "a b" ∷ []

quotable : All IsQuotable arguments
unfolding has
quotable = (inl refl, (inr refl, (inl refl, tt)))

split_worker_command-command_line_example :
    split_worker_command (command_line arguments) ≡ ok arguments
split_worker_command-command_line_example =
    split_worker_command-command_line arguments (λ e. cc) quotable
