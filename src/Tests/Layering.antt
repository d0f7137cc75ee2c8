-- ===== src/Tests/Layering.antt =====
-- Layers of install requests: php-zts needs openssl and zlib, openssl needs zlib.
use polka.Base.{ℕ, Text, codes, text_dec, List, [], ◌∷◌, ◌≡◌, refl, ◌⊎◌}
use polka.Base.Dict.{Dict, lookup, lookup_or}
use mathlib.Core.List.{Perm}
use polka.Base.Result.{ok, err}
use polka.Tools.Registry.{InstallRequest}
use polka.Tools.Layers.{cycle_detected, layer_requests, layer_rounds, ready}
use polka.Tools.Layers.{blocked, insert_by_order, sort_by_order}
use polka.Tools.Layers.Order.{concat, IsLayered, layer_requests_sound}
use polka.Tools.Layers.Progress.{layer_requests_total}

abbrev request : Text → InstallRequest
request tool = record { tool = tool; version = codes "1" }

abbrev php : InstallRequest
php = request (codes "php-zts")

abbrev openssl : InstallRequest
openssl = request (codes "openssl")

abbrev zlib : InstallRequest
zlib = request (codes "zlib")

abbrev dependencies : Dict (List Text)
dependencies =
    (codes "php-zts", codes "openssl" ∷ codes "zlib" ∷ [])
    ∷ (codes "openssl", codes "zlib" ∷ [])
    ∷ []

abbrev requests : List InstallRequest
requests = php ∷ openssl ∷ zlib ∷ []

abbrev order : Dict ℕ
order = (codes "php-zts", 0) ∷ (codes "openssl", 1) ∷ (codes "zlib", 2) ∷ []

abbrev layers : List (List InstallRequest)
layers = (zlib ∷ []) ∷ (openssl ∷ []) ∷ (php ∷ []) ∷ []

requests_layered : layer_requests order dependencies requests ≡ ok layers
unfolding layer_requests layer_rounds ready blocked insert_by_order sort_by_order lookup lookup_or
    text_dec
requests_layered = refl

layer_requests_sound_example : Perm (concat layers) requests × IsLayered dependencies layers
layer_requests_sound_example =
    layer_requests_sound dependencies order requests layers requests_layered

layer_requests_total_example :
    ((found : List (List InstallRequest)) × (layer_requests order dependencies requests ≡ ok found))
    ⊎ (layer_requests order dependencies requests ≡ err cycle_detected)
layer_requests_total_example = layer_requests_total order dependencies requests

abbrev cyclic : Dict (List Text)
cyclic = (codes "openssl", codes "zlib" ∷ []) ∷ (codes "zlib", codes "openssl" ∷ []) ∷ []

requests-cyclic : layer_requests order cyclic requests ≡ err cycle_detected
unfolding layer_requests layer_rounds ready blocked insert_by_order sort_by_order lookup lookup_or
    text_dec
requests-cyclic = refl
