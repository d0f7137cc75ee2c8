-- ===== src/Tests/Values.antt =====
-- Memory limits, OPcache directives and worker names.
use polka.Base.{codes, true, ◌≡◌, ◌↔◌}
use polka.Config.Memory.{normalize_memory_limit}
use polka.Config.Memory.{validate_memory_limit}
use polka.Config.Memory.Laws.{validate_memory_limit_iff, IsMemoryLimit}
use polka.Config.Opcache.{}

validate_memory_limit_iff_example :
    (validate_memory_limit (codes "2g") ≡ true)
    ↔ IsMemoryLimit (normalize_memory_limit (codes "2g"))
validate_memory_limit_iff_example = validate_memory_limit_iff (codes "2g")
