-- ===== src/Metadata/Examples.antt =====
-- File times of src/metadata.rs.
use filesentry.Common.{◌<◌, ◌↔◌, ◌+◌, ◌*◌}
use filesentry.Metadata.Windows.{filetime_to_system_time, filetime_exact, nanos_1601_1970, IsTime}

-- A day in 2022.
filetime_exact_example :
    IsTime (filetime_to_system_time 30_900_000 7) ((30_900_000 * 4_294_967_296 + 7) * 100)
    ↔ ((30_900_000 * 4_294_967_296 + 7) * 100 < nanos_1601_1970 + 18_446_744_073_709_551_616)
filetime_exact_example = filetime_exact 30_900_000 7
