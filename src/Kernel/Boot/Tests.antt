-- ===== src/Kernel/Boot/Tests.antt =====
-- The system as it starts.
use rv32umos.Base.{ℕ, ◌≡◌, false, ok}
use rv32umos.Kernel.Os.{Os}
use rv32umos.Kernel.Eviction.{entry}
use rv32umos.Kernel.Eviction.Contents.{IsVirtual}
use rv32umos.Kernel.Paging.Tests.{blank}
use rv32umos.Kernel.Boot.{init}
use rv32umos.Kernel.Boot.Start.{init-IsVirtual}

init-IsVirtual_example :
    (os : Os) × (init blank ≡ ok os)
    × IsVirtual os 16
    × ((p v : ℕ) → ((entry os p v).valid ≡ false) × ((entry os p v).swapped ≡ false))
    × ((i : ℕ) → os.swap.allocation_map i ≡ false)
init-IsVirtual_example = init-IsVirtual blank
