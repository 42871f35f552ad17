-- ===== src/Vm/Memory/Tests.antt =====
-- Loads and stores of words in a RAM whose byte i is i % 256.
use rv32umos.Base.{◌≡◌, arith, stop, out_of_bounds}
use rv32umos.Vm.Memory.{load}
use rv32umos.Vm.Memory.Laws.{load_lem}
use rv32umos.Vm.Sample.{ram, ram-IsBytes}

-- The last byte of the RAM is there, and the three that follow are not.
load_lem_example : load ram 0xffff 4 ≡ stop out_of_bounds
load_lem_example = load_lem ram 0xffff 4 ram-IsBytes (omega arith) (omega arith)
