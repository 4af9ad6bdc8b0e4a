-- ===== src/World/Tests.antt =====
-- An Emergency Warp in a small galaxy.
use galwar.Base.{arith}
use galwar.Base.Int.{pos}
use galwar.World.{try_em_warp}
use galwar.World.Sample.{start}
use galwar.World.EmWarp.{Warps, try_em_warp-Warps}

try_em_warp-Warps_example : Warps 0 start (try_em_warp 3 0 (pos 7) start)
try_em_warp-Warps_example =
    try_em_warp-Warps 3 0 (pos 7) start (omega arith) (λ large. (0, omega arith, omega arith))
