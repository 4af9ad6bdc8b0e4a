-- ===== src/Fleet/Tests.antt =====
-- A strike of four ships from sector 12 on sector 13.
use galwar.Base.{◌≡◌, [], ◌∷◌, arith}
use galwar.Base.Int.{pos, ◌-ℤ◌, ◌≤ℤ◌}
use galwar.Float64.Whole.{whole}
use galwar.Inventory.{get_quantity, get_commodity}
use galwar.Inventory.Goods.{fighters}
use galwar.Player.{adjust}
use galwar.Universe.{player_at}
use galwar.World.{has_in}
use galwar.World.Sample.{start, galaxy-Sound}
use galwar.Fleet.{send}
use galwar.Fleet.Homecoming.{voyage, send-Returns}

send-Returns_example :
    (let left = voyage 3 whole 0 (13 ∷ []) (pos 4) (pos 5) start in
      (pos 0 ≤ℤ left.0)
      × (left.0 ≤ℤ pos 4)
      × (player_at (left.1.0) 0 ≡ adjust fighters (pos 0 -ℤ pos 4) (player_at (start.0) 0))
      × (has_in fighters (send 3 whole 0 (13 ∷ []) (pos 4) (pos 5) start) 0
          ≡ pos 10 -ℤ (pos 4 -ℤ left.0)))
unfolding get_quantity get_commodity
send-Returns_example =
    send-Returns 3 whole 0 (13 ∷ []) (pos 4) (pos 5) start (omega arith) (omega arith) (omega arith)
      galaxy-Sound
