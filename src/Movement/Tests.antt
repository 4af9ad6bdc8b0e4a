-- ===== src/Movement/Tests.antt =====
-- A move into a defended sector.
use galwar.Base.{◌≡◌, ◌⊎◌, refl, false, arith}
use galwar.Base.Int.{pos}
use galwar.Inventory.{get_quantity, get_commodity}
use galwar.Inventory.Goods.{mines}
use galwar.World.{goes_on, force_of}
use galwar.World.Sample.{start}
use galwar.Movement.{sweep, move_player}
use galwar.Movement.Guards.{Moves, move_player-Moves}
use galwar.Movement.Field.{sweep-clears}

move_player-Moves_example : Moves 0 13 start (move_player 3 0 13 (pos 5) start)
move_player-Moves_example = move_player-Moves 3 0 13 (pos 5) start (omega arith)

one_mine : force_of start mines 0 ≡ pos 1
unfolding get_quantity get_commodity
one_mine = refl

sweep-clears_example :
    (goes_on (sweep 3 1 0 0 (pos 5) start).0 ≡ false)
    ⊎ (force_of (sweep 3 1 0 0 (pos 5) start).1 mines 0 ≡ pos 0)
sweep-clears_example = sweep-clears 3 1 0 0 (pos 5) start (omega arith) one_mine
