-- ===== src/Pulsar/Tests.antt =====
-- A bombardment of a concrete planet.
use galwar.Base.{◌≡◌, refl, inl, inr, some, [], ◌∷◌, arith}
use galwar.Base.Int.{pos}
use galwar.Inventory.{get_commodity}
use galwar.Inventory.Goods.{Commodity, zero_commodity, ore, organics, equipment}
use galwar.Pulsar.{bomb_each}
use galwar.Pulsar.Bombing.{IsBombed, bomb_each-IsBombed}

abbrev mine : Commodity
mine = record zero_commodity { name = organics; prod = pos 1_500; quantity = pos 9_000 }

mine_there : get_commodity organics (mine ∷ []) ≡ some mine
unfolding get_commodity
mine_there = refl

bomb_each-IsBombed_example :
    (c' : Commodity) × (get_commodity organics
        (bomb_each (pos 1_000) (ore ∷ organics ∷ equipment ∷ []) (mine ∷ []))
      ≡ some c')
    × IsBombed (pos 1_000) mine c'
bomb_each-IsBombed_example =
    bomb_each-IsBombed (pos 1_000) (mine ∷ []) organics mine (inr (inl refl)) mine_there
      (omega arith) (omega arith)
