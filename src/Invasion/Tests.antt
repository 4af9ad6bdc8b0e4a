-- ===== src/Invasion/Tests.antt =====
-- An invasion of a mined planet.
use galwar.Base.{[], ◌∷◌}
use galwar.Inventory.Goods.{fighters, minedeflector}
use galwar.World.{World, alter}
use galwar.World.Sample.{start, stock, holding}

-- The raider, with a Mine Deflector aboard
abbrev shielded : World
shielded =
    alter 0 (λ p. record p { inv = holding (stock fighters 10 ∷ stock minedeflector 1 ∷ []) }) start
