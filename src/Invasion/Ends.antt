-- ===== src/Invasion/Ends.antt =====
-- What a planet's mines are when a ship has come through them: pkg/galwar/combat.go, `InvadePlanet`.
use galwar.Universe.{Planet}
use galwar.World.{World}
