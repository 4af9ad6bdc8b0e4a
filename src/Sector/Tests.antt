-- ===== src/Sector/Tests.antt =====
-- Warps at a concrete universe.
use galwar.Base.{ℕ, ◌≡◌, refl, List, [], ◌∷◌, replicate, ◌++◌, false, arith}
use galwar.Base.Int.{pos}
use galwar.Inventory.Goods.{zero_commodity, plasma, turns}
use galwar.Universe.{Universe, nobody}
use galwar.Sector.{add_to, plasma_add, use_plasma, no_sector}
use galwar.Sector.Warps.{Increasing}
use galwar.Sector.Plasma.{Links, use_plasma-Links}

abbrev links : List ℕ
links = 11 ∷ 14 ∷ []

links_sorted : Increasing links
links_sorted = omega arith

added : add_to 12 links ≡ 11 ∷ 12 ∷ 14 ∷ []
unfolding add_to
added = refl

abbrev galaxy : Universe
galaxy = record {
  ports = [];
  players =
      record nobody {
        sector = 12;
        inv = record {
          inventory =
              record zero_commodity { name = plasma; quantity = pos 1 }
              ∷ record zero_commodity { name = turns; quantity = pos 5 }
              ∷ [];
          money = pos 0;
        };
      }
      ∷ [];
  battlegroups = [];
  planets = [];
  sectors =
      replicate 12 no_sector
      ++ (record { number = 12; warps = links } ∷ record { number = 13; warps = [] } ∷ []);
  config = [];
  news = [];
  dirty = false;
}

use_plasma-Links_example : Links plasma_add 12 13 12 13 galaxy (use_plasma 0 plasma_add 13 galaxy)
use_plasma-Links_example =
    use_plasma-Links 0 plasma_add 13 12 13 galaxy (omega arith) links_sorted tt
