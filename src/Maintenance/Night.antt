-- ===== src/Maintenance/Night.antt =====
-- The turns of a new day: the first loop of `RunDailyMaintenance`, pkg/galwar/maintenance.go.
use galwar.Base.{
  ℕ, zero, suc, ◌<◌, ◌≡◌, ◌≢◌, ◌∙◌, ap, refl, inl, inr, Bool-cases, List, [], ◌∷◌, length, get_or,
  if◌then◌else◌, arith,
}
use galwar.Base.Int.{ℤ, pos, ◌+ℤ◌, min_ℤ}
use galwar.Inventory.{at_least_zero, set_quantity}
use galwar.Inventory.Goods.{turns}
use galwar.Inventory.Laws.{get_quantity-set_quantity, get_quantity-set_quantity_ne}
use galwar.Player.{Player, has, has_fusion_cell}
use galwar.Universe.{nobody}
use galwar.Maintenance.{bank_turns, reset_turns}

-- A player before and after the reset.
pub record IsRested (day : ℤ) (p q : Player) : Type 0 where
  pub allowance : has turns q ≡ at_least_zero day
  pub reserve :
      q.banked_turns
      ≡ (if has_fusion_cell p then min_ℤ (p.banked_turns +ℤ has turns p) day else pos 0)
  -- Nothing else of the record changes, and no other good.
  pub same_rest : q ≡ record p {
    banked_turns = q.banked_turns;
    inv = record (p.inv) { inventory = q.inv.inventory };
  }
  pub same_goods : (good : ℕ) → good ≢ turns → has good q ≡ has good p

rested :
    (day : ℤ) (p q : Player)
    → q ≡ bank_turns day p
    → (q.banked_turns
        ≡ (if has_fusion_cell p then min_ℤ (p.banked_turns +ℤ has turns p) day else pos 0))
      × (q ≡ record p { banked_turns = q.banked_turns })
unfolding bank_turns
rested day p q e = elim (Bool-cases (has_fusion_cell p)) [
  | inl cell ↦ rw (e) (rw (cell) (refl, refl))
  | inr none ↦ rw (e) (rw (none) (refl, refl))
]

-- The first loop of the nightly pass leaves every player with exactly a day's allowance of turns,
-- or none where that is negative; and in reserve with the unused turns that a Fusion Cell keeps, up
-- to a day's allowance, or none without one. It changes nothing else of the player: what the pass
-- does to a player afterwards, such as an expiry, is not part of it.
pub reset_turns-IsRested :
    (day : ℤ) (ps : List Player) (i : ℕ)
    → i < length ps
    → IsRested day (get_or ps i nobody) (get_or (reset_turns day ps) i nobody)
unfolding reset_turns
reset_turns-IsRested day [] i h = absurd (omega arith)
reset_turns-IsRested day (p ∷ ps) zero h =
    let (reserve, same) = rested day p (bank_turns day p) refl in
    record {
      allowance = get_quantity-set_quantity turns day (bank_turns day p).inventory;
      reserve = reserve;
      same_rest =
          ap
            (λ (x : Player). record x {
              inv = record (x.inv) {
                inventory = set_quantity turns day (bank_turns day p).inventory;
              };
            })
            same;
      same_goods = λ good ne.
          get_quantity-set_quantity_ne turns good day (bank_turns day p).inventory ne
          ∙ ap (has good) same;
    }
reset_turns-IsRested day (p ∷ ps) (suc i) h = reset_turns-IsRested day ps i (omega arith)
