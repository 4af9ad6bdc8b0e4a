-- ===== src/Battlegroup/Group.antt =====
-- What setting the force of a group that was found or made does: pkg/galwar/battlegroup.go, the end of
-- `AdjustBattlegroup`.
use galwar.Base.{
  ℕ, ◌<◌, ◌≡◌, ◌≢◌, refl, ap, inl, inr, ◌⊎◌, ◌∙◌, true, false, List, length, get_or, set,
  Bool-cases, if◌then◌else◌, arith,
}
use galwar.Base.Int.{ℤ, pos, negsuc, ◌+ℤ◌, ◌-ℤ◌, ◌≤ℤ◌, ltb_ℤ, ltb_ℤ→lt, ltb_ℤ→le, int_laws}
use galwar.GameError.{Result, Done, ok, err}
use galwar.Inventory.{get_quantity, set_quantity, has_inventory}
use galwar.Inventory.Goods.{Commodity}
use galwar.Transfer.{Transferred, total, set_sides}
use galwar.Universe.{Universe, Battlegroup, player_at, nobody}
use galwar.Universe.Pointers.{get_or-set_self, get_or-set_ne}
use galwar.Battlegroup.{
  set_crew, set_force, drop_if_empty, remove_battlegroup, remove_at, force, crew, group_at,
  no_group, adjust_group,
}
use galwar.Battlegroup.Armed.{
  AllArmed, OthersArmed, OthersArmed-set, AllArmed-of, AllArmed-remove_at, OthersArmed-inside,
  remove_at-set, unarmed,
}

-- Group `k` has the amount, is the player's and stands in the sector; the other groups are as they
-- were.
pub record Stands (i sector kind : ℕ) (amount : ℤ) (u : Universe) (k : ℕ) (u' : Universe)
    : Type 0 where
  pub amount_set : get_quantity kind (force u' k) ≡ amount
  pub mine : (group_at u' k).owner ≡ (player_at u i).id
  pub there : (group_at u' k).sector ≡ sector
  pub others : (m : ℕ) → k ≢ m → group_at u' m ≡ group_at u m

-- A state after an adjustment of group `k`: the ship has what the group has not, and the group is
-- there with the amount, or gone with none.
pub record Adjusted (i sector kind : ℕ) (amount : ℤ) (u : Universe) (k : ℕ) (u' : Universe)
    : Type 0 where
  pub crew_side : get_quantity kind (crew u' i) +ℤ amount ≡ total kind (force u k) (crew u i)
  pub group_side :
      Stands i sector kind amount u k u'
      ⊎ ((amount ≡ pos 0) × (u'.battlegroups ≡ remove_at k u.battlegroups))
  pub no_empty : AllArmed u'.battlegroups

abbrev pub Adjusts : ℕ → ℕ → ℕ → ℤ → Universe → ℕ → Result Done × Universe → Type 0
Adjusts i sector kind amount u k (ok _, u') = Adjusted i sector kind amount u k u'
Adjusts i sector kind amount u k (err e, u') =
    (total kind (force u k) (crew u i) +ℤ pos 1 ≤ℤ amount)
    × (u' ≡ (
        if has_inventory (force u k)
        then u
        else record u { battlegroups = remove_at k u.battlegroups }))

plus_comm : (c a : ℤ) → c +ℤ a ≡ a +ℤ c
plus_comm c a = omega int_laws

crew_sum : (c a t : ℤ) → a +ℤ c ≡ t → c +ℤ a ≡ t
crew_sum c a t h = plus_comm c a ∙ h

none_left : (a : ℤ) → pos 0 ≤ℤ a → a ≤ℤ pos 0 → a ≡ pos 0
none_left (pos n) h k = ap pos (omega arith)
none_left (negsuc n) h k = absurd (omega arith)

drop_stays : (k : ℕ) (u : Universe) → has_inventory (force u k) ≡ true → drop_if_empty k u ≡ u
drop_stays k u h = rw (h) refl

drop_goes :
    (k : ℕ) (u : Universe)
    → has_inventory (force u k) ≡ false
    → drop_if_empty k u ≡ remove_battlegroup k u
drop_goes k u h = rw (h) refl

module _ (i sector kind : ℕ) (amount : ℤ) (u : Universe) (k : ℕ) (inside : i < length u.players)
    (low : pos 0 ≤ℤ amount) (others : OthersArmed k u.battlegroups)
    (mine : (group_at u k).owner ≡ (player_at u i).id)
    (there : (group_at u k).sector ≡ sector) where
  abbrev rest : ℤ
  rest = total kind (force u k) (crew u i) -ℤ amount

  abbrev after : List Commodity
  after = set_quantity kind amount (force u k)

  abbrev group' : Battlegroup
  group' = record (group_at u k) { inv = record ((group_at u k).inv) { inventory = after } }

  group_set : get_or (set u.battlegroups k group') k no_group ≡ group'
  group_set =
      get_or-set_self u.battlegroups k group' no_group (OthersArmed-inside k u.battlegroups others)

  sides :
      amount ≤ℤ total kind (force u k) (crew u i)
      → Transferred kind amount (force u k) (crew u i) after (set_quantity kind rest (crew u i))
  sides high =
      set_sides kind amount (total kind (force u k) (crew u i)) (force u k) (crew u i) low high refl

  crew_sides :
      amount ≤ℤ total kind (force u k) (crew u i)
      → get_quantity kind (set_quantity kind rest (crew u i)) +ℤ amount
        ≡ total kind (force u k) (crew u i)
  crew_sides high =
      let t = sides high in
      let s : amount +ℤ get_quantity kind (set_quantity kind rest (crew u i))
          ≡ total kind (force u k) (crew u i) =
        rw (t.set_side) at t.sum in
      crew_sum (get_quantity kind (set_quantity kind rest (crew u i))) amount _ s

  emptied :
      amount ≤ℤ total kind (force u k) (crew u i) → has_inventory after ≡ false → amount ≡ pos 0
  emptied high h =
      let q : get_quantity kind after ≤ℤ pos 0 = unarmed kind after h in
      let q' : amount ≤ℤ pos 0 = rw ((sides high).set_side) at q in none_left amount low q'

  abbrev moved : Universe
  moved = set_crew i (set_quantity kind rest (crew u i)) (set_force k after u)

  force-moved : force moved k ≡ after
  force-moved = ap (λ b. b.inv.inventory) group_set

  crew-moved : crew moved i ≡ set_quantity kind rest (crew u i)
  crew-moved = ap (λ p. p.inv.inventory) (get_or-set_self u.players i _ nobody inside)

  pub adjust_group-Adjusts : Adjusts i sector kind amount u k (adjust_group i kind amount k u)
  unfolding adjust_group
  adjust_group-Adjusts = elim (Bool-cases (ltb_ℤ (total kind (force u k) (crew u i)) amount)) [
    | inl short ↦ rw (short) (ltb_ℤ→lt (total kind (force u k) (crew u i)) amount short, refl)
    | inr enough ↦
        let high = ltb_ℤ→le (total kind (force u k) (crew u i)) amount enough in
        let others' = OthersArmed-set k group' u.battlegroups others in
        elim (Bool-cases (has_inventory after)) [
          | inl stays ↦
              rw (enough, drop_stays k moved (rw (force-moved) stays))
                (record {
                  crew_side =
                      ap (λ inv. get_quantity kind inv +ℤ amount) crew-moved ∙ crew_sides high;
                  group_side = inl (record {
                    amount_set = ap (get_quantity kind) force-moved ∙ (sides high).set_side;
                    mine = ap (λ b. b.owner) group_set ∙ mine;
                    there = ap (λ b. b.sector) group_set ∙ there;
                    others = λ m ne. get_or-set_ne u.battlegroups k m group' no_group ne;
                  });
                  no_empty =
                      AllArmed-of k (set u.battlegroups k group') others' (rw (group_set) stays);
                })
          | inr empty ↦
              rw (enough, drop_goes k moved (rw (force-moved) empty))
                (record {
                  crew_side =
                      ap (λ inv. get_quantity kind inv +ℤ amount) crew-moved ∙ crew_sides high;
                  group_side = inr (emptied high empty, remove_at-set k group' u.battlegroups);
                  no_empty = AllArmed-remove_at k (set u.battlegroups k group') others';
                })
        ]
  ]
