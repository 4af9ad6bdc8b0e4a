-- ===== src/Player/Systems.antt =====
-- Damage to ship systems: pkg/galwar/player.go.
use galwar.Base.{
  ℕ, zero, suc, ◌≡◌, refl, inl, inr, List, [], ◌∷◌, ◌==◌, length, get_or, set, Bool-cases, arith,
  length-set, ==_iff, ap, ◌∙◌,
}
use galwar.Base.Int.{ℤ, pos, ◌+ℤ◌, ◌-ℤ◌, ◌≤ℤ◌, ltb_ℤ, int_laws, ltb_ℤ→lt}
use galwar.Inventory.{at_least_zero}
use galwar.Player.{
  Player, num_systems, max_ship_damage, intact, ensure_systems, damage_at, damage_system, heal,
  heal_all, heal_systems, capped_damage,
}

-- Every system's damage lies between 0 and 150 turns.
abbrev pub InRange : List ℤ → Type 0
InRange [] = Unit
InRange (d ∷ ds) = (pos 0 ≤ℤ d) × (d ≤ℤ max_ship_damage) × InRange ds

pub record HasSystems (p : Player) : Type 0 where
  pub six : length p.systems ≡ num_systems
  pub in_range : InRange p.systems

InRange-set :
    (ds : List ℤ) (i : ℕ) (d : ℤ)
    → pos 0 ≤ℤ d
    → d ≤ℤ max_ship_damage
    → InRange ds
    → InRange (set ds i d)
InRange-set [] i d h k v = tt
InRange-set (x ∷ ds) zero d h k v = (h, k, v.2)
InRange-set (x ∷ ds) (suc i) d h k v = (v.0, v.1, InRange-set ds i d h k v.2)

InRange-get : (ds : List ℤ) (i : ℕ) → InRange ds → pos 0 ≤ℤ get_or ds i (pos 0)
InRange-get [] i v = omega arith
InRange-get (x ∷ ds) zero v = v.0
InRange-get (x ∷ ds) (suc i) v = InRange-get ds i v.2

heal_range :
    (d : ℤ) → pos 0 ≤ℤ d → d ≤ℤ max_ship_damage → (pos 0 ≤ℤ heal d) × (heal d ≤ℤ max_ship_damage)
unfolding heal
heal_range d h k = elim (Bool-cases (ltb_ℤ (pos 0) d)) [
  | inl hurt ↦ rw hurt (let some = ltb_ℤ→lt (pos 0) d hurt in (omega int_laws, omega int_laws))
  | inr whole ↦ rw whole (h, k)
]

heal_all-InRange : (ds : List ℤ) → InRange ds → InRange (heal_all ds)
unfolding heal_all
heal_all-InRange [] v = tt
heal_all-InRange (d ∷ ds) v =
    let (low, high) = heal_range d v.0 v.1 in (low, high, heal_all-InRange ds v.2)

length-heal_all : (ds : List ℤ) → length (heal_all ds) ≡ length ds
unfolding heal_all
length-heal_all [] = refl
length-heal_all (d ∷ ds) = ap suc (length-heal_all ds)

capped_damage_range :
    (d : ℤ) → pos 0 ≤ℤ d → (pos 0 ≤ℤ capped_damage d) × (capped_damage d ≤ℤ max_ship_damage)
capped_damage_range d h = ground arith

intact-HasSystems : (p : Player) → HasSystems (record p { systems = intact })
intact-HasSystems p = record { six = refl; in_range = omega arith }

pub ensure_systems-HasSystems : (p : Player) → InRange p.systems → HasSystems (ensure_systems p)
unfolding ensure_systems
ensure_systems-HasSystems p v = elim (Bool-cases (length p.systems == num_systems)) [
  | inl six ↦ rw six (record { six = (==_iff (length p.systems) num_systems).0 six; in_range = v })
  | inr other ↦ rw other (intact-HasSystems p)
]

damage_at-HasSystems :
    (sys : ℕ) (amount : ℤ) (p : Player)
    → pos 0 ≤ℤ amount
    → HasSystems p
    → HasSystems (damage_at sys amount p)
unfolding damage_at
damage_at-HasSystems sys amount p h v =
    let old = InRange-get p.systems sys v.in_range in
    let (low, high) =
      capped_damage_range (get_or p.systems sys (pos 0) +ℤ amount) (omega int_laws) in
    record {
      six = length-set p.systems sys _ ∙ v.six;
      in_range = InRange-set p.systems sys _ low high v.in_range;
    }

-- Damage to a system leaves six systems, each with damage from 0 to 150, also for a record that had
-- not six of them before.
pub damage_system-HasSystems :
    (sys : ℕ) (amount : ℤ) (p : Player)
    → pos 0 ≤ℤ amount
    → InRange p.systems
    → HasSystems (damage_system sys amount p)
unfolding damage_system
damage_system-HasSystems sys amount p h v =
    damage_at-HasSystems sys amount (ensure_systems p) h (ensure_systems-HasSystems p v)

pub heal_systems-HasSystems : (p : Player) → HasSystems p → HasSystems (heal_systems p)
unfolding heal_systems
heal_systems-HasSystems p v = record {
  six = length-heal_all p.systems ∙ v.six;
  in_range = heal_all-InRange p.systems v.in_range;
}

get_or-heal_all :
    (ds : List ℤ) (i : ℕ) → get_or (heal_all ds) i (pos 0) ≡ heal (get_or ds i (pos 0))
unfolding heal_all heal
get_or-heal_all [] i = refl
get_or-heal_all (d ∷ ds) zero = refl
get_or-heal_all (d ∷ ds) (suc i) = get_or-heal_all ds i

heal-eq : (d : ℤ) → pos 0 ≤ℤ d → heal d ≡ at_least_zero (d -ℤ pos 1)
unfolding heal ◌-ℤ◌
heal-eq d h = ground arith

-- Healing takes one turn of damage from every damaged system, and nothing from the others.
pub heal_systems_by_one :
    (p : Player) (i : ℕ)
    → HasSystems p
    → get_or (heal_systems p).systems i (pos 0)
      ≡ at_least_zero (get_or p.systems i (pos 0) -ℤ pos 1)
unfolding heal_systems
heal_systems_by_one p i v =
    get_or-heal_all p.systems i ∙ heal-eq _ (InRange-get p.systems i v.in_range)
