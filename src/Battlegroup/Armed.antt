-- ===== src/Battlegroup/Armed.antt =====
-- Lists of battlegroups of which none is empty: pkg/galwar/battlegroup.go.
use galwar.Base.{
  ℕ, zero, suc, ◌<◌, ◌≡◌, refl, ap, Bool, true, false, List, [], ◌∷◌, ◌++◌, length, get_or, set,
  arith,
}
use galwar.Base.Int.{pos, ◌≤ℤ◌}
use galwar.Inventory.{get_commodity, get_quantity, has_inventory}
use galwar.Inventory.Goods.{Commodity}
use galwar.Universe.{Battlegroup}
use galwar.Battlegroup.{remove_at, no_group}

abbrev pub armed : Battlegroup → Bool
armed b = has_inventory b.inv.inventory

-- Every group of the list has something in its inventory.
abbrev pub AllArmed : List Battlegroup → Type 0
AllArmed [] = Unit
AllArmed (b ∷ bs) = (armed b ≡ true) × AllArmed bs

-- Every group but the one at an index, which is there.
abbrev pub OthersArmed : ℕ → List Battlegroup → Type 0
OthersArmed k [] = ⊥
OthersArmed zero (b ∷ bs) = AllArmed bs
OthersArmed (suc k) (b ∷ bs) = (armed b ≡ true) × OthersArmed k bs

pub OthersArmed-of :
    (k : ℕ) (bs : List Battlegroup) → k < length bs → AllArmed bs → OthersArmed k bs
OthersArmed-of k [] h v = absurd (omega arith)
OthersArmed-of zero (b ∷ bs) h v = v.1
OthersArmed-of (suc k) (b ∷ bs) h v = (v.0, OthersArmed-of k bs (omega arith) v.1)

pub OthersArmed-new :
    (bs : List Battlegroup) (b : Battlegroup)
    → AllArmed bs
    → OthersArmed (length bs) (bs ++ (b ∷ []))
OthersArmed-new [] b v = tt
OthersArmed-new (x ∷ bs) b v = (v.0, OthersArmed-new bs b v.1)

pub OthersArmed-set :
    (k : ℕ) (b : Battlegroup) (bs : List Battlegroup)
    → OthersArmed k bs
    → OthersArmed k (set bs k b)
OthersArmed-set k b [] v = v
OthersArmed-set zero b (x ∷ bs) v = v
OthersArmed-set (suc k) b (x ∷ bs) v = (v.0, OthersArmed-set k b bs v.1)

pub AllArmed-of :
    (k : ℕ) (bs : List Battlegroup)
    → OthersArmed k bs
    → armed (get_or bs k no_group) ≡ true
    → AllArmed bs
AllArmed-of k [] v h = tt
AllArmed-of zero (x ∷ bs) v h = (h, v)
AllArmed-of (suc k) (x ∷ bs) v h = (v.0, AllArmed-of k bs v.1 h)

pub AllArmed-remove_at :
    (k : ℕ) (bs : List Battlegroup) → OthersArmed k bs → AllArmed (remove_at k bs)
unfolding remove_at
AllArmed-remove_at k [] v = absurd v
AllArmed-remove_at zero (x ∷ bs) v = v
AllArmed-remove_at (suc k) (x ∷ bs) v = (v.0, AllArmed-remove_at k bs v.1)

-- Removing the group that was just appended.
pub remove_at-new :
    (bs : List Battlegroup) (b : Battlegroup) → remove_at (length bs) (bs ++ (b ∷ [])) ≡ bs
unfolding remove_at
remove_at-new [] b = refl
remove_at-new (x ∷ bs) b = ap (◌∷◌ x) (remove_at-new bs b)

pub armed_at :
    (k : ℕ) (bs : List Battlegroup)
    → k < length bs
    → AllArmed bs
    → armed (get_or bs k no_group) ≡ true
armed_at k [] h v = absurd (omega arith)
armed_at zero (x ∷ bs) h v = v.0
armed_at (suc k) (x ∷ bs) h v = armed_at k bs (omega arith) v.1

pub OthersArmed-inside : (k : ℕ) (bs : List Battlegroup) → OthersArmed k bs → k < length bs
OthersArmed-inside k [] v = absurd v
OthersArmed-inside zero (x ∷ bs) v = omega arith
OthersArmed-inside (suc k) (x ∷ bs) v = omega (arith, OthersArmed-inside k bs v.1)

pub remove_at-set :
    (k : ℕ) (b : Battlegroup) (bs : List Battlegroup) → remove_at k (set bs k b) ≡ remove_at k bs
unfolding remove_at
remove_at-set k b [] = refl
remove_at-set zero b (x ∷ bs) = refl
remove_at-set (suc k) b (x ∷ bs) = ap (◌∷◌ x) (remove_at-set k b bs)

pub get_or-new :
    (bs : List Battlegroup) (b : Battlegroup) → get_or (bs ++ (b ∷ [])) (length bs) no_group ≡ b
get_or-new [] b = refl
get_or-new (x ∷ bs) b = get_or-new bs b

pub get_or-outside : (bs : List Battlegroup) → get_or bs (length bs) no_group ≡ no_group
get_or-outside [] = refl
get_or-outside (x ∷ bs) = get_or-outside bs

pub unarmed :
    (kind : ℕ) (inv : List Commodity) → has_inventory inv ≡ false → get_quantity kind inv ≤ℤ pos 0
unfolding has_inventory get_quantity get_commodity
unarmed kind [] h = ground arith
unarmed kind (c ∷ inv) h = ground (arith, unarmed kind inv)

pub remove_at-outside : (bs : List Battlegroup) → remove_at (length bs) bs ≡ bs
unfolding remove_at
remove_at-outside [] = refl
remove_at-outside (x ∷ bs) = ap (◌∷◌ x) (remove_at-outside bs)

pub unarmed_nil : has_inventory [] ≡ false
unfolding has_inventory
unarmed_nil = refl
