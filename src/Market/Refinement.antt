-- ===== src/Market/Refinement.antt =====
-- The methods of the universe implement the trades: pkg/galwar/ops.go.
use galwar.Base.{ℕ, ◌<◌, ◌≡◌, refl, ap, ◌∙◌, inl, inr, ◌⊎◌, true, false, Bool-cases, length}
use galwar.Base.Int.{ℤ}
use galwar.GameError.{
  Result, Command, Done, ok, err, IsAtomic, ◌>>◌, modify, bind_ok, bind_err, err_dead,
}
use galwar.Float64.{Float64}
use galwar.Inventory.Goods.{zero_commodity}
use galwar.Player.{is_dead}
use galwar.Trade.{Deal, trade_buy, trade_sell}
use galwar.Trade.Buying.{trades_are-IsAtomic}
use galwar.Universe.{Universe, player_at, mark_dirty, nobody}
use galwar.Universe.Pointers.{get_or-set_self, set-get_or}
use galwar.Docking.{no_port}
use galwar.Market.{
  deal_of, set_port, set_trader, on_deal, check_alive, guarded, market_buy, market_sell,
}

-- A trade by a living player, seen on the two sides `d` of it, with the result `r` that the trade
-- between them has.
pub record IsTraded (i j : ℕ) (u u' : Universe) (r : Result Done × Deal) : Type 0 where
  pub alive : is_dead (player_at u i) ≡ false
  pub agreed : r.0 ≡ ok tt
  pub both_sides : deal_of i j u' ≡ r.1
  pub changed : u'.dirty ≡ true

-- What a method has done: the trade, or nothing.
abbrev pub Implements : ℕ → ℕ → Universe → Result Done × Deal → Result Done × Universe → Type 0
Implements i j u r (ok _, u') = IsTraded i j u u' r
Implements i j u r (err e, u') = (u' ≡ u) × ((is_dead (player_at u i) ≡ true) ⊎ (r.0 ≡ err e))

module _ (i j : ℕ) (u : Universe) (here : i < length u.players) (there : j < length u.ports) where
  abbrev after : Deal → Universe
  after d = set_trader i d.trader (set_port j d u)

  both_sides_of : (d : Deal) → deal_of i j (after d) ≡ d
  both_sides_of d =
      rw (get_or-set_self u.players i _ nobody here, get_or-set_self u.ports j _ no_port there) refl

  unchanged : after (deal_of i j u) ≡ u
  unchanged = rw (set-get_or u.players i nobody, set-get_or u.ports j no_port) refl

  dealt :
      (r : Result Done × Deal)
      → is_dead (player_at u i) ≡ false
      → IsAtomic (deal_of i j u) r
      → Implements i j u r ((on_deal i j (λ _. r) >> modify mark_dirty) u)
  unfolding on_deal
  dealt (ok _, d) alive _ = record {
    alive = alive;
    agreed = refl;
    both_sides = both_sides_of d;
    changed = refl;
  }
  dealt (err e, d) alive same = (ap after same ∙ unchanged, inr refl)

  guarded_dead :
      (m : Command Deal Done) → is_dead (player_at u i) ≡ true → guarded i j m u ≡ (err err_dead, u)
  unfolding guarded
  guarded_dead m dead =
      bind_err (check_alive i) (λ _. on_deal i j m >> modify mark_dirty) u u err_dead
        (rw (dead) refl)

  guarded_alive :
      (m : Command Deal Done)
      → is_dead (player_at u i) ≡ false
      → guarded i j m u ≡ (on_deal i j m >> modify mark_dirty) u
  unfolding guarded
  guarded_alive m alive =
      bind_ok (check_alive i) (λ _. on_deal i j m >> modify mark_dirty) u u tt (rw (alive) refl)

  guarded-Implements :
      (m : Command Deal Done)
      → IsAtomic (deal_of i j u) (m (deal_of i j u))
      → Implements i j u (m (deal_of i j u)) (guarded i j m u)
  unfolding on_deal
  guarded-Implements m atomic = elim (Bool-cases (is_dead (player_at u i))) [
    | inl dead ↦ rw (guarded_dead m dead) (refl, inl dead)
    | inr alive ↦ rw (guarded_alive m alive) (dealt (m (deal_of i j u)) alive atomic)
  ]

-- A purchase through the universe succeeds for a living player when the trade between the port and the
-- ship does, and then leaves both as that trade leaves them, and the dirty flag set; otherwise it is
-- refused, to a dead player or with the trade's own error, and changes nothing.
pub market_buy-Implements :
    (fl : Float64) (i j name : ℕ) (quantity : ℤ) (u : Universe)
    → i < length u.players
    → j < length u.ports
    → Implements i j u
        (trade_buy fl name quantity (deal_of i j u))
        (market_buy fl i j name quantity u)
unfolding market_buy
market_buy-Implements fl i j name quantity u here there =
    guarded-Implements i j u here there (trade_buy fl name quantity)
      (trades_are-IsAtomic fl name quantity (deal_of i j u) zero_commodity (player_at u i).inv).0

-- A sale through the universe succeeds for a living player when the trade between the port and the ship
-- does, and then leaves both as that trade leaves them, and the dirty flag set; otherwise it is
-- refused, to a dead player or with the trade's own error, and changes nothing.
pub market_sell-Implements :
    (fl : Float64) (i j name : ℕ) (quantity : ℤ) (u : Universe)
    → i < length u.players
    → j < length u.ports
    → Implements i j u
        (trade_sell fl name quantity (deal_of i j u))
        (market_sell fl i j name quantity u)
unfolding market_sell
market_sell-Implements fl i j name quantity u here there =
    guarded-Implements i j u here there (trade_sell fl name quantity)
      (trades_are-IsAtomic fl name quantity (deal_of i j u) zero_commodity (player_at u i).inv).1
