-- ===== src/Restock/Accrual.antt =====
-- The accrual of pkg/galwar/commodity.go, `Commodity.Restock`, over its history of calls.
use galwar.Base.{ℕ, ◌+◌, ◌-◌, ◌*◌, ◌/◌, ◌≤◌, ◌<◌, ◌≡◌, ◌⊎◌}
use galwar.Base.Int.{pos}
use galwar.Inventory.Goods.{Commodity}

-- A commodity of a port whose clock has been started: its rate, stock and clock are numbers.
abbrev pub stock : Commodity → ℕ → ℕ → ℕ → Commodity
stock c p q l = record c { prod = pos p; quantity = pos q; last_restock = pos l }

-- The code's arithmetic on such a commodity, in ℕ.
gain : ℕ → ℕ → ℕ → ℕ
gain p l now = 2 * p * (now - l) / 86400

module _ (p l now : ℕ) (hp : 0 < p) (hn : l < now) where
  seconds : ℕ
  seconds = gain p l now * 86400 / (2 * p)

-- What production is owed, in units times seconds of a day: the stock, and what has accrued since
-- the clock was last moved.
abbrev pub owed : ℕ → ℕ → ℕ → ℕ → ℕ
owed p q l now = q * 86400 + 2 * p * (now - l)

-- How a call leaves the stock `q` and the clock `l` of a commodity that makes 2 * p a day.
pub record Accrues (p q l now q' l' : ℕ) : Type 0 where
  pub stock_grows : q ≤ q'
  pub stock_capped : q' ≤ p * 10
  pub clock_grows : l ≤ l'
  pub clock_le_now : l' ≤ now
  -- Full, or what was owed is still owed, with less than a second's production on top.
  pub owed_kept :
      ((q' ≡ p * 10) × (l' ≡ now))
      ⊎ ((owed p q l now ≤ owed p q' l' now) × (owed p q' l' now < owed p q l now + 2 * p))

-- How a call leaves the stock and the clock of a commodity, on every branch.
pub data Restocks (p q l now : ℕ) : ℕ → ℕ → Type 0 where
  -- It makes nothing.
  idle : p ≡ 0 → Restocks p q l now q l
  -- The first call starts the clock.
  started : 0 < p → l ≡ 0 → Restocks p q l now q now
  -- No time has passed.
  early : 0 < p → 0 < l → now ≤ l → Restocks p q l now q l
  -- Full, or fuller: the clock is set, and the surplus stays.
  full_already : 0 < p → 0 < l → l < now → p * 10 ≤ q → Restocks p q l now q now
  made :
      {q' l' : ℕ}
      → 0 < p
      → 0 < l
      → l < now
      → q < p * 10
      → Accrues p q l now q' l'
      → Restocks p q l now q' l'
