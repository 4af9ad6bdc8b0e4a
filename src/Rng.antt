-- ===== src/Rng.antt =====
-- math/rand as the source uses it: a stream of raw numbers that stands for the generator's future.
-- Every theorem is for all streams, so for every run of the dice.
use galwar.Base.{ℕ, suc, ◌%◌}

abbrev pub Rng : Type 0
Rng = ℕ → ℕ

-- rand.Intn(n), for the positive constants that the source passes: some number below n, and the
-- rest of the stream.
unfoldable pub intn : ℕ → Rng → ℕ × Rng
intn n rng = (rng 0 % n, λ i. rng (suc i))
