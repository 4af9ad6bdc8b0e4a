-- ===== src/Float64/Whole.antt =====
-- Floats that are whole numbers and round down, for the examples. They obey the laws that the trade
-- code relies on.
use galwar.Base.{◌*◌, ◌/◌, ◌+◌, ◌-◌, ltb, leb}
use galwar.Base.Int.{pos, pos_part}
use galwar.Float64.{Float64}

abbrev pub whole : Float64
whole = record {
  of_int = pos_part;
  to_int = pos;
  round = λ x. x;
  add = ◌+◌;
  sub = ◌-◌;
  mul = ◌*◌;
  div = ◌/◌;
  lt = ltb;
  le = leb;
}
