-- ===== src/Tests/Engine.antt =====
-- Numbers as differences of thousandths, which stand in for the engine's.
use Prim.Native.String
use hifld_next.Common.{ℕ, ◌+◌, ◌*◌, ◌-◌, ◌/◌, ◌%◌, true, false, eqb, ltb, max, [], arith}
use hifld_next.Js.{Js, IsOrdered}
use hifld_next.Diff.Model.{CellIndex}

pub record Thousandths : Type 0 where
  pub up : ℕ
  pub down : ℕ

abbrev quotient : Thousandths → Thousandths → Thousandths
quotient a b = record { up = ((a.up - a.down) * 1000) / max 1 (b.up - b.down); down = 0 }

abbrev pub engine : Js
engine = record {
  Number = Thousandths;
  literal = λ n d. record { up = (n * 1000) / max 1 d; down = 0 };
  minus = λ a. record { up = a.down; down = a.up };
  plus = λ a b. record { up = a.up + b.up; down = a.down + b.down };
  times = λ a b. record {
    up = (a.up * b.up + a.down * b.down) / 1000;
    down = (a.up * b.down + a.down * b.up) / 1000;
  };
  divide = quotient;
  lt = λ a b. ltb (a.up + b.down) (b.up + a.down);
  eq = λ a b. eqb (a.up + b.down) (b.up + a.down);
  is_finite = λ a. true;
  is_nan = λ a. false;
  is_integer = λ a. eqb ((a.up - a.down) % 1000) 0;
  print = λ a. "0";
  read = λ s. record { up = 0; down = 0 };
  locale_compare = String.compare;
  to_lower_case = λ s. s;
  print_bigint = λ n. "0";
  json_stringify = λ v. "";
}

pub engine-IsOrdered : IsOrdered engine
engine-IsOrdered = record {
  lt_irrefl = λ a. ground arith;
  lt_trans = λ a b c h k. ground arith;
  eq_lt = λ a b c h. ground arith;
}

-- One cell, which holds every point.
abbrev pub one_cell : CellIndex engine
one_cell = record {
  max_level = record { up = 30000; down = 0 };
  token = λ p level. "cell";
  neighbors = λ p level. [];
}
