-- ===== src/Examples/Host.antt =====
-- A host whose numbers are natural thousandths, and the values that the examples share.
use ctrl_alt_ship.Prelude.{
  ℕ, ◌+◌, ◌*◌, ◌/◌, ◌%◌, ◌-◌, true, List, [], ◌∷◌, some, ltb, eqb, if◌then◌else◌,
}
use ctrl_alt_ship.Js.{Runtime, Value, obj, object_prototype, Fields, codes, is_digit}
use ctrl_alt_ship.CallFlow.{Flow, ToolCallScope}

-- The number that the digits of a text make.
abbrev pub digits_number : ℕ → List ℕ → ℕ
digits_number n [] = n
digits_number n (c ∷ cs) = digits_number (if is_digit c then 10 * n + (c - b'0') else n) cs

abbrev rounded : ℕ → ℕ → ℕ
rounded d x = if eqb d 2 then (x + 5) / 10 * 10 else x

abbrev pub host : Runtime
host = record {
  Num = ℕ;
  is_finite = λ x. true;
  is_integer = λ x. eqb (x % 1000) 0;
  lt = ltb;
  eq = eqb;
  thousandths = λ n. n;
  to_fixed = rounded;
  parse_date = λ s. digits_number 0 (codes s);
  iso_date = λ s. some s;
}

abbrev pub scope_of : Flow → ToolCallScope
scope_of flow = record {
  call_id = "call-1";
  realtime_call_id = "rtc-1";
  counterparty_id = "party-1";
  flow = flow;
}

abbrev pub arguments_of : Fields ℕ → Value ℕ
arguments_of fs = obj object_prototype fs
