-- ===== src/Pod/Field.antt =====
-- internal/dashboard/widget.go: what a widget's poll gives.
use kubepage_operator.Prelude.{ℤ, String, Option}

-- `percent` is Go's `*int`, a meter from 0 to 100.
pub record Field : Type 0 where
  pub label : String
  pub value : String
  pub percent : Option ℤ
  pub highlight : String
