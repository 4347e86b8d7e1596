-- ===== src/Chain/Python.antt =====
-- What the code takes from Python: the case mappings of `str`, and `int` of a text, in base 10 and
-- with the base read from its prefix.
use nim_hunt.Prelude.{ℕ}
use nim_hunt.Prelude.Text.{Text}

-- What `int` makes of a value: it raises, or gives an integer.
pub data Whole : Type 0 where
  invalid negative : Whole
  natural : ℕ → Whole

pub record Python : Type 0 where
  pub upper : Text → Text
  pub lower : Text → Text
  pub int_of : Text → Whole
  pub int_of_literal : Text → Whole
