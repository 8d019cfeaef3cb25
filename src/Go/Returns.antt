-- ===== src/Go/Returns.antt =====
-- What a function with a result and an error returns, where it cannot panic.
use report_api.Prelude.{String}
use report_api.Go.Result.{Error, wrapf, Result, ok, err}

pub data Returns {u} (V : Type u) : Type u where
  failed : Error → Returns V
  returned : V → Returns V

infixl 5 ◌>>=◌
abbrev pub ◌>>=◌ {u v} : {V : Type u} {W : Type v} → Returns V → (V → Returns W) → Returns W
call >>= rest = elim call [ failed e ↦ failed e | returned value ↦ rest value ]

-- `if err != nil { return fmt.Errorf("text: %w", err) }`
abbrev pub wrap_error {u} : {V : Type u} → String → Returns V → Returns V
wrap_error text call = elim call [
  | failed e ↦ failed (wrapf text e)
  | returned value ↦ returned value
]

abbrev pub to_result {u} : {V : Type u} → Returns V → Result V
to_result call = elim call [ failed e ↦ err e | returned value ↦ ok value ]
