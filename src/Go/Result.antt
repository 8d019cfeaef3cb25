-- ===== src/Go/Result.antt =====
-- Errors and panics. `errorf` (its text without the arguments) is `fmt.Errorf` or `errors.New`, `wrapf`
-- is `fmt.Errorf("…: %w", err)`, and `external` is an error that a library returns. A panic that the code
-- itself raises is `raised_error`.
use report_api.Prelude.{ℕ, ◌≡◌, refl, String, List, Option, none, some, get_elem?}

pub data Error : Type 0 where
  errorf : String → Error
  wrapf : String → Error → Error
  external : ℕ → Error

pub data Panic : Type 0 where
  index_out_of_range type_assertion slice_bounds nil_dereference divide_by_zero library_panic
        raised_error :
      Panic

-- What a call yields: a panic, a returned error, or a value.
pub data Result {u} (V : Type u) : Type u where
  panic : Panic → Result V
  err : Error → Result V
  ok : V → Result V

-- The code after a call runs on its value alone.
infixl 5 ◌>>=◌
abbrev pub ◌>>=◌ {u v} : {V : Type u} {W : Type v} → Result V → (V → Result W) → Result W
call >>= rest = elim call [ panic p ↦ panic p | err e ↦ err e | ok value ↦ rest value ]

-- `if err != nil { return fmt.Errorf("text: %w", err) }`
abbrev pub wrap {ℓ} : {A : Type ℓ} → String → Result A → Result A
wrap text (ok a) = ok a
wrap text (err e) = err (wrapf text e)
wrap text (panic p) = panic p

abbrev pub found {ℓ} : {A : Type ℓ} → Option A → Result A
found (some a) = ok a
found none = panic index_out_of_range

-- `xs[i]`, where `none` is the index -1 of a column that was not found.
abbrev pub index {ℓ} : {A : Type ℓ} → List A → Option ℕ → Result A
index xs none = panic index_out_of_range
index xs (some i) = found (get_elem? xs i)

-- Code that succeeds had a call that succeeded.
pub >>=-eq-ok {u v} :
    {V : Type u} {W : Type v} (call : Result V) (rest : V → Result W) {result : W}
    → (call >>= rest) ≡ ok result
    → (value : V) × (call ≡ ok value) × (rest value ≡ ok result)
>>=-eq-ok (ok value) rest h = (value, refl, h)
>>=-eq-ok (panic p) rest h = cc
>>=-eq-ok (err e) rest h = cc

pub ok-injective {ℓ} : {A : Type ℓ} {a b : A} → ok a ≡ ok b → a ≡ b
ok-injective h = cc
