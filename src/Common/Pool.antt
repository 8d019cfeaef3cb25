-- ===== src/Common/Pool.antt =====
-- The connection pool of common/pool/pool.go. A connection is known by a number, and whether the
-- broker has closed it is the library amqp's to say.
pub mod Growth
use report_api.Prelude.{
  ℕ, zero, suc, ◌+◌, ◌-◌, Bool, true, false, ◌||◌, not, Option, none, some, List, [], ◌∷◌, ◌++◌,
  length, ltb, if◌then◌else◌,
}
use report_api.Prelude.Int.{ℤ, pos, pos_part, ltb_ℤ}
use report_api.Go.Result.{Result, ok, err, panic, errorf}

pub record PoolConfig : Type 0 where
  pub max_open : ℤ
  pub min_open : ℤ

-- What `newConnection` returns at each of its calls, counted from 0. It reports an error, or it gives a
-- connection.
abbrev pub Connect : Type 0
Connect = ℕ → Option ℕ

unfoldable pub push_back : List ℕ → Option ℕ → List ℕ
push_back lq none = lq
push_back lq (some cn) = lq ++ cn ∷ []

-- The loop of `NewPool`: so many calls, each of which may add a connection.
unfoldable pub open_all : Connect → ℕ → ℕ → List ℕ → List ℕ
unfolding push_back
open_all connect zero call lq = lq
open_all connect (suc n) call lq = open_all connect n (call + 1) (push_back lq (connect call))

unfoldable pub new_pool : Connect → PoolConfig → Result (List ℕ)
unfolding open_all
new_pool connect config =
    if not (ltb_ℤ (pos 0) config.max_open) || ltb_ℤ config.max_open config.min_open
    then err (errorf "invalid pool config")
    else ok (open_all connect (pos_part config.min_open) 0 [])

-- One round of `AutoLink`: the bound of `for i := 0; i < MinOpen - lq.Len(); i++` is read again each
-- time. The loop runs at most `MinOpen` times, which is its fuel.
unfoldable pub link_round : Connect → ℕ → ℕ → ℕ → ℕ → List ℕ → List ℕ
unfolding push_back
link_round connect min_open zero i call lq = lq
link_round connect min_open (suc fuel) i call lq =
    let rest = link_round connect min_open fuel (i + 1) (call + 1) (push_back lq (connect call)) in
    if ltb i (min_open - length lq) then rest else lq

unfoldable pub auto_link : Connect → ℕ → ℕ → List ℕ → List ℕ
unfolding link_round
auto_link connect min_open call lq = link_round connect min_open min_open 0 call lq

-- `Get` calls itself, and drops what that call returns, while the front connection is closed. `none` is
-- a run that has no fuel for the next call.
unfoldable pub get_conn : (ℕ → Bool) → ℕ → List ℕ → Option (Result ℕ × List ℕ)
get_conn is_closed zero lq = none
get_conn is_closed (suc fuel) [] = some (err (errorf "123123"), [])
get_conn is_closed (suc fuel) (cn ∷ lq) = elim (is_closed cn) [
  | false ↦ some (ok cn, (cn ∷ lq) ++ cn ∷ [])
  | true ↦ elim (get_conn is_closed fuel (cn ∷ lq)) [
    | none ↦ none
    | some (_, lq') ↦ some (ok cn, lq' ++ cn ∷ [])
  ]
]

-- `Get` called so many times, and the connections it gave.
unfoldable pub get_many : (ℕ → Bool) → ℕ → List ℕ → Option (List (Result ℕ) × List ℕ)
unfolding get_conn
get_many is_closed zero lq = some ([], lq)
get_many is_closed (suc n) lq = elim (get_conn is_closed 1 lq) [
  | none ↦ none
  | some (r, lq') ↦ elim (get_many is_closed n lq') [
    | none ↦ none
    | some (rs, lq'') ↦ some (r ∷ rs, lq'')
  ]
]
