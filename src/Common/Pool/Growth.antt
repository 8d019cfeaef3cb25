-- ===== src/Common/Pool/Growth.antt =====
-- How the pool of connections grows, and when `Get` does not return.
use report_api.Prelude.{
  ℕ, zero, suc, ◌+◌, ◌-◌, ◌/◌, ◌≤◌, ◌≡◌, refl, Bool, true, false, Option, none, some, List, [], ◌∷◌,
  ◌++◌, length, length-append, ltb, ltb-true, ltb-false, Bool-cases, inl, inr, arith,
}
use report_api.Prelude.Int.{pos, pos_part, ltb_ℤ, ◌<ℤ◌, ◌≤ℤ◌}
use report_api.Go.Result.{Error, ok, err, ok-injective}
use report_api.Common.Pool.{
  PoolConfig, Connect, push_back, open_all, new_pool, link_round, auto_link, get_conn, get_many,
}

-- While the front connection is closed, no fuel is enough for `Get` to return.
pub get_conn_never_returns :
    (is_closed : ℕ → Bool) (fuel cn : ℕ) (lq : List ℕ)
    → is_closed cn ≡ true
    → get_conn is_closed fuel (cn ∷ lq) ≡ none
unfolding get_conn
get_conn_never_returns is_closed zero cn lq closed = refl
get_conn_never_returns is_closed (suc fuel) cn lq closed =
    rw (closed, get_conn, get_conn_never_returns is_closed fuel cn lq closed)

abbrev pub copies : {A : Type 0} → ℕ → A → List A
copies zero x = []
copies (suc n) x = x ∷ copies n x

-- While the front connection is open, every call of `Get` gives that one connection, and each call
-- makes the list of connections longer by one.
pub get_many-copies :
    (is_closed : ℕ → Bool) (n cn : ℕ) (lq : List ℕ)
    → is_closed cn ≡ false
    → (lq' : List ℕ) × (get_many is_closed n (cn ∷ lq) ≡ some (copies n (ok cn), cn ∷ lq'))
      × (length lq' ≡ length lq + n)
unfolding get_many get_conn
get_many-copies is_closed zero cn lq alive = (lq, refl, omega arith)
get_many-copies is_closed (suc n) cn lq alive =
    let (lq', ran, grown) = get_many-copies is_closed n cn (lq ++ cn ∷ []) alive in
    (lq', rw (alive, get_many, ran), omega (arith, grown, length-append lq (cn ∷ [])))

-- A connection of every call.
IsConnecting : Connect → Type 0
IsConnecting connect = (call : ℕ) → (cn : ℕ) × (connect call ≡ some cn)

push_back-length :
    (connect : Connect) (call : ℕ) (lq : List ℕ)
    → IsConnecting connect
    → length (push_back lq (connect call)) ≡ length lq + 1
unfolding push_back IsConnecting
push_back-length connect call lq h = let (cn, e) = h call in rw e (length-append lq (cn ∷ []))

link_round-length :
    (connect : Connect) (m fuel i call : ℕ) (lq : List ℕ)
    → IsConnecting connect
    → m ≤ i + fuel
    → length (link_round connect m fuel i call lq) ≡ length lq + (m - length lq - i + 1) / 2
unfolding link_round
link_round-length connect m zero i call lq h f = omega arith
link_round-length connect m (suc fuel) i call lq h f = elim (Bool-cases (ltb i (m - length lq))) [
  | inl e ↦
      let more = ltb-true _ _ e in
      let grown = push_back-length connect call lq h in
      rw (e, link_round)
        (omega (
          arith,
          link_round-length connect m fuel (i + 1) (call + 1) (push_back lq (connect call)) h
              (omega (arith, f)),
          grown,
          more,
        ))
  | inr e ↦ let no_more = ltb-false _ _ e in rw (e, link_round) (omega (arith, no_more))
]

-- Where every new connection succeeds, one round of `AutoLink` opens only half of the connections that
-- are missing, rounded up: the bound of its loop shrinks while the index grows.
pub auto_link-length :
    (connect : Connect) (min_open call : ℕ) (lq : List ℕ)
    → ((k : ℕ) → (cn : ℕ) × (connect k ≡ some cn))
    → length (auto_link connect min_open call lq) ≡ length lq + (min_open - length lq + 1) / 2
unfolding auto_link IsConnecting
auto_link-length connect min_open call lq h =
    omega (arith, link_round-length connect min_open min_open 0 call lq h (omega arith))

open_all-length :
    (connect : Connect) (n call : ℕ) (lq : List ℕ)
    → length (open_all connect n call lq) ≤ length lq + n
unfolding open_all push_back
open_all-length connect zero call lq = omega arith
open_all-length connect (suc n) call lq = omega (
  arith,
  open_all-length connect n (call + 1) (push_back lq (connect call)),
  pushed (connect call),
)
  where
    pushed : (o : Option ℕ) → length (push_back lq o) ≤ length lq + 1
    pushed none = omega arith
    pushed (some cn) = omega (arith, length-append lq (cn ∷ []))

-- A pool is made only if its largest size is positive and no less than its smallest, and it starts with
-- at most as many connections as the smallest size says.
pub new_pool-bounded :
    (connect : Connect) (config : PoolConfig) (lq : List ℕ)
    → new_pool connect config ≡ ok lq
    → (pos 0 <ℤ config.max_open)
      × (config.min_open ≤ℤ config.max_open)
      × (length lq ≤ pos_part config.min_open)
unfolding new_pool
new_pool-bounded connect config lq h = elim (Bool-cases (ltb_ℤ (pos 0) config.max_open)) [
  | inr e ↦ absurd (no_error (rw (e, new_pool) at h))
  | inl e ↦ elim (Bool-cases (ltb_ℤ config.max_open config.min_open)) [
    | inl f ↦ absurd (no_error (rw (e, f, new_pool) at h))
    | inr f ↦
        let opened = ok-injective (rw (e, f, new_pool) at h) in
        (
          ltb-true _ _ e,
          ltb-false _ _ f,
          rw (← opened) (omega (arith, open_all-length connect (pos_part config.min_open) 0 [])),
        )
  ]
]
  where
    no_error : {e : Error} → err e ≡ ok lq → ⊥
    no_error h = cc
