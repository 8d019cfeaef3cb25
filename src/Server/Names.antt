-- ===== src/Server/Names.antt =====
-- `parseMethodCall` of core/httpServer.go, on the bytes of a function's name.
use report_api.Prelude.{
  ℕ, suc, ◌+◌, ◌≡◌, refl, Bool, true, Option, none, some, [], ◌∷◌, ◌++◌, take, drop, take-append,
  drop-append, length, length-append, append-nil, append_assoc, ap, ◌∙◌, filter-append, ltb, ◌==◌,
  if◌then◌else◌, filter, not, arith,
}
use report_api.Go.Result.{Result, ok, panic, slice_bounds}
use report_api.Go.Text.{Bytes, codes}
use report_api.Go.Text.Replace.{replace_all, replace_all-filter}
use report_api.Go.Text.Split.{IsFree}

unfoldable pub next : Option ℕ → Option ℕ
next none = none
next (some i) = some (suc i)

-- `strings.Index` by one character, where `none` is -1.
unfoldable pub index_of : Bytes → ℕ → Option ℕ
unfolding next
index_of [] d = none
index_of (c ∷ s) d = let rest = next (index_of s d) in if c == d then some 0 else rest

unfoldable pub later : Bool → Option ℕ → Option ℕ
later here none = if here then some 0 else none
later here (some i) = some (suc i)

-- `strings.LastIndex` by one character.
unfoldable pub last_index_of : Bytes → ℕ → Option ℕ
unfolding later
last_index_of [] d = none
last_index_of (c ∷ s) d = later (c == d) (last_index_of s d)

-- The name of the type: what stands between the asterisk and the last dot, or all before the dot.
unfoldable pub type_name : Bytes → Option ℕ → ℕ → Bytes
type_name input none last_dot = take last_dot input
type_name input (some asterisk) last_dot =
    if ltb asterisk last_dot then drop (asterisk + 1) (take last_dot input) else take last_dot input

-- Without a dot, `input[:-1]` panics: no asterisk stands before it.
unfoldable pub parse_method_call : Bytes → Result Bytes
unfolding index_of last_index_of type_name
parse_method_call input = elim (last_index_of input 46) [
  | none ↦ panic slice_bounds
  | some last_dot ↦ ok (
      replace_all (type_name input (index_of input 42) last_dot) (codes ")") []
      ++ drop last_dot input)
]

index_of-append :
    (d : ℕ) (before s : Bytes)
    → IsFree d before
    → index_of (before ++ d ∷ s) d ≡ some (length before)
unfolding index_of next
index_of-append d [] s h = ground arith
index_of-append d (c ∷ before) s (h, hs) = rw (h, index_of-append d before s hs, next)

last_index_of-free : (d : ℕ) (s : Bytes) → IsFree d s → last_index_of s d ≡ none
unfolding last_index_of later
last_index_of-free d [] h = refl
last_index_of-free d (c ∷ s) (h, hs) = rw (last_index_of-free d s hs, later, h)

last_index_of-append :
    (d : ℕ) (before s : Bytes)
    → IsFree d s
    → last_index_of (before ++ d ∷ s) d ≡ some (length before)
unfolding last_index_of later
last_index_of-append d [] s h = rw (last_index_of-free d s h, later) (ground arith)
last_index_of-append d (c ∷ before) s h = rw (last_index_of-append d before s h, later)

filter-free : (d : ℕ) (s : Bytes) → IsFree d s → filter (λ c. not (c == d)) s ≡ s
filter-free d [] h = refl
filter-free d (c ∷ s) (h, hs) = rw (h, filter-free d s hs)

closing :
    (receiver : Bytes)
    → IsFree 41 receiver
    → replace_all (receiver ++ codes ")") (codes ")") [] ≡ receiver
closing receiver h =
    replace_all-filter 41 (receiver ++ codes ")")
    ∙ filter-append (λ c. not (c == 41)) receiver (codes ")")
    ∙ rw (filter-free 41 receiver h, append-nil receiver)

-- The name of a method with a pointer receiver, "…(*Type).Method", is shortened to "Type.Method".
pub parse_method_call-pointer :
    (before receiver method : Bytes)
    → IsFree 42 before
    → IsFree 41 receiver
    → IsFree 46 method
    → parse_method_call (before ++ codes "*" ++ receiver ++ codes ")" ++ 46 ∷ method)
      ≡ ok (receiver ++ 46 ∷ method)
unfolding parse_method_call type_name
parse_method_call-pointer before receiver method h g f =
    let whole = before ++ codes "*" ++ receiver ++ codes ")" in
    let starred : whole ≡ before ++ 42 ∷ (receiver ++ codes ")") = simp append_assoc in
    let input = whole ++ 46 ∷ method in
    let first : index_of input 42 ≡ some (length before) =
      ap (λ s. index_of (s ++ 46 ∷ method) 42) starred
      ∙ ap (λ s. index_of s 42) (append_assoc before (42 ∷ (receiver ++ codes ")")) (46 ∷ method))
      ∙ index_of-append 42 before _ h in
    let dropped : drop (length before + 1) whole ≡ receiver ++ codes ")" =
      ap (drop (length before + 1)) (append_assoc (before ++ codes "*") receiver (codes ")"))
      ∙ drop-append (length before + 1) (before ++ codes "*") (receiver ++ codes ")")
          (omega (arith, length-append before (codes "*"))) in
    let inside : ltb (length before) (length whole) ≡ true = ground (
      arith,
      length-append (before ++ codes "*" ++ receiver) (codes ")"),
      length-append (before ++ codes "*") receiver,
      length-append before (codes "*"),
    ) in
    rw
      (
        parse_method_call,
        last_index_of-append 46 whole method f,
        first,
        type_name,
        inside,
        take-append (length whole) whole (46 ∷ method) refl,
        drop-append (length whole) whole (46 ∷ method) refl,
      )
      (ap (λ t. ok (replace_all t (codes ")") [] ++ 46 ∷ method)) dropped
        ∙ ap (λ t. ok (t ++ 46 ∷ method)) (closing receiver g))
