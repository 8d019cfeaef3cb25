-- ===== src/Region/Search/Found.antt =====
-- What the search finds in a table whose segments are in order.
use report_api.Prelude.{
  ℕ, zero, suc, ◌+◌, ◌-◌, ◌<◌, ◌≤◌, ◌≡◌, refl, true, false, none, some, List, [], ◌∷◌, ◌⊎◌, inl,
  inr, length, ltb, ltb-true, ltb-false, Bool-cases, Nat-cases, arith,
}
use report_api.Go.Text.{Bytes, str_lt}
use report_api.Region.Search.{Segment, segment_at, holds, middle, search, ip_search}
use report_api.Go.Text.Order.{str_lt_trans, str_lt_mixed, str_lt_asym, str_lt_le}

-- No segment ends before it starts.
abbrev pub IsOrdered : List Segment → Type 0
IsOrdered ips = (i : ℕ) → i < length ips → str_lt (segment_at ips i).e (segment_at ips i).s ≡ false

-- Every segment ends before the next ones start.
abbrev pub IsSorted : List Segment → Type 0
IsSorted ips =
    (i j : ℕ) → i < j → j < length ips → str_lt (segment_at ips i).e (segment_at ips j).s ≡ true

middle-between :
    (low bound : ℕ) → low < bound → (low ≤ middle low bound) × (middle low bound < bound)
middle-between low bound h = (omega arith, omega arith)

-- What a round sees in a segment that is in order.
data Seen (ip : Segment) (sip : Bytes) : Type 0 where
  inside : holds ip sip ≡ true → Seen ip sip
  before : holds ip sip ≡ false → str_lt sip ip.s ≡ true → Seen ip sip
  after : holds ip sip ≡ false → str_lt sip ip.s ≡ false → str_lt ip.s sip ≡ true → Seen ip sip

see : (ip : Segment) (sip : Bytes) → str_lt ip.e ip.s ≡ false → Seen ip sip
unfolding holds
see ip sip o = elim (Bool-cases (str_lt sip ip.s)) [
  | inl b ↦ before (rw b) b
  | inr b ↦ elim (Bool-cases (str_lt ip.e sip)) [
    | inr c ↦ inside (rw (b, c))
    | inl c ↦ after (rw (b, c)) b (str_lt_mixed ip.s ip.e sip o c)
  ]
]

module _ (ips : List Segment) (sip : Bytes) where
  -- The region of a segment that holds the address, or nothing.
  abbrev pub IsAnswer : Bytes → Type 0
  IsAnswer r =
      (r ≡ [])
      ⊎ ((i : ℕ) × (i < length ips)
          × (holds (segment_at ips i) sip ≡ true)
          × (r ≡ (segment_at ips i).v))

  search-IsAnswer :
      (fuel low bound : ℕ)
      → IsOrdered ips
      → bound ≤ length ips
      → bound - low < fuel
      → (r : Bytes) × (search ips sip fuel low bound ≡ some r) × IsAnswer r
  unfolding search
  search-IsAnswer zero low bound o b f = absurd (omega arith)
  search-IsAnswer (suc fuel) low bound o b f = elim (Bool-cases (ltb low bound)) [
    | inr e ↦ ([], rw (e, search), inl refl)
    | inl e ↦
        let (above, below) = middle-between low bound (ltb-true low bound e) in
        let mid = middle low bound in
        elim (see (segment_at ips mid) sip (o mid (omega (arith, below, b)))) [
          | inside h ↦ (
            (segment_at ips mid).v,
            rw (e, search, h),
            inr (mid, omega (arith, below, b), h, refl),
          )
          | before h k ↦
              let (r, found, answer) =
                search-IsAnswer fuel low mid o (omega (arith, below, b))
                  (omega (arith, below, f)) in
              (r, rw (e, search, h, k) found, answer)
          | after h k l ↦
              let (r, found, answer) =
                search-IsAnswer fuel (mid + 1) bound o b (omega (arith, above, f)) in
              (r, rw (e, search, h, k, l) found, answer)
        ]
  ]

  abbrev HoldsAt : ℕ → Type 0
  HoldsAt i = holds (segment_at ips i) sip ≡ true

  holds-ends :
      (ip : Segment) → holds ip sip ≡ true → (str_lt sip ip.s ≡ false) × (str_lt ip.e sip ≡ false)
  unfolding holds
  holds-ends ip h = (ground arith, ground arith)

  -- Behind a segment that starts after the address, no segment holds it.
  holds-before :
      (i mid : ℕ)
      → IsOrdered ips
      → IsSorted ips
      → mid < length ips
      → i < length ips
      → HoldsAt i
      → str_lt sip (segment_at ips mid).s ≡ true
      → i < mid
  holds-before i mid o sorted m l h k = elim (Nat-cases i mid) [
    | inl left ↦ left
    | inr (inl same) ↦ absurd (ground (arith, (holds-ends (segment_at ips i) h).0, same))
    | inr (inr right) ↦
        let starts =
          str_lt_mixed (segment_at ips mid).s (segment_at ips mid).e (segment_at ips i).s (o mid m)
            (sorted mid i right l) in
        let early = str_lt_asym _ _ (
          str_lt_le (segment_at ips mid).s (segment_at ips i).s sip starts
            (holds-ends (segment_at ips i) h).0) in
        absurd (ground (arith, early, k))
  ]

  -- Nor before a segment that starts before the address and does not hold it.
  holds-after :
      (i mid : ℕ)
      → IsSorted ips
      → mid < length ips
      → HoldsAt i
      → holds (segment_at ips mid) sip ≡ false
      → str_lt (segment_at ips mid).s sip ≡ true
      → mid < i
  holds-after i mid sorted m h n k = elim (Nat-cases i mid) [
    | inl left ↦
        let past = str_lt_trans _ _ _ (sorted i mid left m) k in
        absurd (ground (arith, (holds-ends (segment_at ips i) h).1, past))
    | inr (inl same) ↦ absurd (ground (arith, h, n, same))
    | inr (inr right) ↦ right
  ]

  -- Two segments never hold the same address.
  holds-same :
      (i j : ℕ) → IsSorted ips → i < length ips → j < length ips → HoldsAt i → HoldsAt j → i ≡ j
  holds-same i j sorted l m h k = elim (Nat-cases i j) [
    | inl left ↦ absurd (apart i j (sorted i j left m) h k)
    | inr (inl same) ↦ same
    | inr (inr right) ↦ absurd (apart j i (sorted j i right l) k h)
  ]
    where
      apart :
          (i j : ℕ)
          → str_lt (segment_at ips i).e (segment_at ips j).s ≡ true
          → HoldsAt i
          → HoldsAt j
          → ⊥
      apart i j s h k =
          let past = str_lt_le _ _ sip s (holds-ends (segment_at ips j) k).0 in
          ground (arith, past, (holds-ends (segment_at ips i) h).1)

  search-finds :
      (fuel low bound i : ℕ)
      → IsOrdered ips
      → IsSorted ips
      → bound ≤ length ips
      → bound - low < fuel
      → low ≤ i
      → i < bound
      → HoldsAt i
      → search ips sip fuel low bound ≡ some (segment_at ips i).v
  unfolding search
  search-finds zero low bound i o sorted b f p q h = absurd (omega arith)
  search-finds (suc fuel) low bound i o sorted b f p q h = elim (Bool-cases (ltb low bound)) [
    | inr e ↦ absurd (omega (arith, ltb-false low bound e))
    | inl e ↦
        let (above, below) = middle-between low bound (ltb-true low bound e) in
        let mid = middle low bound in
        let m : mid < length ips = omega (arith, below, b) in
        elim (see (segment_at ips mid) sip (o mid m)) [
          | inside k ↦ rw (e, search, k, holds-same i mid sorted (omega arith) m h k)
          | before k l ↦
              rw (e, search, k, l)
                (search-finds fuel low mid i o sorted (omega (arith, m)) (omega (arith, below, f)) p
                  (holds-before i mid o sorted m (omega arith) h l) h)
          | after k l n ↦
              let beyond = holds-after i mid sorted m h k n in
              rw (e, search, k, l, n)
                (search-finds fuel (mid + 1) bound i o sorted b (omega (arith, above, f))
                  (omega (arith, beyond)) q h)
        ]
  ]

-- In a table whose segments are in order and apart from one another, the search returns the region of
-- the segment that holds the address.
pub ip_search-finds :
    (ips : List Segment) (sip : Bytes) (i : ℕ)
    → IsOrdered ips
    → IsSorted ips
    → i < length ips
    → holds (segment_at ips i) sip ≡ true
    → ip_search ips sip ≡ some (segment_at ips i).v
unfolding ip_search
ip_search-finds ips sip i o sorted l h =
    search-finds ips sip _ 0 (length ips) i o sorted (omega arith) (omega arith) (omega arith) l h

-- If no segment ends before it starts, the search ends, and it returns nothing or the region of a
-- segment that holds the address.
pub ip_search-IsAnswer :
    (ips : List Segment) (sip : Bytes)
    → IsOrdered ips
    → (r : Bytes) × (ip_search ips sip ≡ some r) × IsAnswer ips sip r
unfolding ip_search
ip_search-IsAnswer ips sip o =
    search-IsAnswer ips sip _ 0 (length ips) o (omega arith) (omega arith)

-- A table of one segment that starts at the address and ends before it makes the loop run for ever: no
-- fuel is enough.
pub search_never_ends :
    (ip : Segment) (sip : Bytes) (fuel : ℕ)
    → str_lt sip ip.s ≡ false
    → str_lt ip.s sip ≡ false
    → str_lt ip.e sip ≡ true
    → search (ip ∷ []) sip fuel 0 1 ≡ none
unfolding search holds
search_never_ends ip sip zero h k l = refl
search_never_ends ip sip (suc fuel) h k l =
    rw (search, h, l, h, k) (search_never_ends ip sip fuel h k l)
