-- ===== src/Order/Windows/Cover.antt =====
-- Which windows the loop over a period requests.
use report_api.Prelude.{
  ℕ, zero, suc, ◌≤◌, ◌<◌, ◌≡◌, refl, ◌∙◌, true, false, Option, none, some, List, [], ◌∷◌, ◌++◌, ◌⊎◌,
  inl, inr, arith, Bool-cases, ltb-true, ltb-false,
}
use report_api.Prelude.Int.{ℤ, pos, ◌+ℤ◌, ltb_ℤ, ◌<ℤ◌, ◌≤ℤ◌, distance, parts-+ℤ}
use report_api.Go.Result.{Result, ok, err, panic}
use report_api.Order.Windows.{window_end, by_window}

-- Windows that follow one another from a start to an end: none is empty, none is wider than allowed,
-- and each but the last is as wide as allowed.
pub data IsCover (width : ℕ) (end : ℤ) : ℤ → List (ℤ × ℤ) → Type 0 where
  done : {current : ℤ} → end ≤ℤ current → IsCover width end current []
  next :
      {current until : ℤ} {windows : List (ℤ × ℤ)}
      → current <ℤ until
      → until ≤ℤ end
      → until ≤ℤ (current +ℤ pos width)
      → (until ≡ (current +ℤ pos width)) ⊎ (until ≡ end)
      → IsCover width end until windows
      → IsCover width end current ((current, until) ∷ windows)

module _ {S O : Type 0} (fetch : ℤ → ℤ → S → Option (Result (List O) × S)) where
  -- One request for each window, until one fails; `none` where one does not return.
  abbrev pub fetch_each : List (ℤ × ℤ) → List O → S → Option (Result (List O) × S)
  fetch_each [] orders s = some (ok orders, s)
  fetch_each (w ∷ windows) orders s = elim (fetch w.0 w.1 s) [
    | none ↦ none
    | some (ok new, s') ↦ fetch_each windows (orders ++ new) s'
    | some (err e, s') ↦ some (err e, s')
    | some (panic p, s') ↦ some (panic p, s')
  ]

  -- It returns.
  abbrev pub IsReturning : Type 0
  IsReturning =
      (current until : ℤ) (s : S) → (out : Result (List O) × S) × (fetch current until s ≡ some out)

  fetch_each-returns :
      (ws : List (ℤ × ℤ)) (orders : List O) (s : S)
      → IsReturning
      → (out : Result (List O) × S) × (fetch_each ws orders s ≡ some out)
  fetch_each-returns [] orders s h = ((ok orders, s), refl)
  fetch_each-returns (w ∷ ws) orders s h =
      go (λ more s'. fetch_each-returns ws more s' h) (h w.0 w.1 s).0 (h w.0 w.1 s).1
    where
      go :
          ((more : List O) (s' : S)
            → (out : Result (List O) × S) × (fetch_each ws more s' ≡ some out))
          → (out : Result (List O) × S) → fetch w.0 w.1 s ≡ some out
          → (out' : Result (List O) × S) × (fetch_each (w ∷ ws) orders s ≡ some out')
      go rest (ok new, s') e = let (out, r) = rest (orders ++ new) s' in (out, rw (e, fetch_each) r)
      go rest (err x, s') e = ((err x, s'), rw (e, fetch_each))
      go rest (panic p, s') e = ((panic p, s'), rw (e, fetch_each))

window_end-next :
    (width : ℕ) (current end : ℤ)
    → 0 < width
    → current <ℤ end
    → let until = window_end width current end in
      (current <ℤ until)
      × (until ≤ℤ end)
      × (until ≤ℤ (current +ℤ pos width))
      × ((until ≡ (current +ℤ pos width)) ⊎ (until ≡ end))
unfolding window_end
window_end-next width current end w h =
    let sum = parts-+ℤ current (pos width) in
    elim (Bool-cases (ltb_ℤ end (current +ℤ pos width))) [
      | inl e ↦
          let earlier = ltb-true _ _ e in rw e (h, omega arith, omega (arith, earlier), inr refl)
      | inr e ↦
          let later = ltb-false _ _ e in
          rw e (omega (arith, sum), omega (arith, later), omega arith, inl refl)
    ]

unfoldable windows : ℕ → ℕ → ℤ → ℤ → List (ℤ × ℤ)
windows width zero current end = []
windows width (suc fuel) current end = elim (ltb_ℤ current end) [
  | false ↦ []
  | true ↦
      let until = window_end width current end in (current, until) ∷ windows width fuel until end
]

windows-IsCover :
    (width fuel : ℕ) (current end : ℤ)
    → 0 < width
    → distance current end ≤ fuel
    → IsCover width end current (windows width fuel current end)
unfolding windows
windows-IsCover width zero current end w h = done (omega arith)
windows-IsCover width (suc fuel) current end w h = elim (Bool-cases (ltb_ℤ current end)) [
  | inr e ↦ rw (e, windows) (done (ltb-false _ _ e))
  | inl e ↦
      let (later, inside, narrow, full) = window_end-next width current end w (ltb-true _ _ e) in
      rw (e, windows)
        (next later inside narrow full
          (windows-IsCover width fuel _ end w (omega (arith, later, inside, h))))
]

module _ {S O : Type 0} (fetch : ℤ → ℤ → S → Option (Result (List O) × S)) where
  by_window-windows :
      (width fuel : ℕ) (current end : ℤ) (orders : List O) (s : S)
      → 0 < width
      → distance current end ≤ fuel
      → by_window fetch width fuel current end orders s
        ≡ fetch_each fetch (windows width fuel current end) orders s
  unfolding by_window windows
  by_window-windows width zero current end orders s w h = elim (Bool-cases (ltb_ℤ current end)) [
    | inl e ↦ absurd (omega (arith, ltb-true _ _ e, h))
    | inr e ↦ rw e
  ]
  by_window-windows width (suc fuel) current end orders s w h =
      elim (Bool-cases (ltb_ℤ current end)) [
        | inr e ↦ rw (e, by_window, windows)
        | inl e ↦
            let until = window_end width current end in
            let (later, inside, _, _) = window_end-next width current end w (ltb-true _ _ e) in
            rw (e, by_window, windows)
              (after until
                (λ more s'.
                  by_window-windows width fuel until end more s' w
                    (omega (arith, later, inside, h)))
                (fetch current until s))
      ]
    where
      after :
          (until : ℤ)
          → ((more : List O) (s' : S)
              → by_window fetch width fuel until end more s'
                ≡ fetch_each fetch (windows width fuel until end) more s')
          → (r : Option (Result (List O) × S))
          → Path
              (Option (Result (List O) × S))
              (elim r [
                | none ↦ none
                | some (ok new, s') ↦ by_window fetch width fuel until end (orders ++ new) s'
                | some (err e, s') ↦ some (err e, s')
                | some (panic p, s') ↦ some (panic p, s')
              ])
              (elim r [
                | none ↦ none
                | some (ok new, s') ↦
                    fetch_each fetch (windows width fuel until end) (orders ++ new) s'
                | some (err e, s') ↦ some (err e, s')
                | some (panic p, s') ↦ some (panic p, s')
              ])
      after until rest none = refl
      after until rest (some (ok new, s')) = rest (orders ++ new) s'
      after until rest (some (err e, s')) = refl
      after until rest (some (panic p, s')) = refl

  -- With a positive width, fuel for the distance and requests that return, the loop ends, and it has made
  -- one request for each of the windows that cover the period, in order, up to the first that fails.
  pub by_window-IsCover :
      (width fuel : ℕ) (start end : ℤ) (s : S)
      → 0 < width
      → distance start end ≤ fuel
      → IsReturning fetch
      → (ws : List (ℤ × ℤ)) × (out : Result (List O) × S) × IsCover width end start ws
        × (by_window fetch width fuel start end [] s ≡ some out)
        × (fetch_each fetch ws [] s ≡ some out)
  by_window-IsCover width fuel start end s w h r =
      let ws = windows width fuel start end in
      let (out, each) = fetch_each-returns fetch ws [] s r in
      (
        ws,
        out,
        windows-IsCover width fuel start end w h,
        by_window-windows width fuel start end [] s w h ∙ each,
        each,
      )
