-- ===== src/Order/Pages/Loop.antt =====
-- What the loop over pages fetches, and that it ends.
use report_api.Prelude.{
  ℕ, zero, suc, ◌+◌, ◌≤◌, ◌<◌, ◌≡◌, refl, sym, ap, ◌∙◌, true, false, Bool, Option, some, List, [],
  ◌∷◌, ◌++◌, inl, inr, length, append_assoc, append-nil, arith, Bool-cases,
}
use report_api.Go.Result.{Result, ok, err, panic}
use report_api.Callback.Http.{Log}
use report_api.Order.Pages.{fetch_pages}

abbrev pub concat {ℓ} : {A : Type ℓ} → List (List A) → List A
concat [] = []
concat (p ∷ pages) = p ++ concat pages

module _ {O N : Type 0} (fetch : ℕ → N → Log → Result (List O × N) × Log)
    (is_last : ℕ → List O → N → Bool) where
  -- Pages fetched one after the other, each from what the page before it named, the last of
  -- them where the loop stops.
  pub data IsPaged : ℕ → N → Log → List (List O) → Log → Type 0 where
    final :
        {page_no : ℕ} {from next : N} {log log' : Log} {new : List O}
        → fetch page_no from log ≡ (ok (new, next), log')
        → is_last page_no new next ≡ true
        → IsPaged page_no from log (new ∷ []) log'
    more :
        {page_no : ℕ} {from next : N} {log log' log'' : Log} {new : List O} {pages : List (List O)}
        → fetch page_no from log ≡ (ok (new, next), log')
        → is_last page_no new next ≡ false
        → IsPaged (page_no + 1) next log' pages log''
        → IsPaged page_no from log (new ∷ pages) log''

  some_ok-injective :
      {os ps : List O} {log log' : Log}
      → Path (Option (Result (List O) × Log)) (some (ok os, log)) (some (ok ps, log'))
      → (log ≡ log') × (os ≡ ps)
  some_ok-injective h = (cc, cc)

  unfoldable after_page :
      ℕ → ℕ → List O → Result (List O × N) → Log → Option (Result (List O) × Log)
  after_page fuel page_no orders (err e) log = some (err e, log)
  after_page fuel page_no orders (panic p) log = some (panic p, log)
  after_page fuel page_no orders (ok (new, next)) log = elim (is_last page_no new next) [
    | true ↦ some (ok (orders ++ new), log)
    | false ↦ fetch_pages fetch is_last fuel (page_no + 1) next (orders ++ new) log
  ]

  fetch_pages-step :
      (fuel page_no : ℕ) (from : N) (orders : List O) (log : Log)
      → fetch_pages fetch is_last (suc fuel) page_no from orders log
        ≡ after_page fuel page_no orders (fetch page_no from log).0 (fetch page_no from log).1
  unfolding fetch_pages after_page
  fetch_pages-step fuel page_no from orders log =
      go (fetch page_no from log).0 (fetch page_no from log).1
    where
      go :
          (r : Result (List O × N)) (log' : Log)
          → Path
              (Option (Result (List O) × Log))
              (elim r [
                | err e ↦ some (err e, log')
                | panic p ↦ some (panic p, log')
                | ok (new, next) ↦ elim (is_last page_no new next) [
                  | true ↦ some (ok (orders ++ new), log')
                  | false ↦ fetch_pages fetch is_last fuel (page_no + 1) next (orders ++ new) log'
                ]
              ])
              (after_page fuel page_no orders r log')
      go (err e) log' = refl
      go (panic p) log' = refl
      go (ok (new, next)) log' = refl

  -- A run that succeeds has fetched pages.
  abbrev pub Fetched : ℕ → N → List O → Log → List O → Log → Type 0
  Fetched page_no from orders log all log'' =
      (pages : List (List O)) × IsPaged page_no from log pages log''
      × (all ≡ orders ++ concat pages)

  pub fetch_pages-Fetched :
      (fuel page_no : ℕ) (from : N) (orders : List O) (log : Log) {all : List O} {log'' : Log}
      → fetch_pages fetch is_last fuel page_no from orders log ≡ some (ok all, log'')
      → Fetched page_no from orders log all log''
  unfolding fetch_pages after_page
  fetch_pages-Fetched zero page_no from orders log h = cc
  fetch_pages-Fetched (suc fuel) page_no from orders log {all} {log''} h =
      after (fetch page_no from log).0 _ refl
        (rw (fetch_pages-step fuel page_no from orders log) at h)
        (λ next sofar log'. fetch_pages-Fetched fuel (page_no + 1) next sofar log')
    where
      after :
          (r : Result (List O × N)) (log' : Log)
          → fetch page_no from log ≡ (r, log')
          → after_page fuel page_no orders r log' ≡ some (ok all, log'')
          → ((next : N) (sofar : List O) (log' : Log)
              → fetch_pages fetch is_last fuel (page_no + 1) next sofar log' ≡ some (ok all, log'')
              → Fetched (page_no + 1) next sofar log' all log'')
          → Fetched page_no from orders log all log''
      after (err e) log' f h rest = cc
      after (panic p) log' f h rest = cc
      after (ok (new, next)) log' f h rest = elim (Bool-cases (is_last page_no new next)) [
        | inl e ↦
            let (logs, whole) = some_ok-injective (rw (e, after_page) at h) in
            (
              new ∷ [],
              final (rw (← logs) f) e,
              sym whole ∙ ap (λ os. orders ++ os) (sym (append-nil new)),
            )
        | inr e ↦
            let (pages, paged, whole) = rest next (orders ++ new) log' (rw (e, after_page) at h) in
            (new ∷ pages, more f e paged, whole ∙ append_assoc orders new (concat pages))
      ]

  -- What a run of the loop comes to, with at most `fuel` more requests.
  abbrev pub Ends : ℕ → Log → Option (Result (List O) × Log) → Type 0
  Ends fuel log run =
      (result : Result (List O)) × (log' : Log) × (run ≡ some (result, log'))
      × (length log' ≤ length log + fuel)

  -- Where each page is one request and the hundredth is the last.
  module _
      (counts : (page_no : ℕ) (from : N) (log : Log)
        → length (fetch page_no from log).1 ≡ length log + 1)
      (stops : (page_no : ℕ) (new : List O) (next : N)
        → is_last page_no new next ≡ false
        → page_no < 100) where
    after_page-Ends :
        (fuel page_no : ℕ) (orders : List O) (r : Result (List O × N)) (log log' : Log)
        → length log' ≡ length log + 1
        → page_no + suc fuel ≡ 101
        → ((next : N) (all : List O)
            → 0 < fuel
            → Ends fuel log' (fetch_pages fetch is_last fuel (page_no + 1) next all log'))
        → Ends (suc fuel) log (after_page fuel page_no orders r log')
    unfolding after_page
    after_page-Ends fuel page_no orders (err e) log log' l h rest =
        (err e, log', refl, omega (arith, l))
    after_page-Ends fuel page_no orders (panic p) log log' l h rest =
        (panic p, log', refl, omega (arith, l))
    after_page-Ends fuel page_no orders (ok (new, next)) log log' l h rest =
        elim (Bool-cases (is_last page_no new next)) [
          | inl e ↦ (ok (orders ++ new), log', rw (e, after_page), omega (arith, l))
          | inr e ↦
              let (result, log'', ran, bound) =
                rest next (orders ++ new) (omega (arith, h, stops page_no new next e)) in
              (result, log'', rw (e, after_page) ran, omega (arith, l, bound))
        ]

    pub fetch_pages-Ends :
        (fuel page_no : ℕ) (from : N) (orders : List O) (log : Log)
        → 0 < fuel
        → page_no + fuel ≡ 101
        → Ends fuel log (fetch_pages fetch is_last fuel page_no from orders log)
    fetch_pages-Ends zero page_no from orders log h e = absurd (omega arith)
    fetch_pages-Ends (suc fuel) page_no from orders log h e =
        rw (fetch_pages-step fuel page_no from orders log) (
          after_page-Ends fuel page_no orders _ log _ (counts page_no from log) e (λ next all left.
            fetch_pages-Ends fuel (page_no + 1) next all _ left (omega (arith, e))))
