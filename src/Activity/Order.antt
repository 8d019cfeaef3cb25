-- ===== src/Activity/Order.antt =====
-- A request does not depend on the order in which a loop meets the map of its parameters.
use mathlib.Core.List.{Permᴰ}
use report_api.Prelude.{
  ◌≡◌, refl, sym, ap, ◌∙◌, Bool, true, false, List, [], ◌∷◌, ◌++◌, not, ◌&&◌, Bool-cases, inl, inr,
  append-nil, append_assoc, All, arith,
}
use report_api.Go.Text.{Str, Bytes, codes, utf8, str_eq, str_eq_iff, str_lt}
use report_api.Go.Text.Order.{str_lt_trans, str_lt_asym, str_le_antisym}
use report_api.Go.Sort.{insert, insert_all, sort}
use report_api.Go.Url.{Values, add, encode}
use report_api.Prelude.Int.{ℤ}
use report_api.Sign.{Params, generate_sign}
use report_api.Sign.Order.{IsMap, IsMap-Permᴰ, generate_sign-Permᴰ}
use report_api.Activity.{
  ActivityRequest, activity_params, add_all, build_url, in_bytes, activity_url,
}

abbrev by_name : Str × Bytes → Str × Bytes → Bool
by_name p q = str_lt p.0 q.0

insert_comm :
    (a b : Str × Bytes) (l : Values)
    → str_eq a.0 b.0 ≡ false
    → insert by_name a (insert by_name b l) ≡ insert by_name b (insert by_name a l)
unfolding insert
insert_comm a b [] h =
    ground (arith, h, str_lt_asym a.0 b.0, str_le_antisym a.0 b.0, str_eq_iff a.0 b.0)
insert_comm a b (x ∷ l) h = ground (
  arith,
  h,
  str_lt_asym a.0 b.0,
  str_le_antisym a.0 b.0,
  str_eq_iff a.0 b.0,
  str_lt_trans a.0 b.0 x.0,
  str_lt_trans b.0 a.0 x.0,
  insert_comm a b l h,
)

insert_all-Permᴰ :
    {xs ys : Values}
    → Permᴰ xs ys
    → IsMap xs
    → (sorted : Values) → insert_all by_name sorted xs ≡ insert_all by_name sorted ys
unfolding insert_all
insert_all-Permᴰ Permᴰ.nil m sorted = refl
insert_all-Permᴰ (Permᴰ.cons {b} {l₂} same p) (h, m) sorted =
    rw same (insert_all-Permᴰ p m (insert by_name b sorted))
insert_all-Permᴰ (Permᴰ.swap {a} {b} {l} e f) ((h, hs), _) sorted =
    rw (← e, ← f) (ap (λ start. insert_all by_name start l) (sym (insert_comm a b sorted h)))
insert_all-Permᴰ (Permᴰ.trans p q) m sorted =
    insert_all-Permᴰ p m sorted ∙ insert_all-Permᴰ q (IsMap-Permᴰ p m) sorted

encode-Permᴰ : {xs ys : Values} → Permᴰ xs ys → IsMap xs → encode xs ≡ encode ys
unfolding encode sort
encode-Permᴰ p m = rw (insert_all-Permᴰ p m [])

add_all-append :
    (values : Values) (params : List (Str × Bytes)) → add_all values params ≡ values ++ params
unfolding add_all add
add_all-append values [] = sym (append-nil values)
add_all-append values ((k, v) ∷ params) =
    add_all-append (add values k v) params ∙ append_assoc values _ params

in_bytes-Permᴰ : {xs ys : Params} → Permᴰ xs ys → Permᴰ (in_bytes xs) (in_bytes ys)
unfolding in_bytes
in_bytes-Permᴰ Permᴰ.nil = Permᴰ.nil
in_bytes-Permᴰ (Permᴰ.cons e p) = Permᴰ.cons (ap (λ q. (q.0, utf8 q.1)) e) (in_bytes-Permᴰ p)
in_bytes-Permᴰ (Permᴰ.swap e f) =
    Permᴰ.swap (ap (λ q. (q.0, utf8 q.1)) e) (ap (λ q. (q.0, utf8 q.1)) f)
in_bytes-Permᴰ (Permᴰ.trans p q) = Permᴰ.trans (in_bytes-Permᴰ p) (in_bytes-Permᴰ q)

snoc-Permᴰ : {xs ys : Values} (p : Str × Bytes) → Permᴰ xs ys → Permᴰ (xs ++ p ∷ []) (ys ++ p ∷ [])
snoc-Permᴰ p Permᴰ.nil = Permᴰ.cons refl Permᴰ.nil
snoc-Permᴰ p (Permᴰ.cons e q) = Permᴰ.cons e (snoc-Permᴰ p q)
snoc-Permᴰ p (Permᴰ.swap e f) = Permᴰ.swap e f
snoc-Permᴰ p (Permᴰ.trans q r) = Permᴰ.trans (snoc-Permᴰ p q) (snoc-Permᴰ p r)

-- The names of the parameters, compared by computation.
abbrev is_absent : Str → Params → Bool
is_absent k [] = true
is_absent k (p ∷ params) = not (str_eq k p.0) && is_absent k params

abbrev all_differ : Params → Bool
all_differ [] = true
all_differ (p ∷ params) = is_absent p.0 params && all_differ params

is_absent-All :
    (k : Str) (params : Params)
    → is_absent k params ≡ true
    → All (λ (q : Str × Str). str_eq k q.0 ≡ false) params
is_absent-All k [] h = tt
is_absent-All k (p ∷ params) h = (ground (arith, h), is_absent-All k params (ground (arith, h)))

all_differ-IsMap : (params : Params) → all_differ params ≡ true → IsMap params
all_differ-IsMap [] h = tt
all_differ-IsMap (p ∷ params) h =
    (is_absent-All p.0 params (ground (arith, h)), all_differ-IsMap params (ground (arith, h)))

-- The signature's name is new.
IsMap-snoc :
    (params : Params) (k : Str) (v : Bytes)
    → IsMap params
    → All (λ (q : Str × Str). str_eq q.0 k ≡ false) params
    → IsMap (in_bytes params ++ (k, v) ∷ [])
unfolding in_bytes
IsMap-snoc [] k v m h = (tt, tt)
IsMap-snoc (p ∷ params) k v (differ, m) (h, hs) =
    (All-snoc p.0 params differ h, IsMap-snoc params k v m hs)
  where
    All-snoc :
        (j : Str) (params : Params)
        → All (λ (q : Str × Str). str_eq j q.0 ≡ false) params
        → str_eq j k ≡ false
        → All (λ (q : Str × Str). str_eq j q.0 ≡ false) (in_bytes params ++ (k, v) ∷ [])
    All-snoc j [] h e = (e, tt)
    All-snoc j (p ∷ params) (h, hs) e = (h, All-snoc j params hs e)

abbrev not_signed : Params → Bool
not_signed [] = true
not_signed (p ∷ params) = not (str_eq p.0 (codes "sign")) && not_signed params

not_signed-All :
    (params : Params)
    → not_signed params ≡ true
    → All (λ (q : Str × Str). str_eq q.0 (codes "sign") ≡ false) params
not_signed-All [] h = tt
not_signed-All (p ∷ params) h = (ground (arith, h), not_signed-All params (ground (arith, h)))

activity_params-names :
    (decimal : ℤ → Str) (app_key timestamp : Str) (req : ActivityRequest)
    → let params = activity_params decimal app_key timestamp req in
      (all_differ params ≡ true) × (not_signed params ≡ true)
unfolding activity_params str_eq
activity_params-names decimal app_key timestamp req = elim (Bool-cases (str_eq req.pid [])) [
  | inl e ↦ (rw e, rw e)
  | inr e ↦ (rw e, rw e)
]

-- The URL of a query, its signature included, is the same in whatever order the loops meet the map of
-- its parameters.
pub activity_url-Permᴰ :
    (decimal : ℤ → Str) (app_key timestamp secret : Str) (req : ActivityRequest) {ys : Params}
    → Permᴰ (activity_params decimal app_key timestamp req) ys
    → activity_url (activity_params decimal app_key timestamp req) secret ≡ activity_url ys secret
unfolding activity_url build_url
activity_url-Permᴰ decimal app_key timestamp secret req {ys} p =
    let (differ, unsigned) = activity_params-names decimal app_key timestamp req in
    let params = activity_params decimal app_key timestamp req in
    let m = all_differ-IsMap params differ in
    let (_, _, same) = generate_sign-Permᴰ secret p m in
    rw (
      ← same,
      add_all-append [] (in_bytes params ++ (codes "sign", generate_sign params secret) ∷ []),
      add_all-append [] (in_bytes ys ++ (codes "sign", generate_sign params secret) ∷ []),
      encode-Permᴰ (snoc-Permᴰ (codes "sign", generate_sign params secret) (in_bytes-Permᴰ p)) (
          IsMap-snoc params (codes "sign") (generate_sign params secret) m
            (not_signed-All params unsigned)),
    )
