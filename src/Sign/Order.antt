-- ===== src/Sign/Order.antt =====
-- A signature depends on the map of parameters, not on the order in which a loop meets them.
use mathlib.Core.List.{Permᴰ}
use report_api.Prelude.{
  ◌≡◌, refl, subst, ap, ◌∙◌, false, List, [], ◌∷◌, map, All, arith, if◌then◌else◌,
}
use report_api.Go.Text.{Str, str_eq, str_eq_iff, str_lt}
use report_api.Go.Sort.{sort}
use report_api.Go.Sort.Rearranged.{sort-Permᴰ}
use report_api.Sign.{
  Params, value_of, spelled, sign_str, generate_jd_sign, generate_jd_sh_sign, generate_sign,
}

abbrev IsNot : Str → Str × Str → Type 0
IsNot k p = str_eq k p.0 ≡ false

-- No two parameters have the same name.
abbrev pub IsMap : Params → Type 0
IsMap [] = Unit
IsMap (p ∷ params) = All (λ (q : Str × Str). str_eq p.0 q.0 ≡ false) params × IsMap params

All-Permᴰ : (P : Str × Str → Type 0) {xs ys : Params} → Permᴰ xs ys → All P xs → All P ys
All-Permᴰ P Permᴰ.nil h = h
All-Permᴰ P (Permᴰ.cons e p) (h, hs) = (rw (← e) h, All-Permᴰ P p hs)
All-Permᴰ P (Permᴰ.swap e f) (h, (k, hs)) = (rw (← f) k, (rw (← e) h, hs))
All-Permᴰ P (Permᴰ.trans p q) h = All-Permᴰ P q (All-Permᴰ P p h)

str_eq_swap : (k j : Str) → str_eq k j ≡ false → str_eq j k ≡ false
str_eq_swap k j h = ground (arith, str_eq_iff k j, str_eq_iff j k)

swapped : {a b a' b' : Str × Str} {l : Params} → a ≡ b' → b ≡ a' → b ∷ a ∷ l ≡ a' ∷ b' ∷ l
swapped e f = cc

pub IsMap-Permᴰ : {xs ys : Params} → Permᴰ xs ys → IsMap xs → IsMap ys
IsMap-Permᴰ Permᴰ.nil m = m
IsMap-Permᴰ (Permᴰ.cons e p) (h, m) = (rw (← e) (All-Permᴰ _ p h), IsMap-Permᴰ p m)
IsMap-Permᴰ (Permᴰ.swap {a} {b} {a'} {b'} {l} e f) ((h, hs), (k, m)) =
    subst IsMap (swapped e f) ((str_eq_swap a.0 b.0 h, k), (hs, m))
IsMap-Permᴰ (Permᴰ.trans p q) m = IsMap-Permᴰ q (IsMap-Permᴰ p m)

value_of-Permᴰ :
    {xs ys : Params} → Permᴰ xs ys → IsMap xs → (k : Str) → value_of k xs ≡ value_of k ys
unfolding value_of
value_of-Permᴰ Permᴰ.nil m k = refl
value_of-Permᴰ (Permᴰ.cons {b} e p) (h, m) k =
    rw e (ap (λ v. if str_eq b.0 k then b.1 else v) (value_of-Permᴰ p m k))
value_of-Permᴰ (Permᴰ.swap {a} {b} e f) ((h, hs), _) k =
    rw (← e, ← f) (ground (arith, h, str_eq_iff a.0 k, str_eq_iff b.0 k, str_eq_iff a.0 b.0))
value_of-Permᴰ (Permᴰ.trans p q) m k = value_of-Permᴰ p m k ∙ value_of-Permᴰ q (IsMap-Permᴰ p m) k

spelled-same :
    (xs ys : Params) (keys : List Str)
    → ((k : Str) → value_of k xs ≡ value_of k ys)
    → spelled xs keys ≡ spelled ys keys
unfolding spelled
spelled-same xs ys [] h = refl
spelled-same xs ys (k ∷ keys) h = rw (h k, spelled-same xs ys keys h)

names-Permᴰ : {xs ys : Params} → Permᴰ xs ys → Permᴰ (map (λ p. p.0) xs) (map (λ p. p.0) ys)
names-Permᴰ Permᴰ.nil = Permᴰ.nil
names-Permᴰ (Permᴰ.cons e p) = Permᴰ.cons (ap (λ q. q.0) e) (names-Permᴰ p)
names-Permᴰ (Permᴰ.swap e f) = Permᴰ.swap (ap (λ q. q.0) e) (ap (λ q. q.0) f)
names-Permᴰ (Permᴰ.trans p q) = Permᴰ.trans (names-Permᴰ p) (names-Permᴰ q)

sign_str-Permᴰ : {xs ys : Params} → Permᴰ xs ys → IsMap xs → sign_str xs ≡ sign_str ys
unfolding sign_str
sign_str-Permᴰ {xs} {ys} p m =
    spelled-same xs ys (sort str_lt (map (λ p. p.0) xs)) (value_of-Permᴰ p m)
    ∙ ap (spelled ys) (sort-Permᴰ (names-Permᴰ p))

-- All three signatures are the same for every order of the same parameters.
pub generate_sign-Permᴰ :
    {xs ys : Params} (secret : Str)
    → Permᴰ xs ys
    → IsMap xs
    → (generate_jd_sign xs secret ≡ generate_jd_sign ys secret)
      × (generate_jd_sh_sign xs secret ≡ generate_jd_sh_sign ys secret)
      × (generate_sign xs secret ≡ generate_sign ys secret)
unfolding generate_jd_sign generate_jd_sh_sign generate_sign
generate_sign-Permᴰ {xs} {ys} secret p m =
    let same = sign_str-Permᴰ p m in (rw same, rw same, rw same)
