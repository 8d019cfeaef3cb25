-- ===== src/Common/Shards/Shown.antt =====
-- A store that the sharded servers show, and what one command does to both.
use report_api.Prelude.{
  ℕ, zero, suc, ◌<◌, ◌≡◌, ◌≢◌, refl, ap, sym, ◌∙◌, false, some, List, [], ◌∷◌, length, get_elem?,
  Bool-cases, inl, inr, ==_iff, ◌==◌, arith,
}
use report_api.Go.Result.{ok}
use report_api.Go.Returns.{Returns}
use report_api.Go.Text.{Str, str_eq, str_eq→eq}
use report_api.Common.Shards.{
  Command, key_of, Server, Pool, shard, getkey, set_at, changed, served, do_at, do_shard,
}

module _ {ℓ} {A : Type ℓ} where
  get_elem?-set_at_self :
      (xs : List A) (i : ℕ) (x y : A)
      → get_elem? xs i ≡ some x
      → get_elem? (set_at xs i y) i ≡ some y
  unfolding set_at
  get_elem?-set_at_self [] i x y h = cc
  get_elem?-set_at_self (z ∷ xs) zero x y h = refl
  get_elem?-set_at_self (z ∷ xs) (suc i) x y h = get_elem?-set_at_self xs i x y h

  get_elem?-set_at_other :
      (xs : List A) (i j : ℕ) (y : A) → i ≢ j → get_elem? (set_at xs i y) j ≡ get_elem? xs j
  unfolding set_at
  get_elem?-set_at_other [] i j y h = refl
  get_elem?-set_at_other (z ∷ xs) zero zero y h = absurd (h refl)
  get_elem?-set_at_other (z ∷ xs) zero (suc j) y h = refl
  get_elem?-set_at_other (z ∷ xs) (suc i) zero y h = refl
  get_elem?-set_at_other (z ∷ xs) (suc i) (suc j) y h =
      get_elem?-set_at_other xs i j y (λ e. h (omega (arith, e)))

getkey-ok :
    (crc32 : Str → ℕ) (ip_ports : List Str) (key : Str)
    → 0 < length ip_ports
    → getkey crc32 ip_ports key ≡ ok (shard crc32 ip_ports key)
unfolding getkey
getkey-ok crc32 [] key h = absurd (omega (arith, h))
getkey-ok crc32 (x ∷ xs) key h = refl

changed-same :
    {V : Type 0} (server store : Server V) (key k : Str) (value : V)
    → server k ≡ store k
    → changed server key value k ≡ changed store key value k
unfolding changed
changed-same server store key k value h = rw h

changed-other :
    {V : Type 0} (store : Server V) (key k : Str) (value : V)
    → str_eq k key ≡ false
    → changed store key value k ≡ store k
unfolding changed
changed-other store key k value h = rw h

module _ {V : Type 0} (crc32 : Str → ℕ) where
  -- Every key has on its server the value that the store has.
  abbrev pub Shows : Pool V → Server V → Type 0
  Shows r store =
      (key : Str)
      → (server : Server V) × (get_elem? r.ms_pool (shard crc32 r.ip_ports key)
          ≡ some (some server))
        × (server key ≡ store key)

  abbrev pub with_server : Pool V → Str → Server V → Pool V
  with_server r key server = record {
    ms_pool = set_at r.ms_pool (shard crc32 r.ip_ports key) (some server);
    ip_ports = r.ip_ports;
  }

  -- Changing a key on its server keeps every key shown.
  pub changed-Shows :
      (r : Pool V) (store server : Server V) (key : Str) (value : V)
      → Shows r store
      → get_elem? r.ms_pool (shard crc32 r.ip_ports key) ≡ some (some server)
      → Shows (with_server r key (changed server key value)) (changed store key value)
  changed-Shows r store server key value shows at_k k =
      let (held, at_j, same) = shows k in
      elim (Bool-cases (shard crc32 r.ip_ports key == shard crc32 r.ip_ports k)) [
        | inl e ↦
            let index = (==_iff (shard crc32 r.ip_ports key) (shard crc32 r.ip_ports k)).0 e in
            let one : some (some server) ≡ some (some held) = sym at_k ∙ rw index at_j in
            (
              changed server key value,
              rw (sym index) (
                  get_elem?-set_at_self r.ms_pool (shard crc32 r.ip_ports key) (some server)
                    (some (changed server key value)) at_k),
              changed-same server store key k value (cc),
            )
        | inr e ↦
            let apart : str_eq k key ≡ false = elim (Bool-cases (str_eq k key)) [
              | inr f ↦ f
              | inl f ↦ absurd (ground (arith, ap (shard crc32 r.ip_ports) (str_eq→eq k key f)))
            ] in
            (
              held,
              get_elem?-set_at_other r.ms_pool (shard crc32 r.ip_ports key)
                    (shard crc32 r.ip_ports k) (some (changed server key value)) (λ i. ground arith)
                  ∙ at_j,
              same ∙ sym (changed-other store key k value apart),
            )
      ]

-- A command is sent to the server of its key, and to no other.
pub do_shard-sent :
    {R V : Type 0} (crc32 : Str → ℕ) (exec : Command → V → Returns R × V) (c : Command) (r : Pool V)
    (server : Server V) (value : V)
    → 0 < length r.ip_ports
    → get_elem? r.ms_pool (shard crc32 r.ip_ports (key_of c)) ≡ some (some server)
    → server (key_of c) ≡ value
    → do_shard exec crc32 c r
      ≡ ok (
        some (exec c value).0,
        with_server crc32 r (key_of c) (changed server (key_of c) (exec c value).1),
      )
unfolding do_shard do_at served
do_shard-sent crc32 exec c r server value h at_k same =
    rw (getkey-ok crc32 r.ip_ports (key_of c) h, at_k, same)
