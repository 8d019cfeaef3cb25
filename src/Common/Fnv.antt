-- ===== src/Common/Fnv.antt =====
-- The hashes FNV-1a of core/fnv.go.
use Prim.Native.Nat.{bit_xor}
use report_api.Prelude.{ℕ, ◌*◌, ◌%◌, ◌^◌, ◌<◌, ◌≡◌, refl, [], ◌∷◌, arith}
use report_api.Go.Text.{Bytes, codes}

abbrev offset64 : ℕ
offset64 = 14695981039346656037

abbrev prime64 : ℕ
prime64 = 1099511628211

abbrev offset32 : ℕ
offset32 = 2166136261

abbrev prime32 : ℕ
prime32 = 16777619

-- The loop of Sum64 from a hash on.
unfoldable pub hashed64 : ℕ → Bytes → ℕ
hashed64 hash [] = hash
hashed64 hash (b ∷ key) = hashed64 (bit_xor hash b * prime64 % 2 ^ 64) key

unfoldable pub sum64 : Bytes → ℕ
unfolding hashed64
sum64 key = hashed64 offset64 key

-- The loop of Sum32 from a hash on.
unfoldable pub hashed32 : ℕ → Bytes → ℕ
hashed32 hash [] = hash
hashed32 hash (b ∷ key) = hashed32 (bit_xor hash b * prime32 % 2 ^ 32) key

unfoldable pub sum32 : Bytes → ℕ
unfolding hashed32
sum32 key = hashed32 offset32 key

hashed64-bounded : (hash : ℕ) (key : Bytes) → hash < 2 ^ 64 → hashed64 hash key < 2 ^ 64
unfolding hashed64
hashed64-bounded hash [] h = h
hashed64-bounded hash (b ∷ key) h =
    hashed64-bounded (bit_xor hash b * prime64 % 2 ^ 64) key (omega arith)

hashed32-bounded : (hash : ℕ) (key : Bytes) → hash < 2 ^ 32 → hashed32 hash key < 2 ^ 32
unfolding hashed32
hashed32-bounded hash [] h = h
hashed32-bounded hash (b ∷ key) h =
    hashed32-bounded (bit_xor hash b * prime32 % 2 ^ 32) key (omega arith)

-- The hashes are words of 64 and of 32 bits.
pub sums-bounded : (key : Bytes) → (sum64 key < 2 ^ 64) × (sum32 key < 2 ^ 32)
unfolding sum64 sum32
sums-bounded key =
    (hashed64-bounded offset64 key (omega arith), hashed32-bounded offset32 key (omega arith))

-- The published hashes of "a" and "foobar".
fnv_runs :
    (sum64 (codes "a") ≡ 0xaf63dc4c8601ec8c)
    × (sum64 (codes "foobar") ≡ 0x85944171f73967e8)
    × (sum32 (codes "a") ≡ 0xe40c292c)
unfolding sum64 sum32
fnv_runs = (refl, refl, refl)
