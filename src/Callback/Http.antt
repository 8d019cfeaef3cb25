-- ===== src/Callback/Http.antt =====
-- One callback: a GET request whose status decides. What the remote server replies and what the clock
-- shows may depend on every request that was sent before.
use report_api.Prelude.{ℕ, Bool, false, ◌&&◌, Option, none, some, List, [], ◌∷◌, ◌++◌, ltb, leb}
use report_api.Go.Text.{Bytes}

-- The URLs requested so far.
abbrev pub Log : Type 0
Log = List Bytes

pub record Env : Type 0 where
  -- The status code of the reply, or `none` when `client.Get` returns an error.
  pub respond : Log → Bytes → Option ℕ
  -- `time.Now().UnixMilli()`.
  pub unix_milli : Log → ℕ

abbrev pub is_success : Option ℕ → Bool
is_success none = false
is_success (some status) = leb 200 status && ltb status 300

-- `client.Get(url)` and the check of the status code.
unfoldable pub get : Env → Bytes → Log → Bool × Log
get env url log = (is_success (env.respond log url), log ++ url ∷ [])
