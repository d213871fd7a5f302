-- ===== src/Tmpfs/Account.antt =====
-- `account` and `unaccount`, and the mount record that they keep.
use rhkernel.Prelude.{
  ℕ, ◌+◌, ◌-◌, ◌%◌, ◌^◌, ◌≤◌, ◌<◌, ◌≡◌, Bool, true, ◌&&◌, ltb, if◌then◌else◌, Option, none, some,
  arith,
}

-- `struct tmpfs_mount` without its root pointer.
pub record Mount : Type 0 where
  pub limit : ℕ
  pub used : ℕ
  pub next_ino : ℕ
  pub enforce_limit : Bool
  pub default_mode : ℕ

abbrev pub u64 : ℕ → ℕ
u64 n = n % 2 ^ 64

-- `none` is the result -1.
unfoldable pub account : Mount → ℕ → Option Mount
account m add =
    if m.enforce_limit && ltb (u64 (m.limit + 2 ^ 64 - m.used)) add
    then none
    else some (record m { used = u64 (m.used + add) })

unfoldable pub unaccount : Mount → ℕ → Mount
unaccount m sub = record m { used = if ltb m.used sub then 0 else m.used - sub }

-- The counters are 64-bit numbers, and an enforced limit is kept.
pub record IsWithin (m : Mount) : Type 0 where
  pub limit_fits : m.limit < 2 ^ 64
  pub kept : m.enforce_limit ≡ true → m.used ≤ m.limit

pub account-IsWithin :
    (m n : Mount) (add : ℕ) → IsWithin m → add < 2 ^ 64 → account m add ≡ some n → IsWithin n
unfolding account
account-IsWithin m n add h fits e = ground arith

pub unaccount-IsWithin : (m : Mount) (sub : ℕ) → IsWithin m → IsWithin (unaccount m sub)
unfolding unaccount
unaccount-IsWithin m sub h = ground arith
