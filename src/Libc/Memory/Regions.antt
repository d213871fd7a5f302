-- ===== src/Libc/Memory/Regions.antt =====
-- Regions moved and filled in parts.
use rhkernel.Prelude.{ℕ, ◌+◌, ◌≤◌, ◌≡◌, ◌⊎◌, fun_ext, arith}
use rhkernel.Libc.Memory.{Memory, move, fill}

-- A copy from the lowest byte up reads no byte that it has written.
abbrev pub Forward : ℕ → ℕ → ℕ → Type 0
Forward d s n = (d ≤ s) ⊎ (s + n ≤ d)

pub move-zero : (d s : ℕ) (m : Memory) → move 0 d s m ≡ m
unfolding move
move-zero d s m = fun_ext λ a. ground arith

pub move-add_up :
    (a b d s : ℕ) (m : Memory)
    → Forward d s (a + b)
    → move b (d + a) (s + a) (move a d s m) ≡ move (a + b) d s m
unfolding move
move-add_up a b d s m h = fun_ext λ x. ground arith

pub move-add_down :
    (a b d s : ℕ) (m : Memory) → s ≤ d → move a d s (move b (d + a) (s + a) m) ≡ move (a + b) d s m
unfolding move
move-add_down a b d s m h = fun_ext λ x. ground arith

pub fill-zero : (d c : ℕ) (m : Memory) → fill 0 d c m ≡ m
unfolding fill
fill-zero d c m = fun_ext λ a. ground arith

pub fill-add : (a b d c : ℕ) (m : Memory) → fill b (d + a) c (fill a d c m) ≡ fill (a + b) d c m
unfolding fill
fill-add a b d c m = fun_ext λ x. ground arith

pub move_eq : {n k d e s t : ℕ} (m : Memory) → n ≡ k → d ≡ e → s ≡ t → move n d s m ≡ move k e t m
move_eq m p q r = cc

pub fill_eq : {n k d e : ℕ} (c : ℕ) (m : Memory) → n ≡ k → d ≡ e → fill n d c m ≡ fill k e c m
fill_eq c m p q = cc
