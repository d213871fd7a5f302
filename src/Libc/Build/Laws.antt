-- ===== src/Libc/Build/Laws.antt =====
-- What the string copies leave in memory.
use rhkernel.Prelude.{
  ℕ, zero, suc, ◌+◌, ◌-◌, ◌^◌, ◌≤◌, ◌<◌, ◌≡◌, ◌≢◌, ◌⊎◌, refl, sym, ap, ap₂, subst, ◌∙◌, min, true,
  false, ltb, ◌==◌, List, [], ◌∷◌, ◌++◌, length, arith, Bool-cases, inl, inr,
}
use rhkernel.Libc.Memory.{Memory, move, fill, within}
use rhkernel.Libc.Memory.Regions.{move-zero, move-add_up, move_eq, fill-zero, fill_eq}
use rhkernel.Libc.Word.Laws.{IsBytes}
use rhkernel.Libc.Fill.Laws.{memset-fill}
use rhkernel.Libc.Text.{IsString}
use rhkernel.Libc.Text.Length.{strlen-length}
use rhkernel.Libc.Build.{
  copy_to_zero, strcpy, copy_at_most, pad, strncpy, strcat, end_text, strncat,
}

-- The `n` bytes at `p` and the `k` bytes at `q` have no byte in common.
abbrev pub Apart : ℕ → ℕ → ℕ → ℕ → Type 0
Apart p n q k = (p + n ≤ q) ⊎ (q + k ≤ p)

first_byte : (m k : Memory) (p q : ℕ) → k (q + 0) ≡ m (p + 0) → k q ≡ m p
first_byte m k p q e =
    let f : p + 0 ≡ p = omega arith in
    let g : q + 0 ≡ q = omega arith in subst (λ a. k a ≡ m p) g (subst (λ a. k (q + 0) ≡ m a) f e)

-- A string stands where its bytes are copied to.
IsString-moved :
    (m k : Memory) (xs : List ℕ) (p q : ℕ)
    → ((i : ℕ) → i ≤ length xs → k (q + i) ≡ m (p + i))
    → IsString m p xs
    → IsString k q xs
IsString-moved m k [] p q same h = first_byte m k p q (same 0 (omega arith)) ∙ h
IsString-moved m k (x ∷ xs) p q same h =
    let e : (i : ℕ) → p + suc i ≡ p + 1 + i = λ i. omega arith in
    let f : (i : ℕ) → q + suc i ≡ q + 1 + i = λ i. omega arith in
    (
      first_byte m k p q (same 0 (omega arith)) ∙ h.0,
      h.1,
      IsString-moved m k xs (p + 1) (q + 1)
          (λ i l. rw (sym (e i), sym (f i)) (same (suc i) (omega arith))) h.2,
    )

move-away : (d s a : ℕ) (m : Memory) → a ≢ d → move 1 d s m a ≡ m a
unfolding move
move-away d s a m h = ground arith

same_pair : {i j : ℕ} {m k : Memory} → i ≡ j → m ≡ k → ◌≡◌ {A = ℕ × Memory} (i, m) (j, k)
same_pair e f = ap₂ (λ x y. (x, y)) e f

copy_to_zero-move :
    (fuel : ℕ) (xs : List ℕ) (d s : ℕ) (m : Memory)
    → IsString m s xs
    → Apart d (suc (length xs)) s (suc (length xs))
    → length xs < fuel
    → copy_to_zero fuel d s m ≡ move (suc (length xs)) d s m
unfolding copy_to_zero
copy_to_zero-move zero xs d s m h a f = absurd (omega arith)
copy_to_zero-move (suc fuel) [] d s m h a f = rw (copy_to_zero, h) refl
copy_to_zero-move (suc fuel) (x ∷ xs) d s m h a f =
    let go : (x == 0) ≡ false = ground (arith, h.1) in
    let kept : IsString (move 1 d s m) (s + 1) xs =
      IsString-moved m (move 1 d s m) xs (s + 1) (s + 1)
        (λ i l. move-away d s (s + 1 + i) m (λ e. absurd (omega (arith, e)))) h.2 in
    rw (copy_to_zero, h.0, go)
      (copy_to_zero-move fuel xs (d + 1) (s + 1) (move 1 d s m) kept (omega arith) (omega arith)
        ∙ move-add_up 1 (suc (length xs)) d s m (omega arith)
        ∙ move_eq m (omega arith) refl refl)

-- For a string of the source that is apart from the room for it at the destination, and enough fuel, strcpy returns the
-- destination, copies the string with its zero byte there, and changes no other byte.
strcpy-move :
    (fuel dst src : ℕ) (m : Memory) (xs : List ℕ)
    → IsString m src xs
    → Apart dst (suc (length xs)) src (suc (length xs))
    → length xs < fuel
    → strcpy fuel dst src m ≡ (dst, move (suc (length xs)) dst src m)
unfolding strcpy
strcpy-move fuel dst src m xs h a f = ap (λ k. (dst, k)) (copy_to_zero-move fuel xs dst src m h a f)

copy_at_most-move :
    (left : ℕ) (xs : List ℕ) (d s i : ℕ) (m : Memory)
    → IsString m (s + i) xs
    → Apart (d + i) left (s + i) (suc (length xs))
    → copy_at_most left d s i m
      ≡ (i + min (length xs) left, move (min (length xs) left) (d + i) (s + i) m)
unfolding copy_at_most
copy_at_most-move zero xs d s i m h a =
    same_pair (omega arith) (sym (move-zero (d + i) (s + i) m) ∙ move_eq m (omega arith) refl refl)
copy_at_most-move (suc left) [] d s i m h a =
    rw (copy_at_most, h)
      (same_pair (omega arith)
        (sym (move-zero (d + i) (s + i) m) ∙ move_eq m (omega arith) refl refl))
copy_at_most-move (suc left) (x ∷ xs) d s i m h a =
    let go : (x == 0) ≡ false = ground (arith, h.1) in
    let e : s + i + 1 ≡ s + (i + 1) = omega arith in
    let kept : IsString (move 1 (d + i) (s + i) m) (s + (i + 1)) xs =
      IsString-moved m (move 1 (d + i) (s + i) m) xs (s + (i + 1)) (s + (i + 1))
        (λ j l. move-away (d + i) (s + i) (s + (i + 1) + j) m (λ e. absurd (omega (arith, e))))
        (subst (λ p. IsString m p xs) e h.2) in
    rw (copy_at_most, h.0, go)
      (copy_at_most-move left xs d s (i + 1) (move 1 (d + i) (s + i) m) kept (omega arith)
        ∙ same_pair (omega arith) (
            move_eq (move 1 (d + i) (s + i) m) refl (omega arith) (omega arith)
            ∙ move-add_up 1 (min (length xs) left) (d + i) (s + i) m (omega arith)
            ∙ move_eq m (omega arith) refl refl))

whole_copy :
    (n dst src : ℕ) (m : Memory) (xs : List ℕ)
    → IsString m src xs
    → Apart dst n src (suc (length xs))
    → copy_at_most n dst src 0 m ≡ (min (length xs) n, move (min (length xs) n) dst src m)
whole_copy n dst src m xs h a =
    let e : src ≡ src + 0 = omega arith in
    copy_at_most-move n xs dst src 0 m (subst (λ p. IsString m p xs) e h) (omega arith)
    ∙ same_pair (omega arith) (move_eq m refl (omega arith) (omega arith))

-- For a string of the source that is apart from the `n` bytes of the destination, strncpy returns the destination,
-- copies the first `n` bytes of the string there, sets what is left of the `n` bytes to 0, and changes no other byte.
strncpy-move :
    (features dst src n : ℕ) (m : Memory) (xs : List ℕ)
    → IsString m src xs
    → Apart dst n src (suc (length xs))
    → strncpy features dst src n m ≡ (
      dst,
      fill (n - min (length xs) n) (dst + min (length xs) n) 0 (move (min (length xs) n) dst src m),
    )
unfolding strncpy pad
strncpy-move features dst src n m xs h a = rw (whole_copy n dst src m xs h a) (
    ap (λ k. (dst, k))
      (padded (min (length xs) n) (move (min (length xs) n) dst src m) (omega arith)))
  where
    padded : (i : ℕ) (k : Memory) → i ≤ n → pad features dst n (i, k) ≡ fill (n - i) (dst + i) 0 k
    padded i k l = elim (Bool-cases (ltb i n)) [
      | inl less ↦ rw (less, memset-fill features (dst + i) 0 (n - i) k) refl
      | inr whole ↦
          let none_left : 0 ≡ n - i = ground arith in
          rw whole (sym (fill-zero (dst + i) 0 k) ∙ fill_eq 0 k none_left refl)
    ]

-- Two texts in a row.
IsString-append :
    (m k : Memory) (ys xs : List ℕ) (p : ℕ)
    → ((i : ℕ) → i < length ys → k (p + i) ≡ m (p + i))
    → IsString m p ys
    → IsString k (p + length ys) xs
    → IsString k p (ys ++ xs)
IsString-append m k [] xs p same h t =
    let e : p + 0 ≡ p = omega arith in subst (λ q. IsString k q xs) e t
IsString-append m k (y ∷ ys) xs p same h t =
    let e : p + 0 ≡ p = omega arith in
    let shift : (i : ℕ) → p + suc i ≡ p + 1 + i = λ i. omega arith in
    (
      subst (λ a. k a ≡ m a) e (same 0 (omega arith)) ∙ h.0,
      h.1,
      IsString-append m k ys xs (p + 1)
          (λ i l. subst (λ a. k a ≡ m a) (shift i) (same (suc i) (omega arith))) h.2
          (subst (λ q. IsString k q xs) (shift (length ys)) t),
    )

-- For a string at the destination, a string of the source that is apart from the room for both there, and enough fuel,
-- strcat copies the source with its zero byte to the end of the first string, so that both texts in a row stand at the
-- destination, and changes no other byte.
strcat-append :
    (fuel features dst src : ℕ) (m : Memory) (ys xs : List ℕ)
    → IsBytes m
    → IsString m dst ys
    → IsString m src xs
    → Apart dst (length ys + suc (length xs)) src (suc (length xs))
    → length ys < fuel
    → length xs < fuel
    → length ys < 2 ^ 64 - 1
    → (strcat fuel features dst src m ≡ (dst, move (suc (length xs)) (dst + length ys) src m))
      × IsString (move (suc (length xs)) (dst + length ys) src m) dst (ys ++ xs)
unfolding strcat move
strcat-append fuel features dst src m ys xs cells h k a f g fits = (
  rw (strlen-length fuel features dst m ys cells h f fits)
      (ap (λ r. (dst, r.1)) (strcpy-move fuel (dst + length ys) src m xs k (omega arith) g)),
  IsString-append m (move (suc (length xs)) (dst + length ys) src m) ys xs dst (λ i l. ground arith)
      h
      (IsString-moved m (move (suc (length xs)) (dst + length ys) src m) xs src (dst + length ys)
        (λ i l.
          let inside : within (dst + length ys) (suc (length xs)) (dst + length ys + i) ≡ true =
            ground arith in
          let e : src + (dst + length ys + i - (dst + length ys)) ≡ src + i = omega arith in
          rw (inside, e) refl)
        k),
)

-- For strings at the destination and the source, the room for at most `n` bytes behind the first apart from the second,
-- and enough fuel, strncat copies the first `n` bytes of the source to the end of the first string, ends them with a
-- zero byte, and changes no other byte.
strncat-move :
    (fuel features dst src n : ℕ) (m : Memory) (ys xs : List ℕ)
    → IsBytes m
    → IsString m dst ys
    → IsString m src xs
    → Apart (dst + length ys) n src (suc (length xs))
    → length ys < fuel
    → length ys < 2 ^ 64 - 1
    → strncat fuel features dst src n m ≡ (
      dst,
      fill 1
          (dst + length ys + min (length xs) n)
          0
          (move (min (length xs) n) (dst + length ys) src m),
    )
unfolding strncat end_text
strncat-move fuel features dst src n m ys xs cells h k a f fits =
    rw
      (
        strlen-length fuel features dst m ys cells h f fits,
        whole_copy n (dst + length ys) src m xs k a,
      )
      refl
