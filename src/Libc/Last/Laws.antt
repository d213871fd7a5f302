-- ===== src/Libc/Last/Laws.antt =====
-- `strrchr` finds the last place of a byte.
use rhkernel.Prelude.{
  ℕ, zero, suc, ◌+◌, ◌%◌, ◌≤◌, ◌<◌, ◌≡◌, ◌≢◌, ◌⊎◌, refl, subst, ◌∙◌, true, false, ◌==◌,
  if◌then◌else◌, Option, none, some, List, [], ◌∷◌, length, arith, Bool-cases, inl, inr,
}
use rhkernel.Libc.Memory.{Memory}
use rhkernel.Libc.Text.{IsString}
use rhkernel.Libc.Last.{last_loop, strrchr}

-- `q` is the last place from `s` to `stop` that holds `c`.
pub record IsLast (m : Memory) (c s stop q : ℕ) : Type 0 where
  pub above : s ≤ q
  pub below : q ≤ stop
  pub hit : m q ≡ c
  pub later : (i : ℕ) → q < i → i ≤ stop → m i ≢ c

abbrev pub LastOr : Memory → ℕ → ℕ → ℕ → Option ℕ → Option ℕ → Type 0
LastOr m c s stop last r =
    ((q : ℕ) × (r ≡ some q) × IsLast m c s stop q)
    ⊎ ((r ≡ last) × ((i : ℕ) → s ≤ i → i ≤ stop → m i ≢ c))

only_here : (m : Memory) (c s i : ℕ) → s ≤ i → i ≤ s → m s ≢ c → m i ≢ c
only_here m c s i h k n = let e : s ≡ i = omega arith in subst (λ x. m x ≢ c) e n

-- The byte at `s` is looked at before the others.
one_more :
    (m : Memory) (c s stop : ℕ) (last r : Option ℕ)
    → s < stop
    → LastOr m c (s + 1) stop (if m s == c then some s else last) r
    → LastOr m c s stop last r
one_more m c s stop last r h (inl (q, e, l)) =
    inl (
      q,
      e,
      record { above = omega (arith, l.above); below = l.below; hit = l.hit; later = l.later },
    )
one_more m c s stop last r h (inr (e, n)) = elim (Bool-cases (m s == c)) [
  | inl y ↦
      let found : r ≡ some s = e ∙ (rw y refl) in
      inl (
        s,
        found,
        record {
          above = omega arith;
          below = omega arith;
          hit = ground arith;
          later = λ i k l. n i (omega arith) l;
        },
      )
  | inr y ↦
      let kept : r ≡ last = e ∙ (rw y refl) in
      inr (
        kept,
        λ i k l. elim (Bool-cases (i == s)) [
          | inl z ↦ only_here m c s i k (ground arith) (ground arith)
          | inr z ↦ n i (ground arith) l
        ],
      )
]

last_loop-LastOr :
    (fuel c s : ℕ) (m : Memory) (xs : List ℕ) (last : Option ℕ)
    → IsString m s xs
    → length xs < fuel
    → LastOr m c s (s + length xs) last (last_loop fuel c m s last)
unfolding last_loop
last_loop-LastOr zero c s m xs last h f = absurd (omega arith)
last_loop-LastOr (suc fuel) c s m [] last h f = elim (Bool-cases (m s == c)) [
  | inl y ↦
      let z : (m s == 0) ≡ true = ground (arith, h) in
      rw (last_loop, z, y)
        (inl (
          s,
          refl,
          record {
            above = omega arith;
            below = omega arith;
            hit = ground arith;
            later = λ i k l. absurd (omega arith);
          },
        ))
  | inr y ↦
      let z : (m s == 0) ≡ true = ground (arith, h) in
      rw (last_loop, z, y) (inr (refl, λ i k l. only_here m c s i k (omega arith) (ground arith)))
]
last_loop-LastOr (suc fuel) c s m (x ∷ xs) last h f =
    let go : (m s == 0) ≡ false = ground (arith, h.0, h.1) in
    let e : s + 1 + length xs ≡ s + suc (length xs) = omega arith in
    rw (last_loop, go)
      (one_more m c s (s + suc (length xs)) last
        (last_loop fuel c m (s + 1) (if m s == c then some s else last)) (omega arith)
        (subst
          (λ t.
            LastOr m c (s + 1) t (if m s == c then some s else last)
              (last_loop fuel c m (s + 1) (if m s == c then some s else last)))
          e
          (last_loop-LastOr fuel c (s + 1) m xs (if m s == c then some s else last) h.2
            (omega arith))))

-- For a string and fuel for its bytes, strrchr gives the last place of the low byte of `c` from the start of the string
-- to its zero byte, that one included, or null if the byte does not occur there.
strrchr-LastOr :
    (fuel s c : ℕ) (m : Memory) (xs : List ℕ)
    → IsString m s xs
    → length xs < fuel
    → LastOr m (c % 256) s (s + length xs) none (strrchr fuel s c m)
unfolding strrchr
strrchr-LastOr fuel s c m xs h f = last_loop-LastOr fuel (c % 256) s m xs none h f
