-- ===== src/Libc/Scan/Rounds.antt =====
-- The loops of the scans: each passes over bytes that fail the test, or returns the first that passes.
use rhkernel.Prelude.{
  ℕ, suc, ◌+◌, ◌-◌, ◌*◌, ◌≤◌, ◌<◌, ◌≡◌, ◌∙◌, ap, Bool, true, false, not, ◌&&◌, leb, ◌==◌,
  if◌then◌else◌, none, some, arith, Bool-cases, Option-cases, inl, inr, while, while_inv, next,
  leave, Exits, Advances, return_while_inv,
}
use rhkernel.Libc.Memory.{Memory}
use rhkernel.Libc.Copy.{unaligned, word_bytes}
use rhkernel.Libc.Scan.{
  Scanning, advance, lanes_hit, vector_round, byte_round, vectors, bytes_to_boundary, bytes, words,
  skip_bytes,
}
use rhkernel.Libc.Scan.Span.{
  span, span-add, span-le, lanes_hit-none, lanes_hit-some, eq_span, span-one, span-stops,
}

-- What is still to be scanned has its first hit at `stop`, which is `end` if there is none.
pub record DueScan (test : ℕ → Bool) (base stop end : ℕ) (s : Scanning) : Type 0 where
  pub begins : base ≤ s.at
  pub stops : s.at + span test s.left s.at ≡ stop
  pub ends : s.at + s.left ≡ end

module _ (test : ℕ → Bool) (base stop end : ℕ) where
  part :
      (k : ℕ) (s : Scanning)
      → k ≤ s.left
      → span test s.left s.at ≡ (
          if span test k s.at == k then k + span test (s.left - k) (s.at + k) else span test k s.at)
  part k s fits =
      let e : s.left ≡ k + (s.left - k) = omega arith in
      ap (λ n. span test n s.at) e ∙ span-add test k (s.left - k) s.at

  pub advance-Due :
      {s : Scanning} (k : ℕ)
      → k ≤ s.left
      → span test k s.at ≡ k
      → DueScan test base stop end s
      → DueScan test base stop end (advance k s)
  advance-Due {s} k fits e d = record {
    begins = omega (arith, d.begins);
    stops = ground (arith, part k s fits, d.stops);
    ends = omega (arith, d.ends);
  }

  pub hit-Due :
      {s : Scanning} (k : ℕ)
      → k ≤ s.left
      → span test k s.at < k
      → DueScan test base stop end s
      → (s.at + span test k s.at ≡ stop) × (stop < end)
  hit-Due {s} k fits e d = ground (arith, part k s fits, d.stops, d.ends)

  pub over-Due :
      {s : Scanning} → s.left < 1 → DueScan test base stop end s → (s.at ≡ stop) × (stop ≡ end)
  over-Due {s} h d = omega (arith, d.stops, d.ends, span-le test s.left s.at)

  module _ {R : Type 0} (found : ℕ → R) (Q : R → Type 0) (hit : stop < end → Q (found stop)) where
    vector_round-Advances :
        (width lanes : ℕ) (s : Scanning)
        → width ≤ 32
        → 1 ≤ lanes * width
        → lanes * width ≤ s.left
        → DueScan test base stop end s
        → Advances
            (DueScan test base stop end)
            Q
            (λ x. x.left)
            s
            (vector_round test found width lanes s)
    vector_round-Advances width lanes s w pos fits d =
        elim (Option-cases (lanes_hit test width lanes s.at)) [
          | inl e ↦ rw (missed width lanes s e) (
            advance-Due (lanes * width) fits (lanes_hit-none test width lanes s.at w e) d,
            omega arith,
          )
          | inr (q, e) ↦
              let there = lanes_hit-some test width lanes s.at q w e in
              let here = hit-Due (lanes * width) fits there.1 d in
              rw (hits width lanes s q e, there.0, here.0) (hit here.1)
        ]
      where
        missed :
            (width lanes : ℕ) (s : Scanning)
            → lanes_hit test width lanes s.at ≡ none
            → vector_round test found width lanes s ≡ next (advance (lanes * width) s)
        missed width lanes s e = unfold vector_round in rw (e, vector_round)

        hits :
            (width lanes : ℕ) (s : Scanning) (q : ℕ)
            → lanes_hit test width lanes s.at ≡ some q
            → vector_round test found width lanes s ≡ leave (found q)
        hits width lanes s q e = unfold vector_round in rw (e, vector_round)

    byte_round-Advances :
        (s : Scanning)
        → 1 ≤ s.left
        → DueScan test base stop end s
        → Advances (DueScan test base stop end) Q (λ x. x.left) s (byte_round test found s)
    byte_round-Advances s fits d = elim (Bool-cases (test s.at)) [
      | inl e ↦
          let here = hit-Due {s = s} 1 fits (ground (arith, span-one test s.at)) d in
          let same : s.at ≡ stop = ground (arith, span-one test s.at, here.0) in
          rw (hits s e, same) (hit here.1)
      | inr e ↦
          rw (missed s e) (advance-Due 1 fits (ground (arith, span-one test s.at)) d, omega arith)
    ]
      where
        missed : (s : Scanning) → test s.at ≡ false → byte_round test found s ≡ next (advance 1 s)
        missed s e = unfold byte_round in rw e

        hits : (s : Scanning) → test s.at ≡ true → byte_round test found s ≡ leave (found s.at)
        hits s e = unfold byte_round in rw e

    pub vectors-Exits :
        (width lanes : ℕ) (s : Scanning)
        → width ≤ 32
        → 1 ≤ lanes * width
        → DueScan test base stop end s
        → Exits
            (λ x. DueScan test base stop end x × (leb (lanes * width) x.left ≡ false))
            Q
            (vectors test found width lanes s)
    unfolding vectors
    vectors-Exits width lanes s w pos d =
        return_while_inv (DueScan test base stop end) Q (λ x. x.left)
          (λ x. leb (lanes * width) x.left) (vector_round test found width lanes)
          (λ x p t. vector_round-Advances width lanes x w pos (ground arith) p) (suc s.left) s
          (omega arith) d

    pub bytes_to_boundary-Exits :
        (width : ℕ) (s : Scanning)
        → DueScan test base stop end s
        → Exits
            (λ x. DueScan test base stop end x × ((leb 1 x.left && unaligned width x.at) ≡ false))
            Q
            (bytes_to_boundary test found width s)
    unfolding bytes_to_boundary
    bytes_to_boundary-Exits width s d =
        return_while_inv (DueScan test base stop end) Q (λ x. x.left)
          (λ x. leb 1 x.left && unaligned width x.at) (byte_round test found)
          (λ x p t. byte_round-Advances x (ground arith) p) (suc s.left) s (omega arith) d

    pub bytes-Exits :
        (s : Scanning)
        → DueScan test base stop end s
        → Exits (λ x. DueScan test base stop end x × (leb 1 x.left ≡ false)) Q (bytes test found s)
    unfolding bytes
    bytes-Exits s d =
        return_while_inv (DueScan test base stop end) Q (λ x. x.left) (λ x. leb 1 x.left)
          (byte_round test found) (λ x p t. byte_round-Advances x (ground arith) p) (suc s.left) s
          (omega arith) d

  -- A word that the word test does not stop at holds no hit.
  pub words-Due :
      (halt : ℕ → Bool) (s : Scanning)
      → ((p i : ℕ) → halt p ≡ false → i < 8 → test (p + i) ≡ false)
      → DueScan test base stop end s
      → DueScan test base stop end (words halt s)
  unfolding words
  words-Due halt s clear d =
      (while_inv (DueScan test base stop end) (λ x. x.left)
        (λ x. leb word_bytes x.left && not (halt x.at)) (advance word_bytes)
        (λ x p t. (
          advance-Due 8 (ground arith)
              (eq_span test 8 x.at 8 (omega arith) (λ i h. clear x.at i (ground arith) h)
                (λ h. absurd (omega arith)))
              p,
          ground arith,
        ))
        (suc s.left) s (omega arith) d).0

-- `while (n && *p)` ends at the first zero byte or at the end.
pub skip_bytes-at :
    (m : Memory) (base stop end : ℕ) (s : Scanning)
    → DueScan (λ a. m a == 0) base stop end s
    → (skip_bytes m s).at ≡ stop
unfolding skip_bytes
skip_bytes-at m base stop end s d =
    let kept =
      while_inv (DueScan (λ a. m a == 0) base stop end) (λ x. x.left)
        (λ x. leb 1 x.left && not (m x.at == 0)) (advance 1)
        (λ x p t. (
          advance-Due (λ a. m a == 0) base stop end 1 (ground arith)
              (ground (arith, span-one (λ a. m a == 0) x.at)) p,
          ground arith,
        ))
        (suc s.left) s (omega arith) d in
    ended (while (suc s.left) (λ x. leb 1 x.left && not (m x.at == 0)) (advance 1) s) kept.0 kept.1
  where
    ended :
        (x : Scanning)
        → DueScan (λ a. m a == 0) base stop end x
        → (leb 1 x.left && not (m x.at == 0)) ≡ false
        → x.at ≡ stop
    ended x e h = omega (arith, e.stops, span-stops (λ a. m a == 0) x.left x.at h)
