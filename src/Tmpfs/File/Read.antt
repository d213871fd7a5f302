-- ===== src/Tmpfs/File/Read.antt =====
-- `tmpfs_read` gives the bytes of the file.
use rhkernel.Prelude.{
  ℕ, suc, ◌+◌, ◌-◌, ◌/◌, ◌%◌, ◌≤◌, ◌<◌, ◌≡◌, refl, ◌∙◌, ap, true, false, not, ◌||◌, leb, ltb, min,
  if◌then◌else◌, Option, none, some, arith, Bool-cases, inl, inr, while, while_inv,
}
use rhkernel.Libc.Memory.{Memory, within, fill}
use rhkernel.Tmpfs.File.{Node, page_size, copy_part, read_part, read_round, read_loop, tmpfs_read}
use rhkernel.Tmpfs.File.Contents.{page_at, byte_of, content}

read_part-byte :
    (page : Option Memory) (take done at : ℕ) (buf : Memory) (i : ℕ)
    → read_part page take done at buf i
      ≡ (if within done take i then byte_of page (at + (i - done)) else buf i)
unfolding read_part copy_part fill
read_part-byte none take done at buf i = refl
read_part-byte (some p) take done at buf i = refl

module _ (n : Node) (off size : ℕ) where
  -- The bytes that a round takes lie on one page.
  same_page :
      (done i take : ℕ)
      → done ≤ i
      → i < done + take
      → take ≤ page_size - (off + done) % page_size
      → ((off + i) / page_size ≡ (off + done) / page_size)
        × ((off + i) % page_size ≡ (off + done) % page_size + (i - done))
  same_page done i take h k e = omega arith

  round_byte :
      (done : ℕ) (buf : Memory) (i : ℕ)
      → (read_round n off size (done, buf)).1 i ≡ (
          if within done (min (page_size - (off + done) % page_size) (size - done)) i
          then content n (off + i)
          else buf i)
  unfolding read_round content
  round_byte done buf i =
      let take = min (page_size - (off + done) % page_size) (size - done) in
      let at = (off + done) % page_size in
      let page = page_at n ((off + done) / page_size) in
      read_part-byte page take done at buf i ∙ elim (Bool-cases (within done take i)) [
        | inl e ↦
            let there = same_page done i take (ground arith) (ground arith) (omega arith) in
            rw (e, there.0, there.1) refl
        | inr e ↦ rw e refl
      ]

  -- What the loop has read.
  record ReadSoFar (before : Memory) (s : ℕ × Memory) : Type 0 where
    inside : s.0 ≤ size
    bytes : (i : ℕ) → s.1 i ≡ (if ltb i s.0 then content n (off + i) else before i)

  round-ReadSoFar :
      (before : Memory) (s : ℕ × Memory)
      → ReadSoFar before s
      → ltb s.0 size ≡ true
      → ReadSoFar before (read_round n off size s)
        × (size - (read_round n off size s).0 < size - s.0)
  round-ReadSoFar before (done, buf) h e = (
    record {
      inside = unfold read_round in ground arith;
      bytes = λ i. round_byte done buf i ∙ unfold read_round in ground (arith, h.bytes i);
    },
    unfold read_round in ground arith,
  )

  loop_result :
      (buf : Memory)
      → ((read_loop n off size buf).0 ≡ size)
        × ((i : ℕ)
            → (read_loop n off size buf).1 i ≡ (if ltb i size then content n (off + i) else buf i))
  unfolding read_loop
  loop_result buf =
      let all =
        while_inv (ReadSoFar buf) (λ x. size - x.0) (λ x. ltb x.0 size) (read_round n off size)
          (round-ReadSoFar buf) (suc size) (0, buf) (omega arith)
          (record { inside = omega arith; bytes = λ i. ground arith }) in
      let result = while (suc size) (λ x. ltb x.0 size) (read_round n off size) (0, buf) in
      let whole : result.0 ≡ size = ground (arith, all.0.inside, all.1) in
      (whole, λ i. all.0.bytes i ∙ ap (λ k. if ltb i k then content n (off + i) else buf i) whole)

-- How many bytes a read at `off` may give.
unfoldable pub readable : Node → ℕ → ℕ → ℕ
readable n off size = if leb n.size off then 0 else min size (n.size - off)

-- A read of a file with a buffer returns the smaller of the size asked for and what the file has from `off` on; that
-- many bytes of the file stand in the buffer, zeroes where the file has no page, and the rest of the buffer is as before.
pub tmpfs_read-content :
    (n : Node) (off size : ℕ) (buf : Memory)
    → n.is_file ≡ true
    → (out : Memory) × (tmpfs_read n off size (some buf) ≡ (readable n off size, some out))
      × ((i : ℕ) → out i ≡ (if ltb i (readable n off size) then content n (off + i) else buf i))
unfolding tmpfs_read readable
tmpfs_read-content n off size buf f = elim (Bool-cases (leb n.size off)) [
  | inl e ↦
      let stop : (not n.is_file || leb n.size off) ≡ true = ground arith in
      rw (stop, e) (buf, refl, λ i. ground arith)
  | inr e ↦
      let go : (not n.is_file || leb n.size off) ≡ false = ground arith in
      let loop = loop_result n off (min size (n.size - off)) buf in
      rw (go, e)
        (
          (read_loop n off (min size (n.size - off)) buf).1,
          ap (λ k. (k, some (read_loop n off (min size (n.size - off)) buf).1)) loop.0,
          loop.1,
        )
]
