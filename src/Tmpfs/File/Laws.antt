-- ===== src/Tmpfs/File/Laws.antt =====
-- What `tmpfs_write` promises to its callers.
use rhkernel.Prelude.{
  ℕ, ◌+◌, ◌-◌, ◌*◌, ◌≤◌, ◌≡◌, refl, ◌∙◌, ap, max, Bool, true, false, not, ◌&&◌, ◌||◌, ltb, ◌==◌,
  if◌then◌else◌, ◌⊎◌, some, arith, Bool-cases, inl, inr,
}
use rhkernel.Libc.Memory.{Memory, within}
use rhkernel.Tmpfs.File.{
  Node, State, page_size, uint64_max, ensure_file_capacity, write_loop, record_size, tmpfs_write,
}
use rhkernel.Tmpfs.File.Contents.{content, IsGood}
use rhkernel.Tmpfs.File.Ensure.{HasTable, Keeps, Keeps-refl, ensure_file_capacity-Keeps}
use rhkernel.Tmpfs.File.Write.{Writing, write_loop-Writing}

-- The state and count after a write of `size` bytes of `buf` at `off`.
pub record Written (s : State) (off size : ℕ) (buf : Memory) (r : State × ℕ) : Type 0 where
  pub inside : r.1 ≤ size
  pub bytes :
      (a : ℕ) → content r.0.node a ≡ (if within off r.1 a then buf (a - off) else content s.node a)
  pub new_size :
      (r.0.node.size ≡ max s.node.size (off + r.1)) ⊎ ((r.1 ≡ 0) × (r.0.node.size ≡ s.node.size))
  pub good : IsGood r.0.node

pub good_table : (n : Node) → IsGood n → HasTable n
good_table n g = record { counted = g.counted; covered = g.covered; none_above = g.none_above }

-- Nothing has been written.
kept :
    (s t : State) (off size : ℕ) (buf : Memory)
    → IsGood s.node
    → Keeps s t
    → Written s off size buf (t, 0)
kept s t off size buf g k = record {
  inside = omega arith;
  bytes = λ a. let out : within off 0 a ≡ false = ground arith in rw out (k.same_bytes a);
  new_size = inr (refl, k.same_size);
  good = record {
    counted = k.table.counted;
    covered = k.table.covered;
    none_above = k.table.none_above;
    zero_above = λ a h. k.same_bytes a ∙ g.zero_above a (omega (arith, k.same_size));
  };
}

recorded :
    (s t : State) (off size : ℕ) (buf : Memory) (r : State × ℕ)
    → IsGood s.node
    → Keeps s t
    → Writing t off size buf r
    → Written s off size buf (record_size off r)
unfolding record_size content
recorded s t off size buf (u, done) g k w = elim (Bool-cases (ltb u.node.size (off + done))) [
  | inl e ↦ rw e (record {
    inside = w.inside;
    bytes = u_bytes;
    new_size = inl (ground (arith, w.same_size, k.same_size));
    good = record {
      counted = w.table.counted;
      covered = omega (arith, w.room, w.inside);
      none_above = w.table.none_above;
      zero_above = λ a h. u_zero a (ground arith) h;
    };
  })
  | inr e ↦ rw e (record {
    inside = w.inside;
    bytes = u_bytes;
    new_size = inl (ground (arith, w.same_size, k.same_size));
    good = record {
      counted = w.table.counted;
      covered = w.table.covered;
      none_above = w.table.none_above;
      zero_above = λ a h. u_zero a h (ground arith);
    };
  })
]
  where
    u_bytes :
        (a : ℕ) → content u.node a ≡ (if within off done a then buf (a - off) else content s.node a)
    u_bytes a =
        w.bytes a ∙ ap (λ c. if within off done a then buf (a - off) else c) (k.same_bytes a)

    u_zero : (a : ℕ) → u.node.size ≤ a → off + done ≤ a → content u.node a ≡ 0
    u_zero a above past =
        let out : within off done a ≡ false = ground arith in
        let zero_here : content s.node a ≡ 0 =
          g.zero_above a (omega (arith, w.same_size, k.same_size)) in
        u_bytes a ∙ (rw out zero_here)

-- A write to a file in good order, with any allocator that may refuse any request, writes the first bytes of the buffer:
-- as many as it returns, which is at most `size`. They stand in the file from `off` on, every other byte of the file
-- is as before, the size is the larger of the old one and the end of what was written, or as before if nothing was
-- written, and the file is in good order again.
pub tmpfs_write-Written :
    (grant : ℕ → Bool) (s : State) (off size : ℕ) (buf : Memory)
    → IsGood s.node
    → Written s off size buf (tmpfs_write grant s off size (some buf))
unfolding tmpfs_write
tmpfs_write-Written grant s off size buf g =
    elim (Bool-cases (not s.node.is_file || (not (size == 0) && ltb (uint64_max - size) off))) [
      | inl e ↦ rw e (kept s s off size buf g (Keeps-refl s (good_table s.node g)))
      | inr e ↦ rw e (
          after_capacity (ensure_file_capacity grant s (off + size))
            (ensure_file_capacity-Keeps s (good_table s.node g) grant (off + size)))
    ]
  where
    after_capacity :
        (r : State × Bool)
        → Keeps s r.0 × (r.1 ≡ true → off + size ≤ r.0.node.page_count * page_size)
        → Written s off size buf
            (if r.1 then record_size off (write_loop grant off size buf r.0) else (r.0, 0))
    after_capacity (t, false) k = kept s t off size buf g k.0
    after_capacity (t, true) k =
        recorded s t off size buf (write_loop grant off size buf t) g k.0
          (write_loop-Writing grant t off size buf k.0.table (k.1 refl))
