-- ===== src/Tmpfs/File/Write.antt =====
-- `tmpfs_write` changes the bytes that it says it has written, and no other.
use rhkernel.Prelude.{
  ℕ, suc, ◌+◌, ◌-◌, ◌*◌, ◌/◌, ◌%◌, ◌≤◌, ◌<◌, ◌≡◌, refl, ◌∙◌, ap, min, Bool, true, false, ltb, ◌==◌,
  if◌then◌else◌, none, some, arith, Bool-cases, inl, inr, Round, next, leave, Exits, Advances,
  return_while, return_while_inv,
}
use rhkernel.Libc.Memory.{Memory, within}
use rhkernel.Tmpfs.File.{
  State, page_size, put_page, copy_part, store_part, ensure_data_page, after_page, write_round,
  write_loop,
}
use rhkernel.Tmpfs.File.Contents.{byte_of, content}
use rhkernel.Tmpfs.File.Ensure.{HasTable, Keeps, ensure_data_page-Keeps}

-- Storing a part of a page, by the offset in the file.
stored_byte :
    (t : State) (p : Memory) (start take done : ℕ) (buf : Memory) (a : ℕ)
    → t.node.pages (start / page_size) ≡ some p
    → start / page_size < t.node.page_capacity
    → take ≤ page_size - start % page_size
    → byte_of
        (if ltb (a / page_size) t.node.page_capacity
          then put_page
              (start / page_size)
              (some (copy_part take (start % page_size) done buf p))
              t.node.pages
              (a / page_size)
          else none)
        (a % page_size)
      ≡ (if within start take a then buf (done + (a - start)) else content t.node a)
unfolding put_page content copy_part
stored_byte t p start take done buf a e low fits =
    elim (Bool-cases (a / page_size == start / page_size)) [
      | inl same ↦
          let page : a / page_size ≡ start / page_size = ground arith in
          let here : ltb (start / page_size) t.node.page_capacity ≡ true = ground arith in
          let shift : a % page_size - start % page_size ≡ a - start = omega arith in
          let both : within (start % page_size) take (a % page_size) ≡ within start take a =
            ground arith in
          rw (same, page, here, e, both, shift) refl
      | inr other ↦ let out : within start take a ≡ false = ground arith in rw (other, out) refl
    ]

-- What the loop has done: the first `done` bytes of the buffer stand in the file from `off` on.
pub record Writing (s : State) (off size : ℕ) (buf : Memory) (r : State × ℕ) : Type 0 where
  pub inside : r.1 ≤ size
  pub same_kind : r.0.node.is_file ≡ s.node.is_file
  pub same_size : r.0.node.size ≡ s.node.size
  pub table : HasTable r.0.node
  pub room : off + size ≤ r.0.node.page_count * page_size
  pub bytes :
      (a : ℕ) → content r.0.node a ≡ (if within off r.1 a then buf (a - off) else content s.node a)

module _ (s : State) (off size : ℕ) (buf : Memory) where
  -- The written range grows by what the round stores.
  longer :
      (t : State) (done take a : ℕ)
      → Writing s off size buf (t, done)
      → (if within (off + done) take a then buf (done + (a - (off + done))) else content t.node a)
        ≡ (if within off (done + take) a then buf (a - off) else content s.node a)
  longer t done take a w = elim (Bool-cases (within (off + done) take a)) [
    | inl e ↦
        let both : within off (done + take) a ≡ true = ground arith in
        let place : done + (a - (off + done)) ≡ a - off = ground arith in
        rw (e, both) (ap buf place)
    | inr e ↦
        let both : within off (done + take) a ≡ within off done a = ground arith in
        rw (e, both) (w.bytes a)
  ]

  stored-Writing :
      (t : State) (done take : ℕ) (p : Memory)
      → Writing s off size buf (t, done)
      → t.node.pages ((off + done) / page_size) ≡ some p
      → take ≤ page_size - (off + done) % page_size
      → take ≤ size - done
      → done < size
      → Writing s off size buf (
        store_part t ((off + done) / page_size) ((off + done) % page_size) take done buf,
        done + take,
      )
  unfolding store_part content
  stored-Writing t done take p w e fits left more =
      rw (e, store_part)
        (record {
          inside = omega (arith, w.inside);
          same_kind = w.same_kind;
          same_size = w.same_size;
          table = record {
            counted = w.table.counted;
            covered = w.table.covered;
            none_above = λ i j. unfold put_page in ground (arith, w.table.none_above i j, w.room);
          };
          room = w.room;
          bytes = λ a.
              stored_byte t p (off + done) take done buf a e
                (omega (arith, w.room, w.table.counted)) fits
              ∙ longer t done take a w;
        })

  Keeps-Writing :
      (t u : State) (done : ℕ)
      → Writing s off size buf (t, done)
      → Keeps t u
      → Writing s off size buf (u, done)
  Keeps-Writing t u done w k = record {
    inside = w.inside;
    same_kind = k.same_kind ∙ w.same_kind;
    same_size = k.same_size ∙ w.same_size;
    table = k.table;
    room = omega (arith, w.room, k.more_pages);
    bytes = λ a. k.same_bytes a ∙ w.bytes a;
  }

  after_page-Advances :
      (t : State) (done : ℕ) (r : State × Bool)
      → Writing s off size buf (t, done)
      → done < size
      → Keeps t r.0
      → (r.1 ≡ true → (p : Memory) × (r.0.node.pages ((off + done) / page_size) ≡ some p))
      → Advances
          (Writing s off size buf)
          (Writing s off size buf)
          (λ x. size - x.1)
          (t, done)
          (after_page off size buf done r)
  unfolding after_page
  after_page-Advances t done (u, false) w more k there = Keeps-Writing t u done w k
  after_page-Advances t done (u, true) w more k there =
      let found = there refl in
      let take = min (page_size - (off + done) % page_size) (size - done) in
      (
        stored-Writing u done take found.0 (Keeps-Writing t u done w k) found.1 (omega arith)
            (omega arith) more,
        omega arith,
      )

module _ (grant : ℕ → Bool) (s : State) (off size : ℕ) (buf : Memory) where
  round-Advances :
      (r : State × ℕ)
      → Writing s off size buf r
      → ltb r.1 size ≡ true
      → Advances
          (Writing s off size buf)
          (Writing s off size buf)
          (λ x. size - x.1)
          r
          (write_round grant off size buf r)
  unfolding write_round
  round-Advances (t, done) w e =
      let more : done < size = ground arith in
      let low : (off + done) / page_size < t.node.page_count = omega (arith, w.room) in
      let page = ensure_data_page-Keeps t w.table grant ((off + done) / page_size) low in
      after_page-Advances s off size buf t done
        (ensure_data_page grant t ((off + done) / page_size)) w more page.0 page.1

  pub write_loop-Writing :
      HasTable s.node
      → off + size ≤ s.node.page_count * page_size
      → Writing s off size buf (write_loop grant off size buf s)
  unfolding write_loop
  write_loop-Writing h room =
      ended (return_while (suc size) (λ x. ltb x.1 size) (write_round grant off size buf) (s, 0)) (
        return_while_inv (Writing s off size buf) (Writing s off size buf) (λ x. size - x.1)
          (λ x. ltb x.1 size) (write_round grant off size buf) round-Advances (suc size) (s, 0)
          (omega arith) start)
    where
      start : Writing s off size buf (s, 0)
      start = record {
        inside = omega arith;
        same_kind = refl;
        same_size = refl;
        table = h;
        room = room;
        bytes = λ a. ground arith;
      }

      ended :
          (x : Round (State × ℕ) (State × ℕ))
          → Exits
              (λ r. Writing s off size buf r × (ltb r.1 size ≡ false))
              (Writing s off size buf)
              x
          → Writing s off size buf (elim x [ next r ↦ r | leave r ↦ r ])
      ended (next r) h = h.0
      ended (leave r) h = h
