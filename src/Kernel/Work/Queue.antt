-- ===== src/Kernel/Work/Queue.antt =====
-- The queue of works as a list: appending, taking and completing.
use rhkernel.Prelude.{
  ℕ, suc, ◌+◌, ◌-◌, ◌^◌, ◌<◌, ◌≡◌, ◌≢◌, refl, sym, ap, subst, fun_ext, ◌∙◌, true, false, ◌==◌,
  if◌then◌else◌, Option, none, some, List, [], ◌∷◌, ◌++◌, length, length-append, arith, Bool-cases,
  inl, inr,
}
use rhkernel.Prelude.Links.{
  Links, write, member, IsDistinct, Chain, last_key, Chain-same, Chain-append_one,
  IsDistinct-append_one, last_key-append_one, member-append,
}
use rhkernel.Kernel.Work.{
  State, set_work, count_queued, link_at_tail, append_work, take_head, take_one, work_pending,
  work_running, u64,
}

abbrev pub links : State → Links
links s none = s.head
links s (some w) = (s.works w).next

abbrev pub flags : State → ℕ → ℕ
flags s w = (s.works w).flags

-- The works `xs` stand in the queue in this order: they are linked from the head to the tail, they are the works that
-- are marked as pending, none stands twice, and the depth is their number.
pub record IsQueue (s : State) (xs : List ℕ) : Type 0 where
  pub chain : Chain (links s) none xs
  pub last : s.tail ≡ last_key none xs
  pub listed : (w : ℕ) → flags s w == work_pending ≡ member w xs
  pub distinct : IsDistinct xs
  pub depth : s.counters.depth ≡ length xs

append_work-links :
    (w : ℕ) (s : State)
    → links (append_work w s) ≡ write s.tail (some w) (write (some w) none (links s))
unfolding append_work set_work link_at_tail
append_work-links w s = fun_ext λ q. at s.tail q
  where
    at :
        (t q : Option ℕ)
        → links
            (link_at_tail t w
              (set_work w (record (s.works w) { next = none; flags = work_pending }) s))
            q
          ≡ write t (some w) (write (some w) none (links s)) q
    at none none = refl
    at none (some i) = ground arith
    at (some x) none = refl
    at (some x) (some i) = ground arith

pub append_work-flags :
    (w : ℕ) (s : State) (i : ℕ)
    → flags (append_work w s) i ≡ (if i == w then work_pending else flags s i)
unfolding append_work set_work link_at_tail
append_work-flags w s i = at s.tail
  where
    at :
        (t : Option ℕ)
        → flags
            (link_at_tail t w
              (set_work w (record (s.works w) { next = none; flags = work_pending }) s))
            i
          ≡ (if i == w then work_pending else flags s i)
    at none = ground arith
    at (some x) = ground arith

-- The tail and the depth behind an append.
append_work-ends :
    (w : ℕ) (s : State)
    → ((append_work w s).tail ≡ some w)
      × ((append_work w s).counters.depth ≡ u64 (s.counters.depth + 1))
unfolding append_work count_queued
append_work-ends w s = (refl, refl)

-- A work that is not marked as pending goes to the end of the queue.
pub append_work-IsQueue :
    (s : State) (xs : List ℕ) (w : ℕ)
    → IsQueue s xs
    → flags s w ≢ work_pending
    → length xs < 2 ^ 64 - 1
    → IsQueue (append_work w s) (xs ++ w ∷ [])
append_work-IsQueue s xs w q idle room =
    let fresh : member w xs ≡ false = ground (arith, q.listed w) in
    let ends = append_work-ends w s in
    record {
      chain =
          rw (append_work-links w s, q.last)
            (Chain-append_one (links s) none xs w refl fresh q.distinct refl q.chain);
      last = ends.0 ∙ sym (last_key-append_one none xs w);
      listed = λ i.
          rw (append_work-flags w s i, member-append i xs (w ∷ [])) (ground (arith, q.listed i));
      distinct = IsDistinct-append_one xs w q.distinct fresh;
      depth = ends.1 ∙ omega (arith, q.depth, room, length-append {0} xs (w ∷ []));
    }

-- What `take_one` gives from a queue, and leaves.
abbrev pub Taken : State → List ℕ → State × Option ℕ → Type 0
Taken s [] (t, r) = (r ≡ none) × (t ≡ s)
Taken s (x ∷ xs) (t, r) = (r ≡ some x) × IsQueue t xs × (flags t x ≡ work_running)

-- The state without the first work.
abbrev taken : ℕ → State → State
taken x s = (take_head (some x) s).0

taken-links : (x y : ℕ) (s : State) → y == x ≡ false → links (taken x s) (some y) ≡ links s (some y)
unfolding take_head set_work
taken-links x y s n = ground arith

taken-flags :
    (x i : ℕ) (s : State) → flags (taken x s) i ≡ (if i == x then work_running else flags s i)
unfolding take_head set_work
taken-flags x i s = ground arith

taken-head : (x : ℕ) (s : State) → links (taken x s) none ≡ links s (some x)
unfolding take_head set_work
taken-head x s = refl

taken-depth :
    (x : ℕ) (s : State) (n : ℕ) → s.counters.depth ≡ suc n → (taken x s).counters.depth ≡ n
unfolding take_head set_work
taken-depth x s n e = ground arith

taken-last :
    (x : ℕ) (s : State) (xs : List ℕ)
    → Chain (links s) (some x) xs
    → s.tail ≡ last_key (some x) xs
    → (taken x s).tail ≡ last_key none xs
unfolding take_head set_work
taken-last x s [] h e = rw h refl
taken-last x s (y ∷ ys) h e = rw h.0 e

taken-IsQueue : (s : State) (x : ℕ) (xs : List ℕ) → IsQueue s (x ∷ xs) → IsQueue (taken x s) xs
taken-IsQueue s x xs q = record {
  chain =
      Chain-same (links s) (links (taken x s)) (some x) none xs (taken-head x s)
        (λ y m. taken-links x y s (other y m)) q.chain.1;
  last = taken-last x s xs q.chain.1 q.last;
  listed = λ i. rw (taken-flags x i s) (ground (arith, q.listed i, q.distinct, same i));
  distinct = q.distinct.1;
  depth = taken-depth x s (length xs) q.depth;
}
  where
    other : (y : ℕ) → member y xs ≡ true → y == x ≡ false
    other y m = elim (Bool-cases (y == x)) [
      | inl e ↦
          let same : y ≡ x = ground arith in
          let there : member x xs ≡ true = subst (λ z. member z xs ≡ true) same m in
          ground (arith, there, q.distinct)
      | inr e ↦ e
    ]

    same : (i : ℕ) → i ≡ x → member i xs ≡ false
    same i e = subst (λ z. member z xs ≡ false) (sym e) q.distinct.0

take_head-Taken : (s : State) (xs : List ℕ) → IsQueue s xs → Taken s xs (take_head s.head s)
unfolding take_head
take_head-Taken s [] q = rw (take_head, q.chain) (refl, refl)
take_head-Taken s (x ∷ xs) q =
    let e : take_head s.head s ≡ (taken x s, some x) = ap (λ h. take_head h s) q.chain.0 in
    rw e (refl, taken-IsQueue s x xs q, taken-flags x x s ∙ ground arith)

-- `take_one` gives the first work of the queue, marks it as running and leaves the rest in its order; from an empty
-- queue it gives none and changes nothing.
pub take_one-Taken : (s : State) (xs : List ℕ) → IsQueue s xs → Taken s xs (take_one s)
unfolding take_one
take_one-Taken s xs q = take_head-Taken s xs q

-- Works that keep their links and marks, the ends and the depth keep the queue.
pub IsQueue-same :
    (s t : State) (xs : List ℕ)
    → ((k : Option ℕ) → links t k ≡ links s k)
    → t.tail ≡ s.tail
    → ((w : ℕ) → flags t w == work_pending ≡ flags s w == work_pending)
    → t.counters.depth ≡ s.counters.depth
    → IsQueue s xs
    → IsQueue t xs
IsQueue-same s t xs l e f d q = record {
  chain = Chain-same (links s) (links t) none none xs (l none) (λ x m. l (some x)) q.chain;
  last = e ∙ q.last;
  listed = λ w. f w ∙ q.listed w;
  distinct = q.distinct;
  depth = d ∙ q.depth;
}
