-- ===== src/Kernel/Work/Ready.antt =====
-- `queue_ready_delayed`: the due works move to the queue in the order of the list.
use rhkernel.Prelude.{
  ℕ, zero, suc, ◌+◌, ◌^◌, ◌<◌, ◌≡◌, refl, sym, ap, subst, ◌∙◌, Bool, true, false, not, ◌&&◌, ◌||◌,
  ◌==◌, ltb, if◌then◌else◌, Option, none, some, List, [], ◌∷◌, ◌++◌, ◌%◌, length, length-append,
  arith, Bool-cases, inl, inr,
}
use mathlib.Core.List.{append_assoc, append-nil}
use rhkernel.Prelude.Links.{
  same_key, member, has_key, IsDistinct, Chain, Chain-same, has_key-cons, same_key_refl,
  member-other, has_key-other,
}
use rhkernel.Kernel.Work.{
  State, is_busy, append_work, read_link, unlink_delayed, postpone, ready_loop, queue_ready_delayed,
}
use rhkernel.Kernel.Work.Queue.{IsQueue, append_work-IsQueue}
use rhkernel.Kernel.Work.Enqueue.{idle_unmarked}
use rhkernel.Kernel.Work.Views.{
  is_ready, pick, pick-same, waits, append_work-delayed, append_work-read_link, append_work-is_busy,
  unlink_delayed-read_link, unlink_delayed-due_tick, unlink_delayed-waits, unlink_delayed-IsQueue,
  unlink_delayed-is_busy, postpone-IsQueue, postpone-read_link, postpone-waits, postpone-is_ready,
}

-- The delayed works `ds` stand in the list in this order, they are the ones that are marked, and none stands twice.
pub record IsDelayed (s : State) (ds : List ℕ) : Type 0 where
  pub chain : Chain (read_link s) none ds
  pub listed : (d : ℕ) → waits s d ≡ member d ds
  pub distinct : IsDistinct ds

abbrev pub ready : ℕ → State → List ℕ → List ℕ
ready now s ds = pick (is_ready now s) ds

abbrev pub left : ℕ → State → List ℕ → List ℕ
left now s ds = pick (λ d. not (is_ready now s d)) ds

-- What the loop does from the link `pp` on, which starts the list `ds`.
record Walked (now : ℕ) (s t : State) (pp : Option ℕ) (ds xs : List ℕ) : Type 0 where
  chain : Chain (read_link t) pp (left now s ds)
  frame :
      (k : Option ℕ) → same_key k pp ≡ false → has_key k ds ≡ false → read_link t k ≡ read_link s k
  queue : IsQueue t (xs ++ ready now s ds)
  marks : (d : ℕ) → waits t d ≡ (waits s d && not (member d (ready now s ds)))

-- A step that moves the work `d`.
abbrev moved : Option ℕ → ℕ → State → State
moved pp d s = append_work d (unlink_delayed pp d s)

not_both : (a b c : Bool) → ((a && not b) && not c) ≡ (a && not (b || c))
not_both a true c = ground arith
not_both a false c = ground arith

module _ (now : ℕ) where
  moved-is_ready :
      (pp : Option ℕ) (d x : ℕ) (s : State)
      → x == d ≡ false
      → is_ready now (moved pp d s) x ≡ is_ready now s x
  moved-is_ready pp d x s n =
      let due : ((moved pp d s).delayed x).due_tick ≡ (s.delayed x).due_tick =
        ap (λ r. r.due_tick) (append_work-delayed d x (unlink_delayed pp d s))
        ∙ unlink_delayed-due_tick pp d x s in
      let busy : is_busy (moved pp d s) x ≡ is_busy s x =
        append_work-is_busy d x (unlink_delayed pp d s) n ∙ unlink_delayed-is_busy pp d x s in
      rw (due, busy) refl

  moved-read_link :
      (pp : Option ℕ) (d : ℕ) (k : Option ℕ) (s : State)
      → same_key pp (some d) ≡ false
      → same_key k (some d) ≡ false
      → read_link (moved pp d s) k ≡ (if same_key k pp then read_link s (some d) else read_link s k)
  moved-read_link pp d k s n m =
      append_work-read_link d k (unlink_delayed pp d s) ∙ unlink_delayed-read_link pp d k s n m

  moved-waits :
      (pp : Option ℕ) (d x : ℕ) (s : State) → waits (moved pp d s) x ≡ (waits s x && not (x == d))
  moved-waits pp d x s =
      ap (λ r. r.flags % 2 == 1) (append_work-delayed d x (unlink_delayed pp d s))
      ∙ unlink_delayed-waits pp d x s

  -- The kinds of round: the work stays, or it moves.
  skip :
      (s s' t : State) (pp : Option ℕ) (d : ℕ) (ds xs : List ℕ)
      → is_ready now s d ≡ false
      → read_link s pp ≡ some d
      → has_key pp (d ∷ ds) ≡ false
      → ((k : Option ℕ) → read_link s' k ≡ read_link s k)
      → ((x : ℕ) → waits s' x ≡ waits s x)
      → ((x : ℕ) → member x ds ≡ true → is_ready now s' x ≡ is_ready now s x)
      → Walked now s' t (some d) ds xs
      → Walked now s t pp (d ∷ ds) xs
  skip s s' t pp d ds xs e h n links marks same w =
      let apart = has_key-cons pp d ds n in
      let same_ready = pick-same (is_ready now s') (is_ready now s) ds same in
      let same_left =
        pick-same (λ x. not (is_ready now s' x)) (λ x. not (is_ready now s x)) ds
          (λ x m. ap not (same x m)) in
      record {
        chain = rw e (
          w.frame pp apart.0 apart.1 ∙ links pp ∙ h,
          subst (λ l. Chain (read_link t) (some d) l) same_left w.chain,
        );
        frame = λ k a b. let keys = has_key-cons k d ds b in w.frame k keys.0 keys.1 ∙ links k;
        queue = rw e (subst (λ l. IsQueue t (xs ++ l)) same_ready w.queue);
        marks = λ x. rw e (w.marks x ∙ (rw (marks x, same_ready) refl));
      }

  take :
      (s t : State) (pp : Option ℕ) (d : ℕ) (ds xs : List ℕ)
      → is_ready now s d ≡ true
      → has_key pp (d ∷ ds) ≡ false
      → IsDistinct (d ∷ ds)
      → Walked now (moved pp d s) t pp ds (xs ++ d ∷ [])
      → Walked now s t pp (d ∷ ds) xs
  take s t pp d ds xs e n i w =
      let apart = has_key-cons pp d ds n in
      let same =
        λ (x : ℕ) (m : member x ds ≡ true). moved-is_ready pp d x s (member-other d x ds i.0 m) in
      let same_ready = pick-same (is_ready now (moved pp d s)) (is_ready now s) ds same in
      let same_left =
        pick-same (λ x. not (is_ready now (moved pp d s) x)) (λ x. not (is_ready now s x)) ds
          (λ x m. ap not (same x m)) in
      record {
        chain = rw e (subst (λ l. Chain (read_link t) pp l) same_left w.chain);
        frame = λ k a b.
            let keys = has_key-cons k d ds b in
            w.frame k a keys.1 ∙ moved-read_link pp d k s apart.0 keys.0 ∙ (rw a refl);
        queue = rw e (
            subst (λ l. IsQueue t l) (append_assoc xs (d ∷ []) (ready now s ds))
              (subst (λ l. IsQueue t ((xs ++ d ∷ []) ++ l)) same_ready w.queue));
        marks = λ x. rw e (
            w.marks x
            ∙ (rw (moved-waits pp d x s, same_ready)
                (not_both (waits s x) (x == d) (member x (ready now s ds)))));
      }

  loop-Walked :
      (fuel : ℕ) (s : State) (pp : Option ℕ) (ds xs : List ℕ)
      → Chain (read_link s) pp ds
      → has_key pp ds ≡ false
      → IsDistinct ds
      → IsQueue s xs
      → length xs + length ds < 2 ^ 64
      → length ds < fuel
      → Walked now s (ready_loop fuel now pp s) pp ds xs
  unfolding ready_loop
  loop-Walked zero s pp ds xs h n i q room f = absurd (omega arith)
  loop-Walked (suc fuel) s pp [] xs h n i q room f =
      rw (ready_loop, h)
        (record {
          chain = h;
          frame = λ k a b. refl;
          queue = subst (IsQueue s) (sym (append-nil xs)) q;
          marks = λ d. ground arith;
        })
  loop-Walked (suc fuel) s pp (d ∷ ds) xs h n i q room f =
      elim (Bool-cases (ltb now (s.delayed d).due_tick)) [
        | inl early ↦
            rw (ready_loop, h.0, early)
              (skip s s (ready_loop fuel now (some d) s) pp d ds xs (rw early refl) h.0 n
                (λ k. refl) (λ x. refl) (λ x m. refl)
                (loop-Walked fuel s (some d) ds xs h.1 i.0 i.1 q (omega arith) (omega arith)))
        | inr due ↦ elim (Bool-cases (is_busy s d)) [
          | inl busy ↦
              let s' = postpone d now s in
              rw (ready_loop, h.0, due, busy)
                (skip s s' (ready_loop fuel now (some d) s') pp d ds xs (rw (due, busy) refl) h.0 n
                  (λ k. postpone-read_link d now k s) (λ x. postpone-waits d now x s)
                  (λ x m. postpone-is_ready d now x s (member-other d x ds i.0 m))
                  (loop-Walked fuel s' (some d) ds xs
                    (Chain-same (read_link s) (read_link s') (some d) (some d) ds
                      (postpone-read_link d now (some d) s)
                      (λ x m. postpone-read_link d now (some x) s) h.1)
                    i.0 i.1 (postpone-IsQueue d now s xs q) (omega arith) (omega arith)))
          | inr idle ↦
              let apart = has_key-cons pp d ds n in
              let s' = moved pp d s in
              let unmarked =
                idle_unmarked (unlink_delayed pp d s) d (unlink_delayed-is_busy pp d d s ∙ idle) in
              rw (ready_loop, h.0, due, idle)
                (take s (ready_loop fuel now pp s') pp d ds xs (rw (due, idle) refl) n i (
                  loop-Walked fuel s' pp ds (xs ++ d ∷ [])
                    (Chain-same (read_link s) (read_link s') (some d) pp ds
                      (moved-read_link pp d pp s apart.0 apart.0 ∙ (rw (same_key_refl pp) refl))
                      (λ x m.
                        moved-read_link pp d (some x) s apart.0 (member-other d x ds i.0 m)
                        ∙ (rw (has_key-other pp x ds apart.1 m) refl))
                      h.1)
                    apart.1 i.1
                    (append_work-IsQueue (unlink_delayed pp d s) xs d
                      (unlink_delayed-IsQueue pp d s xs q) unmarked (omega arith))
                    (omega (arith, length-append {0} xs (d ∷ []))) (omega arith)))
        ]
      ]

member-pick : (f : ℕ → Bool) (x : ℕ) (xs : List ℕ) → member x (pick f xs) ≡ (member x xs && f x)
member-pick f x [] = refl
member-pick f x (y ∷ ys) = elim (Bool-cases (x == y)) [
  | inl e ↦ let same : f x ≡ f y = ap f (ground arith) in ground (arith, same, member-pick f x ys)
  | inr e ↦ ground (arith, member-pick f x ys)
]

IsDistinct-pick : (f : ℕ → Bool) (xs : List ℕ) → IsDistinct xs → IsDistinct (pick f xs)
IsDistinct-pick f [] h = tt
IsDistinct-pick f (x ∷ xs) h = elim (Bool-cases (f x)) [
  | inl e ↦ rw e (member-pick f x xs ∙ (rw h.0 refl), IsDistinct-pick f xs h.1)
  | inr e ↦ rw e (IsDistinct-pick f xs h.1)
]

-- With fuel for the delayed works and a depth that does not wrap, the tick at `now` moves the delayed works that are due
-- and neither pending nor running to the end of the queue, in their order, and leaves the others in theirs.
pub queue_ready_delayed-ready :
    (fuel now : ℕ) (s : State) (xs ds : List ℕ)
    → IsQueue s xs
    → IsDelayed s ds
    → length xs + length ds < 2 ^ 64
    → length ds < fuel
    → IsQueue (queue_ready_delayed fuel now s) (xs ++ ready now s ds)
      × IsDelayed (queue_ready_delayed fuel now s) (left now s ds)
unfolding queue_ready_delayed
queue_ready_delayed-ready fuel now s xs ds q d room f =
    let w = loop-Walked now fuel s none ds xs d.chain refl d.distinct q room f in
    (
      w.queue,
      record {
        chain = w.chain;
        listed = λ x.
            w.marks x
            ∙ (rw
                (
                  d.listed x,
                  member-pick (is_ready now s) x ds,
                  member-pick (λ y. not (is_ready now s y)) x ds,
                )
                (rest (member x ds) (is_ready now s x)));
        distinct = IsDistinct-pick (λ y. not (is_ready now s y)) ds d.distinct;
      },
    )
  where
    rest : (a b : Bool) → (a && not (a && b)) ≡ (a && not b)
    rest true b = refl
    rest false b = refl
