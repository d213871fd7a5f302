-- ===== src/Kernel/Work/Cancel.antt =====
-- `kernel_cancel_delayed_work` on the list of delayed works.
use rhkernel.Prelude.{
  ℕ, zero, suc, ◌<◌, ◌≡◌, refl, sym, ap, subst, ◌∙◌, true, false, not, ◌&&◌, ◌==◌, if◌then◌else◌,
  Option, none, some, List, [], ◌∷◌, length, arith, Bool-cases, inl, inr,
}
use rhkernel.Prelude.Int.{ℤ, pos}
use rhkernel.Prelude.Links.{
  same_key, member, has_key, IsDistinct, Chain, Chain-same, has_key-cons, same_key_refl,
  member-other, has_key-other,
}
use rhkernel.Prelude.Links.Remove.{remove, is_eq, member-remove, IsDistinct-remove}
use rhkernel.Kernel.Work.{State, read_link, unlink_delayed, cancel_loop, kernel_cancel_delayed_work}
use rhkernel.Kernel.Work.Queue.{IsQueue}
use rhkernel.Kernel.Work.Views.{
  waits, unlink_delayed-read_link, unlink_delayed-waits, unlink_delayed-IsQueue,
}
use rhkernel.Kernel.Work.Ready.{IsDelayed}

-- What the loop does from the link `pp` on, which starts the list `ds`.
record Cancelled (d : ℕ) (s : State) (r : State × ℤ) (pp : Option ℕ) (ds xs : List ℕ) : Type 0 where
  answer : r.1 ≡ pos (if member d ds then 1 else 0)
  chain : Chain (read_link r.0) pp (remove d ds)
  frame :
      (k : Option ℕ)
      → same_key k pp ≡ false
      → has_key k ds ≡ false
      → read_link r.0 k ≡ read_link s k
  queue : IsQueue r.0 xs
  marks : (x : ℕ) → waits r.0 x ≡ (waits s x && not (x == d && member d ds))

module _ (d : ℕ) (s : State) (xs : List ℕ) (q : IsQueue s xs) where
  -- The work is the first of the list.
  unlinked :
      (pp : Option ℕ) (ds : List ℕ)
      → Chain (read_link s) pp (d ∷ ds)
      → has_key pp (d ∷ ds) ≡ false
      → IsDistinct (d ∷ ds)
      → Cancelled d s (unlink_delayed pp d s, pos 1) pp (d ∷ ds) xs
  unlinked pp ds h n i =
      let keys = has_key-cons pp d ds n in
      let here : d == d ≡ true = ground arith in
      record {
        answer = rw here refl;
        chain = rw here (
            Chain-same (read_link s) (read_link (unlink_delayed pp d s)) (some d) pp ds
              (unlink_delayed-read_link pp d pp s keys.0 keys.0 ∙ (rw (same_key_refl pp) refl))
              (λ x m.
                unlink_delayed-read_link pp d (some x) s keys.0 (member-other d x ds i.0 m)
                ∙ (rw (has_key-other pp x ds keys.1 m) refl))
              h.1);
        frame = λ k a b.
            unlink_delayed-read_link pp d k s keys.0 (has_key-cons k d ds b).0 ∙ (rw a refl);
        queue = unlink_delayed-IsQueue pp d s xs q;
        marks = λ x. unlink_delayed-waits pp d x s ∙ ground arith;
      }

  loop-Cancelled :
      (fuel : ℕ) (pp : Option ℕ) (ds : List ℕ)
      → Chain (read_link s) pp ds
      → has_key pp ds ≡ false
      → IsDistinct ds
      → length ds < fuel
      → Cancelled d s (cancel_loop fuel d pp s) pp ds xs
  unfolding cancel_loop
  loop-Cancelled zero pp ds h n i f = absurd (omega arith)
  loop-Cancelled (suc fuel) pp [] h n i f =
      rw (cancel_loop, h)
        (record {
          answer = refl;
          chain = h;
          frame = λ k a b. refl;
          queue = q;
          marks = λ x. ground arith;
        })
  loop-Cancelled (suc fuel) pp (e ∷ ds) h n i f = elim (Bool-cases (e == d)) [
    | inl same ↦
        let eq : e ≡ d = ground arith in
        let at : Cancelled d s (unlink_delayed pp d s, pos 1) pp (e ∷ ds) xs =
          subst
            (λ z.
              Chain (read_link s) pp (z ∷ ds)
              → has_key pp (z ∷ ds) ≡ false
              → IsDistinct (z ∷ ds)
              → Cancelled d s (unlink_delayed pp d s, pos 1) pp (z ∷ ds) xs)
            (sym eq) (unlinked pp ds) h n i in
        rw (cancel_loop, h.0, same) at
    | inr other ↦
        let keys = has_key-cons pp e ds n in
        let rest = loop-Cancelled fuel (some e) ds h.1 i.0 i.1 (omega arith) in
        let differ : d == e ≡ false = ground arith in
        rw (cancel_loop, h.0, other)
          (record {
            answer = rest.answer ∙ (rw differ refl);
            chain = rw other (rest.frame pp keys.0 keys.1 ∙ h.0, rest.chain);
            frame = λ k a b. let parts = has_key-cons k e ds b in rest.frame k parts.0 parts.1;
            queue = rest.queue;
            marks = λ x. rest.marks x ∙ (rw differ refl);
          })
  ]

same_member :
    (x d : ℕ) (ds : List ℕ)
    → (member x ds && not (x == d && member d ds)) ≡ (member x ds && not (x == d))
same_member x d ds = elim (Bool-cases (x == d)) [
  | inl e ↦
      let same : member x ds ≡ member d ds = ap (λ z. member z ds) (is_eq x d e) in
      ground (arith, same)
  | inr e ↦ ground arith
]

-- With fuel for the delayed works, the call takes the work out of their list and answers 1, or answers 0 if it is not
-- in the list, which then stays as it is; the queue stays as it is in both cases.
pub kernel_cancel_delayed_work-remove :
    (fuel d : ℕ) (s : State) (xs ds : List ℕ)
    → IsQueue s xs
    → IsDelayed s ds
    → length ds < fuel
    → ((kernel_cancel_delayed_work fuel (some d) s).1 ≡ pos (if member d ds then 1 else 0))
      × IsQueue (kernel_cancel_delayed_work fuel (some d) s).0 xs
      × IsDelayed (kernel_cancel_delayed_work fuel (some d) s).0 (remove d ds)
unfolding kernel_cancel_delayed_work
kernel_cancel_delayed_work-remove fuel d s xs ds q w f =
    let all = loop-Cancelled d s xs q fuel none ds w.chain refl w.distinct f in
    (
      all.answer,
      all.queue,
      record {
        chain = all.chain;
        listed = λ x.
            all.marks x ∙ (rw (w.listed x, member-remove d x ds w.distinct) (same_member x d ds));
        distinct = IsDistinct-remove d ds w.distinct;
      },
    )
