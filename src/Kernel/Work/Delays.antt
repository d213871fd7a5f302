-- ===== src/Kernel/Work/Delays.antt =====
-- `kernel_queue_delayed_work` and `kernel_cancel_delayed_work` on the list of delayed works.
use rhkernel.Prelude.{
  ℕ, zero, suc, ◌+◌, ◌%◌, ◌<◌, ◌≡◌, refl, sym, subst, ◌∙◌, Bool, true, false, not, ◌||◌, ◌==◌, leb,
  if◌then◌else◌, Option, none, some, List, [], ◌∷◌, length, arith, Bool-cases, inl, inr,
}
use rhkernel.Prelude.Int.{ℤ, pos, negsuc}
use rhkernel.Prelude.Links.{
  same_key, member, has_key, IsDistinct, Chain, Chain-same, has_key-cons, same_key_refl,
  same_key_comm, member-other, has_key-other,
}
use rhkernel.Kernel.Work.{
  State, set_delayed, read_link, write_link, find_place, insert_at, mark_delayed,
  kernel_queue_delayed_work, reject, u64,
}
use rhkernel.Kernel.Work.Queue.{IsQueue}
use rhkernel.Kernel.Work.Enqueue.{IsQueue-counters}
use rhkernel.Kernel.Work.Views.{waits, IsQueue-delayed}
use rhkernel.Kernel.Work.Ready.{IsDelayed}

-- The place behind the works that are due no later.
abbrev pub insert_due : (ℕ → ℕ) → ℕ → ℕ → List ℕ → List ℕ
insert_due due_of due d [] = d ∷ []
insert_due due_of due d (x ∷ xs) =
    let rest = insert_due due_of due d xs in if leb (due_of x) due then x ∷ rest else d ∷ x ∷ xs

insert_at-read_link :
    (pp : Option ℕ) (d : ℕ) (k : Option ℕ) (s : State)
    → same_key pp (some d) ≡ false
    → read_link (insert_at pp d s) k ≡ (
        if same_key k pp
        then some d
        else if same_key k (some d)
        then read_link s pp
        else read_link s k)
unfolding insert_at write_link set_delayed read_link
insert_at-read_link none d none s n = refl
insert_at-read_link none d (some i) s n = ground arith
insert_at-read_link (some x) d none s n = refl
insert_at-read_link (some x) d (some i) s n = ground arith

insert_at-waits : (pp : Option ℕ) (d x : ℕ) (s : State) → waits (insert_at pp d s) x ≡ waits s x
unfolding insert_at write_link set_delayed
insert_at-waits none d x s = ground arith
insert_at-waits (some y) d x s = ground arith

insert_at-IsQueue :
    (pp : Option ℕ) (d : ℕ) (s : State) (xs : List ℕ) → IsQueue s xs → IsQueue (insert_at pp d s) xs
unfolding insert_at write_link set_delayed
insert_at-IsQueue none d s xs q = IsQueue-delayed s _ _ xs q
insert_at-IsQueue (some y) d s xs q = IsQueue-delayed s _ _ xs q

-- What the insertion does from the link `pp` on.
record Inserted (s t : State) (pp : Option ℕ) (d : ℕ) (ds new : List ℕ) : Type 0 where
  chain : Chain (read_link t) pp new
  frame :
      (k : Option ℕ)
      → same_key k pp ≡ false
      → has_key k (d ∷ ds) ≡ false
      → read_link t k ≡ read_link s k

module _ (due d : ℕ) (s : State) where
  abbrev due_of : ℕ → ℕ
  due_of x = (s.delayed x).due_tick

  -- At the place that the search has found.
  here :
      (pp : Option ℕ) (ds : List ℕ)
      → Chain (read_link s) pp ds
      → same_key pp (some d) ≡ false
      → has_key pp ds ≡ false
      → member d ds ≡ false
      → Inserted s (insert_at pp d s) pp d ds (d ∷ ds)
  here pp ds h n a f =
      let swapped : same_key (some d) pp ≡ false = same_key_comm (some d) pp ∙ n in
      record {
        chain = (
          insert_at-read_link pp d pp s n ∙ (rw (same_key_refl pp) refl),
          Chain-same (read_link s) (read_link (insert_at pp d s)) pp (some d) ds
              (insert_at-read_link pp d (some d) s n ∙ (rw (swapped, same_key_refl (some d)) refl))
              (λ x m.
                insert_at-read_link pp d (some x) s n
                ∙ (rw (has_key-other pp x ds a m, member-other d x ds f m) refl))
              h,
        );
        frame = λ k b c.
            let keys = has_key-cons k d ds c in
            insert_at-read_link pp d k s n ∙ (rw (b, keys.0) refl);
      }

  find-Inserted :
      (fuel : ℕ) (pp : Option ℕ) (ds : List ℕ)
      → Chain (read_link s) pp ds
      → same_key pp (some d) ≡ false
      → has_key pp ds ≡ false
      → member d ds ≡ false
      → IsDistinct ds
      → length ds < fuel
      → Inserted s (insert_at (find_place fuel due pp s) d s) pp d ds (insert_due due_of due d ds)
  unfolding find_place
  find-Inserted zero pp ds h n a f i m = absurd (omega arith)
  find-Inserted (suc fuel) pp [] h n a f i m = rw (find_place, h) (here pp [] h n a f)
  find-Inserted (suc fuel) pp (x ∷ ds) h n a f i m = elim (Bool-cases (leb (due_of x) due)) [
    | inr later ↦ rw (find_place, h.0, later) (here pp (x ∷ ds) h n a f)
    | inl sooner ↦
        let keys = has_key-cons pp x ds a in
        let rest =
          find-Inserted fuel (some x) ds h.1 (ground arith) i.0 (ground arith) i.1 (omega arith) in
        rw (find_place, h.0, sooner)
          (record {
            chain = (rest.frame pp keys.0 (outside pp n keys.1) ∙ h.0, rest.chain);
            frame = λ k b c. rest.frame k (not_first k c) (not_rest k c);
          })
  ]
    where
      outside :
          (k : Option ℕ)
          → same_key k (some d) ≡ false
          → has_key k ds ≡ false
          → has_key k (d ∷ ds) ≡ false
      outside none b c = refl
      outside (some y) b c = ground arith

      not_first : (k : Option ℕ) → has_key k (d ∷ x ∷ ds) ≡ false → same_key k (some x) ≡ false
      not_first none c = refl
      not_first (some y) c = ground arith

      not_rest : (k : Option ℕ) → has_key k (d ∷ x ∷ ds) ≡ false → has_key k (d ∷ ds) ≡ false
      not_rest none c = refl
      not_rest (some y) c = ground arith

member-insert_due :
    (f : ℕ → ℕ) (due d x : ℕ) (xs : List ℕ)
    → member x (insert_due f due d xs) ≡ (x == d || member x xs)
member-insert_due f due d x [] = refl
member-insert_due f due d x (y ∷ ys) = ground (arith, member-insert_due f due d x ys)

IsDistinct-insert_due :
    (f : ℕ → ℕ) (due d : ℕ) (xs : List ℕ)
    → IsDistinct xs
    → member d xs ≡ false
    → IsDistinct (insert_due f due d xs)
IsDistinct-insert_due f due d [] i n = (refl, tt)
IsDistinct-insert_due f due d (y ∷ ys) i n = elim (Bool-cases (leb (f y) due)) [
  | inl e ↦ rw e (
    member-insert_due f due d y ys ∙ ground (arith, i.0),
    IsDistinct-insert_due f due d ys i.1 (ground arith),
  )
  | inr e ↦ rw e (n, i)
]

insert_due-same :
    (f g : ℕ → ℕ) (due d : ℕ) (xs : List ℕ)
    → ((x : ℕ) → member x xs ≡ true → f x ≡ g x)
    → insert_due f due d xs ≡ insert_due g due d xs
insert_due-same f g due d [] h = refl
insert_due-same f g due d (y ∷ ys) h =
    let e : f y ≡ g y = h y (ground arith) in
    rw (e, insert_due-same f g due d ys (λ x m. h x (ground arith))) refl

mark_delayed-read_link :
    (d due : ℕ) (k : Option ℕ) (s : State) → read_link (mark_delayed d due s) k ≡ read_link s k
unfolding mark_delayed set_delayed read_link
mark_delayed-read_link d due none s = refl
mark_delayed-read_link d due (some x) s = ground arith

mark_delayed-waits :
    (d due x : ℕ) (s : State) → waits (mark_delayed d due s) x ≡ (x == d || waits s x)
unfolding mark_delayed set_delayed
mark_delayed-waits d due x s = ground arith

mark_delayed-due_tick :
    (d due x : ℕ) (s : State)
    → x == d ≡ false
    → ((mark_delayed d due s).delayed x).due_tick ≡ (s.delayed x).due_tick
unfolding mark_delayed set_delayed
mark_delayed-due_tick d due x s n = ground arith

mark_delayed-IsQueue :
    (d due : ℕ) (s : State) (xs : List ℕ) → IsQueue s xs → IsQueue (mark_delayed d due s) xs
unfolding mark_delayed set_delayed
mark_delayed-IsQueue d due s xs q = IsQueue-delayed s _ _ xs q

-- The state with the work in its place.
abbrev placed : ℕ → ℕ → ℕ → State → State
placed fuel due d s =
    insert_at (find_place fuel due none (mark_delayed d due s)) d (mark_delayed d due s)

placed-IsDelayed :
    (fuel due d : ℕ) (s : State) (ds : List ℕ)
    → IsDelayed s ds
    → waits s d ≡ false
    → length ds < fuel
    → IsDelayed (placed fuel due d s) (insert_due (λ x. (s.delayed x).due_tick) due d ds)
placed-IsDelayed fuel due d s ds w n f =
    let marked = mark_delayed d due s in
    let absent : member d ds ≡ false = sym (w.listed d) ∙ n in
    let same =
      insert_due-same (λ x. (marked.delayed x).due_tick) (λ x. (s.delayed x).due_tick) due d ds
        (λ x m. mark_delayed-due_tick d due x s (member-other d x ds absent m)) in
    let all =
      find-Inserted due d marked fuel none ds
        (Chain-same (read_link s) (read_link marked) none none ds
          (mark_delayed-read_link d due none s) (λ x m. mark_delayed-read_link d due (some x) s)
          w.chain)
        refl refl absent w.distinct f in
    record {
      chain = subst (Chain (read_link (placed fuel due d s)) none) same all.chain;
      listed = λ x.
          insert_at-waits (find_place fuel due none marked) d x marked
          ∙ mark_delayed-waits d due x s
          ∙ (rw (w.listed x, member-insert_due (λ y. (s.delayed y).due_tick) due d x ds) refl);
      distinct = IsDistinct-insert_due (λ y. (s.delayed y).due_tick) due d ds w.distinct absent;
    }

-- What the call answers.
abbrev pub delay_answer : State → ℕ → ℤ
delay_answer s d =
    if not (s.works d).callable
    then negsuc 0
    else if not s.initialized
    then negsuc 2
    else if waits s d || (s.works d).flags % 2 == 1
    then negsuc 1
    else pos 0

abbrev pub accepted_delay : ℤ → List ℕ → List ℕ → List ℕ
accepted_delay (pos n) new ds = new
accepted_delay (negsuc n) new ds = ds

-- With fuel for the delayed works, the call puts a work with a function, that waits neither with a delay nor in the
-- queue, into the list of delayed works behind those that are due no later, and answers 0; else it leaves the list as
-- it is and answers -1 for a work with no function, -3 before the initialisation, and -2 for a work that waits. The
-- queue stays as it is.
pub kernel_queue_delayed_work-insert_due :
    (fuel ticks d delay : ℕ) (s : State) (xs ds : List ℕ)
    → IsQueue s xs
    → IsDelayed s ds
    → length ds < fuel
    → ((kernel_queue_delayed_work fuel ticks (some d) delay s).1 ≡ delay_answer s d)
      × IsQueue (kernel_queue_delayed_work fuel ticks (some d) delay s).0 xs
      × IsDelayed (kernel_queue_delayed_work fuel ticks (some d) delay s).0 (
          accepted_delay
            (delay_answer s d)
            (insert_due (λ x. (s.delayed x).due_tick) (u64 (ticks + delay)) d ds)
            ds)
unfolding kernel_queue_delayed_work reject read_link
kernel_queue_delayed_work-insert_due fuel ticks d delay s xs ds q w f =
    let e : (waits s d || (s.works d).flags % 2 == 1)
        ≡ (not ((s.delayed d).flags % 2 == 0) || not ((s.works d).flags % 2 == 0)) =
      ground arith in
    rw e (
      by_tests (s.works d).callable s.initialized
        (not ((s.delayed d).flags % 2 == 0) || not ((s.works d).flags % 2 == 0))
        (λ h. placed-IsDelayed fuel due d s ds w (ground arith) f))
  where
    due : ℕ
    due = u64 (ticks + delay)

    verdict : Bool → Bool → Bool → ℤ
    verdict c i b =
        if not c then negsuc 0 else if not i then negsuc 2 else if b then negsuc 1 else pos 0

    outcome : Bool → Bool → Bool → State × ℤ
    outcome c i b =
        if not c
        then (s, negsuc 0)
        else if not i
        then (s, negsuc 2)
        else if b
        then (reject s, negsuc 1)
        else (placed fuel due d s, pos 0)

    new : List ℕ
    new = insert_due (λ x. (s.delayed x).due_tick) due d ds

    same_list : IsDelayed (reject s) ds
    same_list = record {
      chain =
          Chain-same (read_link s) (read_link (reject s)) none none ds refl (λ x m. refl) w.chain;
      listed = w.listed;
      distinct = w.distinct;
    }

    by_tests :
        (c i b : Bool)
        → (b ≡ false → IsDelayed (placed fuel due d s) new)
        → ((outcome c i b).1 ≡ verdict c i b)
          × IsQueue (outcome c i b).0 xs
          × IsDelayed (outcome c i b).0 (accepted_delay (verdict c i b) new ds)
    by_tests false i b h = (refl, q, w)
    by_tests true false b h = (refl, q, w)
    by_tests true true true h = (refl, IsQueue-counters s _ xs refl q, same_list)
    by_tests true true false h = (
      refl,
      insert_at-IsQueue (find_place fuel due none (mark_delayed d due s)) d (mark_delayed d due s)
          xs (mark_delayed-IsQueue d due s xs q),
      h refl,
    )
