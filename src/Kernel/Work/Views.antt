-- ===== src/Kernel/Work/Views.antt =====
-- What the steps on delayed works do to the links, the due ticks and the marks.
use rhkernel.Prelude.{
  ℕ, ◌%◌, ◌≡◌, refl, ◌∙◌, Bool, true, false, not, ◌&&◌, ◌==◌, ltb, if◌then◌else◌, Option, none,
  some, List, [], ◌∷◌, arith,
}
use rhkernel.Prelude.Links.{same_key, member}
use rhkernel.Kernel.Work.{
  State, Delayed, set_work, set_delayed, is_busy, link_at_tail, append_work, read_link, write_link,
  unlink_delayed, postpone, work_pending,
}
use rhkernel.Kernel.Work.Queue.{links, flags, IsQueue, IsQueue-same, append_work-flags}

abbrev pub is_ready : ℕ → State → ℕ → Bool
is_ready now s d = not (ltb now (s.delayed d).due_tick) && not (is_busy s d)

-- The elements that pass a test.
abbrev pub pick : (ℕ → Bool) → List ℕ → List ℕ
pick f [] = []
pick f (x ∷ xs) = let rest = pick f xs in if f x then x ∷ rest else rest

pub pick-same :
    (f g : ℕ → Bool) (xs : List ℕ)
    → ((x : ℕ) → member x xs ≡ true → f x ≡ g x)
    → pick f xs ≡ pick g xs
pick-same f g [] h = refl
pick-same f g (x ∷ xs) h =
    let e : f x ≡ g x = h x (ground arith) in
    let rest = pick-same f g xs (λ y m. h y (ground arith)) in rw (e, rest) refl

-- Whether a delayed work is marked as pending.
abbrev pub waits : State → ℕ → Bool
waits s d = (s.delayed d).flags % 2 == 1

pub append_work-delayed : (w d : ℕ) (s : State) → (append_work w s).delayed d ≡ s.delayed d
unfolding append_work link_at_tail set_work
append_work-delayed w d s = at s.tail
  where
    at :
        (t : Option ℕ)
        → (link_at_tail t w
              (set_work w (record (s.works w) { next = none; flags = work_pending }) s)).delayed
            d
          ≡ s.delayed d
    at none = refl
    at (some x) = refl

pub append_work-read_link :
    (w : ℕ) (k : Option ℕ) (s : State) → read_link (append_work w s) k ≡ read_link s k
unfolding append_work link_at_tail set_work read_link
append_work-read_link w k s = at s.tail k
  where
    at :
        (t k : Option ℕ)
        → read_link
            (link_at_tail t w
              (set_work w (record (s.works w) { next = none; flags = work_pending }) s))
            k
          ≡ read_link s k
    at none none = refl
    at none (some i) = refl
    at (some x) none = refl
    at (some x) (some i) = refl

pub append_work-is_busy :
    (w x : ℕ) (s : State) → x == w ≡ false → is_busy (append_work w s) x ≡ is_busy s x
unfolding is_busy
append_work-is_busy w x s n =
    let e : flags (append_work w s) x ≡ flags s x = append_work-flags w s x ∙ (rw n refl) in
    rw e refl

pub unlink_delayed-read_link :
    (pp : Option ℕ) (d : ℕ) (k : Option ℕ) (s : State)
    → same_key pp (some d) ≡ false
    → same_key k (some d) ≡ false
    → read_link (unlink_delayed pp d s) k
      ≡ (if same_key k pp then read_link s (some d) else read_link s k)
unfolding unlink_delayed write_link set_delayed read_link
unlink_delayed-read_link none d none s n m = refl
unlink_delayed-read_link none d (some i) s n m = ground arith
unlink_delayed-read_link (some x) d none s n m = refl
unlink_delayed-read_link (some x) d (some i) s n m = ground arith

pub unlink_delayed-due_tick :
    (pp : Option ℕ) (d x : ℕ) (s : State)
    → ((unlink_delayed pp d s).delayed x).due_tick ≡ (s.delayed x).due_tick
unfolding unlink_delayed write_link set_delayed
unlink_delayed-due_tick none d x s = ground arith
unlink_delayed-due_tick (some y) d x s = ground arith

pub unlink_delayed-waits :
    (pp : Option ℕ) (d x : ℕ) (s : State)
    → waits (unlink_delayed pp d s) x ≡ (waits s x && not (x == d))
unfolding unlink_delayed write_link set_delayed
unlink_delayed-waits none d x s = ground arith
unlink_delayed-waits (some y) d x s = ground arith

-- The queue does not depend on the delayed works.
pub IsQueue-delayed :
    (s : State) (f : ℕ → Delayed) (h : Option ℕ) (xs : List ℕ)
    → IsQueue s xs
    → IsQueue (record s { delayed = f; delayed_head = h }) xs
IsQueue-delayed s f h xs q =
    IsQueue-same s (record s { delayed = f; delayed_head = h }) xs same refl (λ w. refl) refl q
  where
    same : (k : Option ℕ) → links (record s { delayed = f; delayed_head = h }) k ≡ links s k
    same none = refl
    same (some x) = refl

pub unlink_delayed-IsQueue :
    (pp : Option ℕ) (d : ℕ) (s : State) (xs : List ℕ)
    → IsQueue s xs
    → IsQueue (unlink_delayed pp d s) xs
unfolding unlink_delayed write_link set_delayed
unlink_delayed-IsQueue none d s xs q = IsQueue-delayed s _ _ xs q
unlink_delayed-IsQueue (some y) d s xs q = IsQueue-delayed s _ _ xs q

pub unlink_delayed-is_busy :
    (pp : Option ℕ) (d x : ℕ) (s : State) → is_busy (unlink_delayed pp d s) x ≡ is_busy s x
unfolding unlink_delayed write_link set_delayed is_busy
unlink_delayed-is_busy none d x s = refl
unlink_delayed-is_busy (some y) d x s = refl

pub postpone-IsQueue :
    (d now : ℕ) (s : State) (xs : List ℕ) → IsQueue s xs → IsQueue (postpone d now s) xs
unfolding postpone set_delayed
postpone-IsQueue d now s xs q = IsQueue-delayed s _ _ xs q

pub postpone-read_link :
    (d now : ℕ) (k : Option ℕ) (s : State) → read_link (postpone d now s) k ≡ read_link s k
unfolding postpone set_delayed read_link
postpone-read_link d now none s = refl
postpone-read_link d now (some x) s = ground arith

pub postpone-waits : (d now x : ℕ) (s : State) → waits (postpone d now s) x ≡ waits s x
unfolding postpone set_delayed
postpone-waits d now x s = ground arith

pub postpone-is_ready :
    (d now x : ℕ) (s : State)
    → x == d ≡ false
    → is_ready now (postpone d now s) x ≡ is_ready now s x
unfolding postpone set_delayed is_busy
postpone-is_ready d now x s n = rw n refl
