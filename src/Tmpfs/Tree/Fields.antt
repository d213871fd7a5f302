-- ===== src/Tmpfs/Tree/Fields.antt =====
-- What the assignments to a node leave as it was.
use rhkernel.Prelude.{
  ℕ, ◌≡◌, refl, sym, ap, ◌∙◌, Bool, true, false, ◌==◌, if◌then◌else◌, Option, none, some, List,
  arith, Bool-cases, inl, inr,
}
use rhkernel.Prelude.Links.{write, has_key, Chain, Chain-same, member-other}
use rhkernel.Prelude.Links.Remove.{is_eq}
use rhkernel.Tmpfs.Tree.{Entry, Tree, set_node}
use rhkernel.Tmpfs.Tree.Calls.{read_link, write_link}

-- A field that an assignment leaves as it was.
pub set_node-field :
    {B : Type 0} (f : Entry → B) (n : ℕ) (e : Entry) (t : Tree) (x : ℕ)
    → f e ≡ f (t.nodes n)
    → f ((set_node n e t).nodes x) ≡ f (t.nodes x)
unfolding set_node
set_node-field f n e t x h = elim (Bool-cases (x == n)) [
  | inl g ↦ rw g (h ∙ ap (λ y. f (t.nodes y)) (sym (is_eq x n g)))
  | inr g ↦ rw g refl
]

pub set_node-here :
    (n : ℕ) (e : Entry) (t : Tree) (x : ℕ) → x == n ≡ true → (set_node n e t).nodes x ≡ e
unfolding set_node
set_node-here n e t x g = rw g refl

pub set_node-other :
    (n : ℕ) (e : Entry) (t : Tree) (x : ℕ) → x == n ≡ false → (set_node n e t).nodes x ≡ t.nodes x
unfolding set_node
set_node-other n e t x g = rw g refl

pick_true : {b : Bool} → b ≡ true → (x y : Option ℕ) → (if b then x else y) ≡ x
pick_true e x y = rw e refl

pick_false : {b : Bool} → b ≡ false → (x y : Option ℕ) → (if b then x else y) ≡ y
pick_false e x y = rw e refl

pub write_link-read_link :
    (dir : ℕ) (p v : Option ℕ) (t : Tree) (k : Option ℕ)
    → read_link dir (write_link dir p v t) k ≡ write p v (read_link dir t) k
unfolding read_link write_link set_node
write_link-read_link dir none v t none = ground arith
write_link-read_link dir none v t (some x) =
    set_node-field (λ (y : Entry). y.next) dir (record (t.nodes dir) { children = v }) t x refl
write_link-read_link dir (some n) v t none =
    set_node-field (λ (y : Entry). y.children) n (record (t.nodes n) { next = v }) t dir refl
write_link-read_link dir (some n) v t (some x) = elim (Bool-cases (x == n)) [
  | inl e ↦
      let old = t.nodes n in
      ap (λ (y : Entry). y.next) (set_node-here n (record old { next = v }) t x e)
      ∙ sym (pick_true e v ((t.nodes x).next))
  | inr e ↦
      let old = t.nodes n in
      ap (λ (y : Entry). y.next) (set_node-other n (record old { next = v }) t x e)
      ∙ sym (pick_false e v ((t.nodes x).next))
]

-- The fields that no link holds.
pub write_link-field :
    {B : Type 0} (f : Entry → B) (dir : ℕ) (p v : Option ℕ) (t : Tree) (x : ℕ)
    → ((y : Entry) (v : Option ℕ) → f (record y { next = v }) ≡ f y)
    → ((y : Entry) (v : Option ℕ) → f (record y { children = v }) ≡ f y)
    → f ((write_link dir p v t).nodes x) ≡ f (t.nodes x)
unfolding write_link
write_link-field f dir none v t x h k =
    set_node-field f dir (record (t.nodes dir) { children = v }) t x (k (t.nodes dir) v)
write_link-field f dir (some n) v t x h k =
    set_node-field f n (record (t.nodes n) { next = v }) t x (h (t.nodes n) v)

-- The links of another directory are those of other nodes.
pub write_link-elsewhere :
    (dir d : ℕ) (p v : Option ℕ) (t : Tree) (xs : List ℕ)
    → d == dir ≡ false
    → has_key p xs ≡ false
    → Chain (read_link d t) none xs
    → Chain (read_link d (write_link dir p v t)) none xs
unfolding write_link read_link
write_link-elsewhere dir d none v t xs o f h =
    Chain-same (read_link d t) (read_link d (write_link dir none v t)) none none xs
      (ap (λ (y : Entry). y.children) (set_node-other dir _ t d o))
      (λ x m.
        set_node-field (λ (y : Entry). y.next) dir (record (t.nodes dir) { children = v }) t x refl)
      h
write_link-elsewhere dir d (some n) v t xs o f h =
    Chain-same (read_link d t) (read_link d (write_link dir (some n) v t)) none none xs
      (set_node-field (λ (y : Entry). y.children) n (record (t.nodes n) { next = v }) t d refl)
      (λ x m. ap (λ (y : Entry). y.next) (set_node-other n _ t x (member-other n x xs f m))) h

pub write_link-live :
    (dir : ℕ) (q v : Option ℕ) (t : Tree) (x : ℕ) → (write_link dir q v t).live x ≡ t.live x
unfolding write_link set_node
write_link-live dir none v t x = refl
write_link-live dir (some n) v t x = refl
