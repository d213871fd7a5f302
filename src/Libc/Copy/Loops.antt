-- ===== src/Libc/Copy/Loops.antt =====
-- The loops of the copies: each moves what it takes off `left`, so the whole move that is due stays the same.
use rhkernel.Prelude.{
  ℕ, zero, suc, ◌+◌, ◌-◌, ◌*◌, ◌≤◌, ◌<◌, ◌≡◌, refl, sym, ◌∙◌, ap, ◌&&◌, leb, arith,
}
use rhkernel.Prelude.{while_inv}
use rhkernel.Libc.Memory.{Memory, move}
use rhkernel.Libc.Memory.Regions.{Forward, move-zero, move-add_up, move-add_down, move_eq}
use rhkernel.Libc.Copy.{
  Copying, lanes_up, lanes_down, copy_up, copy_down, blocks_up, blocks_down, align_up_to_word,
  align_down_to_word, unaligned, word_bytes,
}

lanes_up-move :
    (count width d s : ℕ) (m : Memory)
    → Forward d s (count * width)
    → lanes_up count width d s m ≡ move (count * width) d s m
unfolding lanes_up
lanes_up-move zero width d s m h = sym (move-zero d s m) ∙ move_eq m (omega arith) refl refl
lanes_up-move (suc count) width d s m h =
    lanes_up-move count width (d + width) (s + width) (move width d s m) (omega arith)
    ∙ move-add_up width (count * width) d s m (omega arith)
    ∙ move_eq m (omega arith) refl refl

lanes_down-move :
    (count width d s : ℕ) (m : Memory)
    → s ≤ d
    → lanes_down count width d s m ≡ move (count * width) d s m
unfolding lanes_down
lanes_down-move zero width d s m h = sym (move-zero d s m) ∙ move_eq m (omega arith) refl refl
lanes_down-move (suc count) width d s m h =
    rw (lanes_down-move count width (d + width) (s + width) m (omega arith))
      (move-add_down width (count * width) d s m h ∙ move_eq m (omega arith) refl refl)

-- What is still to be moved by a forward loop gives `target`.
pub record DueUp (target : Memory) (c : Copying) : Type 0 where
  pub due : move c.left c.dst c.src c.memory ≡ target
  pub safe : Forward c.dst c.src c.left

pub record DueDown (target : Memory) (c : Copying) : Type 0 where
  pub due : move c.left (c.dst - c.left) (c.src - c.left) c.memory ≡ target
  pub room_dst : c.left ≤ c.dst
  pub room_src : c.left ≤ c.src
  pub safe : c.src ≤ c.dst

copy_up-DueUp :
    {target : Memory} {c : Copying} (count width : ℕ)
    → count * width ≤ c.left
    → DueUp target c
    → DueUp target (copy_up count width c)
unfolding copy_up
copy_up-DueUp {target} {c} count width fits h = record {
  due = rw (lanes_up-move count width c.dst c.src c.memory (omega arith)) (
      move-add_up (count * width) (c.left - count * width) c.dst c.src c.memory (omega arith)
      ∙ move_eq c.memory (omega arith) refl refl
      ∙ h.due);
  safe = omega arith;
}

copy_down-DueDown :
    {target : Memory} {c : Copying} (count width : ℕ)
    → count * width ≤ c.left
    → DueDown target c
    → DueDown target (copy_down count width c)
unfolding copy_down
copy_down-DueDown {target} {c} count width fits h = record {
  due =
      rw
        (lanes_down-move count width (c.dst - count * width) (c.src - count * width) c.memory
          (omega arith))
        (move_eq _ refl (omega arith) (omega arith)
          ∙ ap (move (c.left - count * width) (c.dst - c.left) (c.src - c.left))
              (move_eq c.memory refl top_dst top_src)
          ∙ move-add_down (c.left - count * width) (count * width) (c.dst - c.left) (c.src - c.left)
              c.memory (omega arith)
          ∙ move_eq c.memory (omega arith) refl refl
          ∙ h.due);
  room_dst = omega arith;
  room_src = omega arith;
  safe = omega arith;
}
  where
    top_dst : c.dst - count * width ≡ c.dst - c.left + (c.left - count * width)
    top_dst = omega arith

    top_src : c.src - count * width ≡ c.src - c.left + (c.left - count * width)
    top_src = omega arith

-- A loop round such a body keeps what is due, and ends below one block.
module _ (target : Memory) (count width : ℕ) (pos : 1 ≤ count * width) where
  pub blocks_up-DueUp :
      {c : Copying}
      → DueUp target c
      → DueUp target (blocks_up count width c) × ((blocks_up count width c).left < count * width)
  unfolding blocks_up
  blocks_up-DueUp {c} h =
      let kept =
        while_inv (DueUp target) (λ x. x.left) (λ x. leb (count * width) x.left)
          (copy_up count width)
          (λ x p t. (copy_up-DueUp count width (ground arith) p, unfold copy_up in ground arith))
          (suc c.left) c (omega arith) h in
      (kept.0, ground (arith, kept.1))

  pub blocks_down-DueDown :
      {c : Copying}
      → DueDown target c
      → DueDown target (blocks_down count width c)
        × ((blocks_down count width c).left < count * width)
  unfolding blocks_down
  blocks_down-DueDown {c} h =
      let kept =
        while_inv (DueDown target) (λ x. x.left) (λ x. leb (count * width) x.left)
          (copy_down count width)
          (λ x p t.
            (copy_down-DueDown count width (ground arith) p, unfold copy_down in ground arith))
          (suc c.left) c (omega arith) h in
      (kept.0, ground (arith, kept.1))

module _ (target : Memory) where
  pub align_up_to_word-DueUp : {c : Copying} → DueUp target c → DueUp target (align_up_to_word c)
  unfolding align_up_to_word
  align_up_to_word-DueUp {c} h =
      (while_inv (DueUp target) (λ x. x.left) (λ x. leb 1 x.left && unaligned word_bytes x.dst)
        (copy_up 1 1)
        (λ x p t. (copy_up-DueUp 1 1 (ground arith) p, unfold copy_up in ground arith)) (suc c.left)
        c (omega arith) h).0

  pub align_down_to_word-DueDown :
      {c : Copying} → DueDown target c → DueDown target (align_down_to_word c)
  unfolding align_down_to_word
  align_down_to_word-DueDown {c} h =
      (while_inv (DueDown target) (λ x. x.left) (λ x. leb 1 x.left && unaligned word_bytes x.dst)
        (copy_down 1 1)
        (λ x p t. (copy_down-DueDown 1 1 (ground arith) p, unfold copy_down in ground arith))
        (suc c.left) c (omega arith) h).0

  -- When nothing is left, the memory is the target.
  pub done_up : {c : Copying} → DueUp target c → c.left < 1 → c.memory ≡ target
  done_up {c} h z =
      sym (move-zero c.dst c.src c.memory) ∙ move_eq c.memory (omega arith) refl refl ∙ h.due

  pub done_down : {c : Copying} → DueDown target c → c.left < 1 → c.memory ≡ target
  done_down {c} h z =
      sym (move-zero (c.dst - c.left) (c.src - c.left) c.memory)
      ∙ move_eq c.memory (omega arith) refl refl
      ∙ h.due
