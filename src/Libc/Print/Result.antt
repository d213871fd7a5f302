-- ===== src/Libc/Print/Result.antt =====
-- What `vsnprintf` returns and what it leaves in the buffer.
use rhkernel.Prelude.{
  ℕ, ◌+◌, ◌-◌, ◌^◌, ◌<◌, ◌≡◌, ◌∙◌, ap, ap₂, fun_ext, leb, ltb, ◌==◌, ◌&&◌, if◌then◌else◌, List,
  length, get_or, min, arith, Bool-cases, inl, inr,
}
use rhkernel.Libc.Memory.{Memory, fill}
use rhkernel.Libc.Text.{IsString}
use rhkernel.Libc.Print.{Outbuf, end_output, vsnprintf}
use rhkernel.Libc.Print.Emit.{placed, emitted, out_list-emitted}
use rhkernel.Libc.Print.Meaning.{meaning}
use rhkernel.Libc.Print.Shown.{format_text-meaning}
use rhkernel.Libc.Print.Format.{plain, format_text, format_loop-text}

-- A buffer of `size` bytes at `buf` that holds what fits of `text` and a zero byte; a buffer of no bytes is left alone.
unfoldable pub terminated : ℕ → ℕ → List ℕ → Memory → Memory
terminated buf size text memory a =
    let end = buf + min (length text) (size - 1) in
    if size == 0
    then memory a
    else if a == end
    then 0
    else if leb buf a && ltb a end
    then get_or text (a - buf) 0
    else memory a

end_output-terminated :
    (buf size : ℕ) (text : List ℕ) (memory : Memory)
    → end_output (emitted text (record { buf = buf; size = size; used = 0; memory = memory }))
      ≡ terminated buf size text memory
unfolding end_output terminated placed fill
end_output-terminated buf size text memory = fun_ext λ a.
    let off : a - (buf + 0) ≡ a - buf = omega arith in
    elim (Bool-cases (size == 0)) [
      | inl e ↦ rw (e, off) (ground arith)
      | inr e ↦ rw (e, off) (ground arith)
    ]

-- The result and the buffer, by the text of the code.
pub vsnprintf-format_text :
    (fuel buf size : ℕ) (m : Memory) (fmt : ℕ) (fs args : List ℕ) (memory : Memory)
    → IsString m fmt fs
    → length fs < fuel
    → vsnprintf fuel buf size m fmt args memory ≡ (
      min (length (format_text fuel m plain fs args)) (2 ^ 31 - 1),
      terminated buf size (format_text fuel m plain fs args) memory,
    )
unfolding vsnprintf
vsnprintf-format_text fuel buf size m fmt fs args memory h k =
    let text = format_text fuel m plain fs args in
    let start : Outbuf = record { buf = buf; size = size; used = 0; memory = memory } in
    rw (format_loop-text fuel m fuel fmt fs args start h k, out_list-emitted text start)
      (ap₂ (λ (x : ℕ) (y : Memory). (x, y)) (ground arith)
        (end_output-terminated buf size text memory))

-- For a format of fewer than `fuel` characters, vsnprintf returns the length of the text that the format stands for, or
-- the largest `int` if that is less, and leaves in the buffer what fits of the text, a zero byte behind it, and the other bytes
-- of the memory as they were. A string argument counts with at most its first `fuel` bytes.
pub vsnprintf-text :
    (fuel buf size : ℕ) (m : Memory) (fmt : ℕ) (fs args : List ℕ) (memory : Memory)
    → IsString m fmt fs
    → length fs < fuel
    → vsnprintf fuel buf size m fmt args memory ≡ (
      min (length (meaning fuel m plain fs args)) (2 ^ 31 - 1),
      terminated buf size (meaning fuel m plain fs args) memory,
    )
vsnprintf-text fuel buf size m fmt fs args memory h k =
    let same = format_text-meaning fuel m plain fs args in
    vsnprintf-format_text fuel buf size m fmt fs args memory h k
    ∙ ap (λ (text : List ℕ). (min (length text) (2 ^ 31 - 1), terminated buf size text memory)) same
