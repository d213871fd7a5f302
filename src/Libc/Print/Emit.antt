-- ===== src/Libc/Print/Emit.antt =====
-- What a row of characters leaves in the buffer.
use rhkernel.Prelude.{
  ℕ, suc, ◌+◌, ◌-◌, ◌≡◌, refl, sym, ap, fun_ext, ◌∙◌, not, ◌&&◌, ltb, ◌==◌, if◌then◌else◌, List, [],
  ◌∷◌, ◌++◌, length, get_or, arith, Bool-cases, inl, inr,
}
use rhkernel.Libc.Memory.{Memory, fill, within}
use rhkernel.Libc.Print.{Outbuf, out_ch, out_list}

-- The byte at `a` behind the output of `cs`: the characters that fit below the last place of the buffer.
unfoldable pub placed : List ℕ → Outbuf → Memory
placed cs out a =
    let i = a - (out.buf + out.used) in
    if within (out.buf + out.used) (length cs) a && ltb (out.used + i + 1) out.size
    then get_or cs i 0
    else out.memory a

abbrev pub emitted : List ℕ → Outbuf → Outbuf
emitted cs out = record out { used = out.used + length cs; memory = placed cs out }

placed-nil : (out : Outbuf) → placed [] out ≡ out.memory
unfolding placed
placed-nil out = fun_ext λ a. ground arith

-- `out_ch` by its fields.
abbrev stored : ℕ → Outbuf → Memory
stored c out a = if a == out.buf + out.used && ltb (out.used + 1) out.size then c else out.memory a

out_ch-stored :
    (c : ℕ) (out : Outbuf)
    → out_ch c out ≡ record out { memory = stored c out; used = out.used + 1 }
unfolding out_ch fill
out_ch-stored c out = elim (Bool-cases (not (out.size == 0) && ltb (out.used + 1) out.size)) [
  | inl e ↦ rw e (
      ap (λ (m : Memory). record out { memory = m; used = out.used + 1 })
        (fun_ext λ a. ground arith))
  | inr e ↦ rw e (
      ap (λ (m : Memory). record out { memory = m; used = out.used + 1 })
        (fun_ext λ a. ground arith))
]

placed-stored :
    (c : ℕ) (cs : List ℕ) (out : Outbuf)
    → placed cs (record out { memory = stored c out; used = out.used + 1 }) ≡ placed (c ∷ cs) out
unfolding placed
placed-stored c cs out = fun_ext λ a. elim (Bool-cases (a == out.buf + out.used)) [
  | inl here ↦
      let zero_off : a - (out.buf + out.used) ≡ 0 = ground arith in rw zero_off (ground arith)
  | inr other ↦ elim (Bool-cases (ltb a (out.buf + out.used))) [
    | inl below ↦ ground arith
    | inr above ↦
        let next_off : a - (out.buf + out.used) ≡ suc (a - (out.buf + (out.used + 1))) =
          ground arith in
        rw next_off (ground arith)
  ]
]

-- The output of a list is what `placed` says.
pub out_list-emitted : (cs : List ℕ) (out : Outbuf) → out_list cs out ≡ emitted cs out
unfolding out_list
out_list-emitted [] out =
    let u : out.used ≡ out.used + 0 = omega arith in
    ap (λ (m : Memory). record out { memory = m }) (sym (placed-nil out))
    ∙ ap (λ (n : ℕ). record out { used = n; memory = placed [] out }) u
out_list-emitted (c ∷ cs) out =
    let u : out.used + 1 + length cs ≡ out.used + suc (length cs) = omega arith in
    ap (out_list cs) (out_ch-stored c out)
    ∙ out_list-emitted cs (record out { memory = stored c out; used = out.used + 1 })
    ∙ ap (λ (m : Memory). record out { used = out.used + 1 + length cs; memory = m })
        (placed-stored c cs out)
    ∙ ap (λ (n : ℕ). record out { used = n; memory = placed (c ∷ cs) out }) u

pub out_list-append :
    (cs ds : List ℕ) (out : Outbuf) → out_list (cs ++ ds) out ≡ out_list ds (out_list cs out)
unfolding out_list
out_list-append [] ds out = refl
out_list-append (c ∷ cs) ds out = out_list-append cs ds (out_ch c out)
