-- ===== src/Kernel/Process/Code.antt =====
-- Where the code of a program lies.
use rv32umos.Base.{
  ℕ, ◌+◌, ◌<◌, ◌≤◌, ◌≡◌, ◌≢◌, ◌⊎◌, refl, arith, true, false, not, ◌&&◌, ◌==◌, List, [], ◌∷◌,
  bit_and, Bool-cases, inl, inr,
}
use rv32umos.Vm.PageTable.{pf_x}
use rv32umos.Kernel.Process.{Segment, in_segment, is_executable}

-- An address in a segment that the program may execute.
pub IsCode : List Segment → ℕ → Type 0
IsCode [] pc = ⊥
IsCode (seg ∷ segs) pc =
    ((seg.vaddr ≤ pc) × (pc < seg.vaddr + seg.mem_size) × (bit_and seg.flags pf_x ≢ 0))
    ⊎ IsCode segs pc

not_nil : (pc : ℕ) → ¬ IsCode [] pc
unfolding IsCode
not_nil pc h = h

not_cons :
    (seg : Segment) (segs : List Segment) (pc : ℕ)
    → in_segment seg pc && not (bit_and seg.flags pf_x == 0) ≡ false
    → ¬ IsCode segs pc
    → ¬ IsCode (seg ∷ segs) pc
unfolding IsCode
not_cons seg segs pc other later (inl (low, high, flag)) = ground (arith, low, high, flag, other)
not_cons seg segs pc other later (inr code) = later code

-- The loop over the segments tells whether the entry may be executed.
pub is_executable-IsCode :
    (segs : List Segment) (pc : ℕ)
    → ((is_executable segs pc ≡ true) × IsCode segs pc)
      ⊎ ((is_executable segs pc ≡ false) × (¬ IsCode segs pc))
unfolding is_executable IsCode
is_executable-IsCode [] pc = inr (refl, not_nil pc)
is_executable-IsCode (seg ∷ segs) pc =
    elim (Bool-cases (in_segment seg pc && not (bit_and seg.flags pf_x == 0))) [
      | inl here ↦ inl (
        rw here refl,
        inl (
          ground (arith, here),
          ground (arith, here),
          (λ no_flag. ground (arith, here, no_flag)),
        ),
      )
      | inr other ↦ elim (is_executable-IsCode segs pc) [
        | inl (e, code) ↦ inl (rw (other, e) refl, inr code)
        | inr (e, none_later) ↦ inr (rw (other, e) refl, not_cons seg segs pc other none_later)
      ]
    ]
