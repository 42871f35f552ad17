-- ===== src/Kernel/Frames/Victims.antt =====
-- What the page replacement policy takes out of its queue.
use rv32umos.Base.{
  ℕ, ◌^◌, ◌<◌, ◌≡◌, ◌≢◌, ◌⊎◌, inl, inr, ap, ◌∙◌, sym, arith, true, List, [], ◌∷◌, contains, pos,
  ◌==◌, Bool-cases,
}
use rv32umos.Kernel.Frames.{FrameInfo, find_victim}
use rv32umos.Kernel.Frames.Fifo.{NoneOwned}

-- A frame with an owner has been found, and `left` is the rest of the queue: every other frame of
-- the queue that has an owner is still in it.
pub record IsVictim (queue : List ℕ) (table : ℕ → FrameInfo) (victim : ℕ) (left : List ℕ)
    : Type 0 where
  pub found : find_victim queue table ≡ (left, pos victim)
  pub allocated : (table victim).allocated ≡ true
  pub listed : contains queue victim ≡ true
  pub fewer : (n : ℕ) → contains left n ≡ true → contains queue n ≡ true
  pub others :
      (n : ℕ)
      → n ≢ victim
      → (table n).allocated ≡ true
      → contains queue n ≡ true
      → contains left n ≡ true

pub find-IsVictim-cases :
    (queue : List ℕ) (table : ℕ → FrameInfo)
    → ((n : ℕ) → contains queue n ≡ true → n < 2 ^ 31)
    → NoneOwned queue table ⊎ ((victim : ℕ) × (left : List ℕ) × IsVictim queue table victim left)
unfolding find_victim
find-IsVictim-cases [] table small = inl (λ p q. cc)
find-IsVictim-cases (x ∷ xs) table small = elim (Bool-cases (table x).allocated) [
  | inl used ↦ inr (
    x,
    xs,
    record {
      found = rw used (ap (λ z. (xs, z)) (ground (arith, small x)));
      allocated = used;
      listed = ground arith;
      fewer = λ n q. ground arith;
      others = λ n d u q. ground arith;
    },
  )
  | inr unused ↦ elim (find-IsVictim-cases xs table (λ n q. small n (ground arith))) [
    | inl none ↦ inl (λ p q. elim (Bool-cases (p == x)) [
      | inl same ↦ ap (λ (t : ℕ). (table t).allocated) (ground arith) ∙ unused
      | inr other ↦ none p (ground arith)
    ])
    | inr (victim, left, v) ↦ inr (
      victim,
      left,
      record {
        found = rw unused v.found;
        allocated = v.allocated;
        listed = ground (arith, v.listed);
        fewer = λ n q. ground (arith, v.fewer n q);
        others = λ n d u q. elim (Bool-cases (n == x)) [
          | inl same ↦ absurd (
              cc (
                sym u,
                ap (λ (t : ℕ). (table t).allocated) {x = n} {y = x} (ground arith) ∙ unused,
              ))
          | inr other ↦ v.others n d u (ground arith)
        ];
      },
    )
  ]
]
