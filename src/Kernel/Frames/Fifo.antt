-- ===== src/Kernel/Frames/Fifo.antt =====
-- The page replacement policy evicts in order of allocation.
use rv32umos.Base.{
  ℕ, ◌^◌, ◌<◌, ◌≡◌, refl, ap, arith, true, false, List, [], ◌∷◌, ◌++◌, contains, pos, negsuc,
}
use rv32umos.Kernel.Frames.{FrameInfo, find_victim}

-- None of the frames in a list has an owner.
abbrev pub NoneOwned : List ℕ → (ℕ → FrameInfo) → Type 0
NoneOwned queue table = (p : ℕ) → contains queue p ≡ true → (table p).allocated ≡ false

-- Where some frame of the queue has an owner, the victim is the oldest such frame; it and the frames
-- before it leave the queue, and the others stay in their order.
pub find_victim-oldest :
    (before rest : List ℕ) (victim : ℕ) (table : ℕ → FrameInfo)
    → NoneOwned before table
    → (table victim).allocated ≡ true
    → victim < 2 ^ 31
    → find_victim (before ++ (victim ∷ rest)) table ≡ (rest, pos victim)
unfolding find_victim
find_victim-oldest [] rest victim table none owned lt =
    rw owned (ap (λ z. (rest, z)) (ground arith))
find_victim-oldest (x ∷ xs) rest victim table none owned lt =
    rw (none x (ground arith))
      (find_victim-oldest xs rest victim table (λ p q. none p (ground arith)) owned lt)

-- Where none has, the policy empties the queue and finds no victim.
pub find_victim-none :
    (queue : List ℕ) (table : ℕ → FrameInfo)
    → NoneOwned queue table
    → find_victim queue table ≡ ([], negsuc 0)
unfolding find_victim
find_victim-none [] table none = refl
find_victim-none (x ∷ xs) table none =
    rw (none x (ground arith)) (find_victim-none xs table (λ p q. none p (ground arith)))
