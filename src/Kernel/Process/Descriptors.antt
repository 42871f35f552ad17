-- ===== src/Kernel/Process/Descriptors.antt =====
-- The file descriptors of a process.
use rv32umos.Base.{
  ℕ, zero, suc, ◌+◌, ◌<◌, ◌≤◌, ◌≡◌, ◌⊎◌, refl, ap, ◌∙◌, arith, true, false, Option, none, some, leb,
  ◌==◌, if◌then◌else◌, update, ℤ, pos, negsuc, ltb_ℤ, eqb_ℤ, Bool-cases, Option-cases, inl, inr,
}
use rv32umos.Kernel.Process.{
  Process, FileHandle, fd_table_size, free_slot, add_at, add_file_handle, get_file_handle, close_at,
  close_file_handle,
}

-- Place j has a handle.
abbrev pub Taken : (ℕ → Option FileHandle) → ℕ → Type 0
Taken table j = (h : FileHandle) × (table j ≡ some h)

Taken-from :
    (table : ℕ → Option FileHandle) (i n : ℕ)
    → Taken table i
    → ((j : ℕ) → i + 1 ≤ j → j < n → Taken table j)
    → (j : ℕ) → i ≤ j
    → j < n
    → Taken table j
Taken-from table i n (h, used) rest j lo hi = elim (Bool-cases (j == i)) [
  | inl same ↦ (h, ap table {x = j} {y = i} (ground arith) ∙ used)
  | inr other ↦ rest j (ground (arith, lo)) hi
]

-- The loop finds the first place without a handle, or all have one.
free_slot-cases :
    (table : ℕ → Option FileHandle) (left i : ℕ)
    → ((free_slot table left i ≡ none) × ((j : ℕ) → i ≤ j → j < i + left → Taken table j))
      ⊎ ((fd : ℕ) × (free_slot table left i ≡ some fd)
          × (i ≤ fd)
          × (fd < i + left)
          × (table fd ≡ none)
          × ((j : ℕ) → i ≤ j → j < fd → Taken table j))
unfolding free_slot
free_slot-cases table zero i = inl (refl, λ j lo hi. absurd (omega (arith, lo, hi)))
free_slot-cases table (suc left) i = elim (Option-cases (table i)) [
  | inl free ↦
      inr
        (i, ground arith, omega arith, omega arith, free, λ j lo hi. absurd (omega (arith, lo, hi)))
  | inr used ↦ elim (free_slot-cases table left (i + 1)) [
    | inl (e, all) ↦ inl (
      ground (arith, e, used.1),
      λ j lo hi.
          Taken-from table i (i + suc left) used (λ k l u. all k l (omega (arith, u))) j lo hi,
    )
    | inr (fd, e, lo, hi, free, before) ↦ inr (
      fd,
      ground (arith, e, used.1),
      omega (arith, lo),
      omega (arith, hi),
      free,
      λ j l u. Taken-from table i fd used before j l u,
    )
  ]
]

get_updated :
    (p : Process) (fd : ℕ) (o : Option FileHandle) (d : ℤ)
    → fd < fd_table_size
    → get_file_handle (record p { fd_table = update p.fd_table fd o }) d
      ≡ (if eqb_ℤ d (pos fd) then o else get_file_handle p d)
unfolding get_file_handle
get_updated p fd o (pos n) lt = ground (arith, lt)
get_updated p fd o (negsuc n) lt = ground (arith, lt)

-- A handle gets the lowest descriptor that is free, and is what that descriptor then stands for,
-- while every other descriptor, in the table or out of it, stands for what it did; where none of
-- the 1024 is free, the result is -1 and nothing changes.
pub add_file_handle_lem :
    (p : Process) (handle : FileHandle)
    → ((add_file_handle p handle ≡ (p, negsuc 0))
        × ((j : ℕ) → j < fd_table_size → Taken p.fd_table j))
      ⊎ ((fd : ℕ) × ((add_file_handle p handle).1 ≡ pos fd)
          × (fd < fd_table_size)
          × (p.fd_table fd ≡ none)
          × ((j : ℕ) → j < fd → Taken p.fd_table j)
          × ((d : ℤ)
              → get_file_handle (add_file_handle p handle).0 d
                ≡ (if eqb_ℤ d (pos fd) then some handle else get_file_handle p d)))
unfolding add_file_handle add_at
add_file_handle_lem p handle = elim (free_slot-cases p.fd_table fd_table_size 0) [
  | inl (e, all) ↦ inl (rw e refl, λ j lt. all j (omega arith) lt)
  | inr (fd, e, _, lt, free, before) ↦ inr (
    fd,
    rw e refl,
    lt,
    free,
    λ j l. before j (omega arith) l,
    λ d. rw e (get_updated p fd (some handle) d lt),
  )
]

not_negative : (n : ℕ) → ltb_ℤ (pos n) (pos 0) ≡ false
not_negative n = ground arith

is_negative : (n : ℕ) → ltb_ℤ (negsuc n) (pos 0) ≡ true
is_negative n = ground arith

-- Closing succeeds for just those descriptors that stand for a handle; the one that is closed then
-- stands for none, and every other one for what it did.
pub close_file_handle_lem :
    (p : Process) (fd : ℤ)
    → ((get_file_handle p fd ≡ none) × (close_file_handle p fd ≡ (p, false)))
      ⊎ ((h : FileHandle) × (get_file_handle p fd ≡ some h)
          × ((close_file_handle p fd).1 ≡ true)
          × ((d : ℤ)
              → get_file_handle (close_file_handle p fd).0 d
                ≡ (if eqb_ℤ d fd then none else get_file_handle p d)))
unfolding close_file_handle close_at get_file_handle
close_file_handle_lem p (negsuc n) = inl (rw (is_negative n) refl, rw (is_negative n) refl)
close_file_handle_lem p (pos n) = elim (Bool-cases (leb fd_table_size n)) [
  | inl out ↦ inl (ground arith, ground arith)
  | inr inside ↦ elim (Option-cases (p.fd_table n)) [
    | inl free ↦ inl (ground arith, rw (not_negative n, inside, free) refl)
    | inr (h, used) ↦ inr (
      h,
      ground arith,
      rw (not_negative n, inside, used) refl,
      λ d. rw (not_negative n, inside, used) (get_updated p n none d (ground arith)),
    )
  ]
]
