-- ===== src/Vm/PageTable.antt =====
-- memory/PTE.hpp: page table entries, and the page table as an association list (an unordered_map;
-- the order of its entries stands for the unspecified order of iteration).
pub mod Laws
use rv32umos.Base.{
  ℕ, ◌≡◌, Bool, true, false, not, List, [], ◌∷◌, Option, none, some, bit_and, ◌==◌, if◌then◌else◌,
}

pub record Pte : Type 0 where
  pub ppn : ℕ
  pub valid : Bool
  pub referenced : Bool
  pub dirty : Bool
  pub swapped : Bool
  pub can_read : Bool
  pub can_write : Bool
  pub can_execute : Bool

-- The default member initialisers.
abbrev pub fresh : Pte
fresh = record {
  ppn = 0;
  valid = false;
  referenced = false;
  dirty = false;
  swapped = false;
  can_read = false;
  can_write = false;
  can_execute = false;
}

-- PF_X, PF_W and PF_R of <elf.h>.
abbrev pub pf_x : ℕ
pf_x = 1

abbrev pub pf_w : ℕ
pf_w = 2

abbrev pub pf_r : ℕ
pf_r = 4

unfoldable pub set_pte_flags_from_elf : Pte → ℕ → Pte
set_pte_flags_from_elf pte flags = record pte {
  can_read = not (bit_and flags pf_r == 0);
  can_write = not (bit_and flags pf_w == 0);
  can_execute = not (bit_and flags pf_x == 0);
}

abbrev pub PageTable : Type 0
PageTable = List (ℕ × Pte)

-- `count(vpn)` and `at(vpn)` together.
unfoldable pub lookup : PageTable → ℕ → Option Pte
lookup [] vpn = none
lookup ((k, pte) ∷ t) vpn = if k == vpn then some pte else lookup t vpn

-- Writing through a reference to the entry of `vpn`.
unfoldable pub insert : PageTable → ℕ → Pte → PageTable
insert [] vpn pte = (vpn, pte) ∷ []
insert ((k, old) ∷ t) vpn pte = if k == vpn then (k, pte) ∷ t else (k, old) ∷ insert t vpn pte
