-- ===== src/Vm/Memory/Laws.antt =====
-- What `Memory::load` and `Memory::store` do on every branch, and how they meet.
use native.Mathlib.Nat.{one-le-pow, div-div-eq-div-mul}
use rv32umos.Base.{
  ℕ, zero, suc, ◌+◌, ◌-◌, ◌*◌, ◌/◌, ◌%◌, ◌^◌, ◌≤◌, ◌<◌, ◌≡◌, refl, sym, ap, ◌∙◌, arith, ok, stop,
  bad_address, out_of_bounds, ltb, leb, if◌then◌else◌, le→ltb, ◌⊎◌,
}
use rv32umos.Vm.Memory.{Memory, memory_size, is_bad_address, load_loop, store_loop, load, store}
use rv32umos.Vm.Memory.Loops.{
  two-pow-byte, le_word, IsBytes, stored, load_loop_lem, store_loop_lem, load_loop-past,
  store_loop-past,
}

-- A load of 1 to 4 bytes from a memory of bytes: the assert fails exactly when the first address
-- lies outside the RAM, the vector is left exactly when a later one does, and otherwise the result
-- is the little-endian number in the bytes.
pub load_lem :
    (m : Memory) (addr size : ℕ)
    → IsBytes m
    → 1 ≤ size
    → size ≤ 4
    → load m addr size ≡ (
        if leb memory_size addr
        then stop bad_address
        else if ltb memory_size (addr + size)
        then stop out_of_bounds
        else ok (le_word m.bytes addr size))
unfolding load is_bad_address
load_lem m addr size hm h1 h4 = ground (
  arith,
  load_loop_lem m addr size 0 0 hm,
  load_loop-past m addr size 0 0,
  ap (λ (t : ℕ). le_word m.bytes t size) {x = addr + 0} {y = addr} (omega arith),
  ap (λ (t : ℕ). load_loop m t size 0 0) {x = addr - 0} {y = addr} (omega arith),
)

-- A store of any value and at least one byte fails as a load does, and otherwise sets exactly the
-- bytes from `addr` on, to the value's bytes from the lowest.
pub store_lem :
    (m : Memory) (addr size value : ℕ)
    → 1 ≤ size
    → store m addr size value ≡ (
        if leb memory_size addr
        then stop bad_address
        else if ltb memory_size (addr + size)
        then stop out_of_bounds
        else ok (stored m addr value 0 size))
unfolding store is_bad_address
store_lem m addr size value h1 = ground (
  arith,
  store_loop_lem m addr value size 0,
  store_loop-past m addr value size 0,
  ap (λ (t : ℕ). store_loop m t value size 0) {x = addr - 0} {y = addr} (omega arith),
  ap (λ (t : ℕ). stored m addr value 0 t) {x = 0 + size} {y = size} (omega arith),
)

pub load-in_range :
    (m : Memory) (addr size : ℕ)
    → IsBytes m
    → 1 ≤ size
    → size ≤ 4
    → addr + size ≤ memory_size
    → load m addr size ≡ ok (le_word m.bytes addr size)
load-in_range m addr size hm h1 h4 h = ground (arith, load_lem m addr size hm h1 h4)

pub store-in_range :
    (m : Memory) (addr size value : ℕ)
    → 1 ≤ size
    → addr + size ≤ memory_size
    → store m addr size value ≡ ok (stored m addr value 0 size)
store-in_range m addr size value h1 h = ground (arith, store_lem m addr size value h1)

mod-byte : (v p : ℕ) → 0 < p → v % (256 * p) ≡ v % 256 + 256 * (v / 256 % p)
mod-byte v p h = grind arith

-- The number in bytes that hold the digits of `v`.
le_word-digits :
    (f : ℕ → ℕ) (i n v : ℕ)
    → ((j : ℕ) → j < n → f (i + j) ≡ v / 2 ^ (j * 8) % 256)
    → le_word f i n ≡ v % 2 ^ (n * 8)
le_word-digits f i zero v h = omega arith
le_word-digits f i (suc n) v h =
    let p : ℕ = 2 ^ (n * 8) in
    let power : 2 ^ (suc n * 8) ≡ 256 * p =
      ap (λ (t : ℕ). 2 ^ (t * 8)) (omega arith) ∙ two-pow-byte n in
    let first : f i ≡ v % 256 = ap f (omega arith) ∙ h 0 (omega arith) ∙ omega arith in
    rw (power, first, le_word-digits f (i + 1) n (v / 256) shifted)
      (sym (mod-byte v p (one-le-pow (n * 8) 2 (omega arith))))
  where
    shifted : (j : ℕ) → j < n → f (i + 1 + j) ≡ v / 256 / 2 ^ (j * 8) % 256
    shifted j q =
        ap f {x = i + 1 + j} {y = i + suc j} (omega arith)
        ∙ h (suc j) (omega arith)
        ∙ ap (λ (t : ℕ). t % 256)
            (ap (λ (t : ℕ). v / 2 ^ (t * 8)) {x = suc j} {y = j + 1} (omega arith)
              ∙ ap (λ (t : ℕ). v / t) (two-pow-byte j)
              ∙ sym (div-div-eq-div-mul v 256 (2 ^ (j * 8))))

pub le_word_ext :
    (f g : ℕ → ℕ) (i n : ℕ)
    → ((j : ℕ) → i ≤ j → j < i + n → f j ≡ g j)
    → le_word f i n ≡ le_word g i n
le_word_ext f g i zero h = refl
le_word_ext f g i (suc n) h = rw (
  h i (omega arith) (omega arith),
  le_word_ext f g (i + 1) n (λ j p q. h j (omega arith) (omega arith)),
)

pub le_word-lt : (m : Memory) (i n : ℕ) → IsBytes m → le_word m.bytes i n < 2 ^ (n * 8)
le_word-lt m i zero h = omega arith
le_word-lt m i (suc n) h = omega (
  arith,
  h i,
  le_word-lt m (i + 1) n h,
  ap (λ (t : ℕ). 2 ^ (t * 8)) {x = suc n} {y = n + 1} (omega arith),
  two-pow-byte n,
)

pub stored-IsBytes :
    (m : Memory) (index value lo hi : ℕ) → IsBytes m → IsBytes (stored m index value lo hi)
stored-IsBytes m index value lo hi h j = ground (arith, h j)

le_word-stored :
    (m : Memory) (addr size value : ℕ)
    → le_word (stored m addr value 0 size).bytes addr size ≡ value % 2 ^ (size * 8)
le_word-stored m addr size value =
    le_word-digits (stored m addr value 0 size).bytes addr size value λ j p.
      ground
        (arith, ap (λ (t : ℕ). value / 2 ^ (t * 8)) {x = addr + j - addr} {y = j} (omega arith))

store-eq-stored :
    (m m' : Memory) (addr size value : ℕ)
    → 1 ≤ size
    → store m addr size value ≡ ok m'
    → m' ≡ stored m addr value 0 size
store-eq-stored m m' addr size value h1 e = ground (arith, store_lem m addr size value h1)

-- A store keeps every byte below 256.
pub store-IsBytes :
    (m m' : Memory) (addr size value : ℕ)
    → IsBytes m
    → 1 ≤ size
    → store m addr size value ≡ ok m'
    → IsBytes m'
store-IsBytes m m' addr size value h h1 e =
    rw (store-eq-stored m m' addr size value h1 e) (stored-IsBytes m addr value 0 size h)

-- Loading what was just stored, at the same address and of the same size of 1 to 4 bytes inside
-- the RAM, gives the value's low bytes.
pub load-store :
    (m : Memory) (addr size value : ℕ)
    → IsBytes m
    → 1 ≤ size
    → size ≤ 4
    → addr + size ≤ memory_size
    → (m' : Memory) × (store m addr size value ≡ ok m')
      × (load m' addr size ≡ ok (value % 2 ^ (size * 8)))
load-store m addr size value hm h1 h4 hs = (
  stored m addr value 0 size,
  ground (arith, store_lem m addr size value h1),
  load_lem (stored m addr value 0 size) addr size (stored-IsBytes m addr value 0 size hm) h1 h4
      ∙ rw (le→ltb memory_size (addr + size) hs, le_word-stored m addr size value) (ground arith),
)

-- A store leaves every load from other addresses as it was.
pub load-store_disjoint :
    (m m' : Memory) (addr size value addr' size' : ℕ)
    → IsBytes m
    → 1 ≤ size
    → 1 ≤ size'
    → size' ≤ 4
    → (addr + size ≤ addr') ⊎ (addr' + size' ≤ addr)
    → store m addr size value ≡ ok m'
    → load m' addr' size' ≡ load m addr' size'
load-store_disjoint m m' addr size value addr' size' hm h1 h1' h4' apart e =
    rw (store-eq-stored m m' addr size value h1 e, load_lem m addr' size' hm h1' h4')
      (load_lem (stored m addr value 0 size) addr' size' (stored-IsBytes m addr value 0 size hm) h1'
          h4'
        ∙ rw (le_word_ext (stored m addr value 0 size).bytes m.bytes addr' size' same))
  where
    same :
        (j : ℕ) → addr' ≤ j → j < addr' + size' → (stored m addr value 0 size).bytes j ≡ m.bytes j
    same j p q = ground arith
