-- ===== src/Kernel/Paging/Segments.antt =====
-- What a page of a segment holds when it has been loaded, by address.
use rv32umos.Base.{
  ℕ, ◌+◌, ◌-◌, ◌*◌, ◌%◌, ◌^◌, ◌<◌, ◌≤◌, ◌≡◌, ap, ◌∙◌, arith, true, false, not, some, ltb, ◌==◌,
  if◌then◌else◌, bit_and, PanicsOnly, PanicsOnly-map,
}
use rv32umos.Vm.PageTable.{pf_r, pf_w, pf_x}
use rv32umos.Kernel.Process.{Segment, max_process}
use rv32umos.Kernel.Os.{Os}
use rv32umos.Kernel.Host.{Host, HostFile}
use rv32umos.Kernel.Eviction.{entry}
use rv32umos.Kernel.Eviction.Contents.{IsVirtual}
use rv32umos.Kernel.Eviction.Allocate.{AllTaken}
use rv32umos.Kernel.Paging.{find_segment, segment_page, handle_lazy_loading}
use rv32umos.Kernel.Paging.Handlers.{IsLoaded, handle_lazy_loading_lem}

-- The byte that a program has at an address of a segment: of the file, or 0 behind what the file
-- has of the segment.
abbrev pub segment_byte : HostFile → Segment → ℕ → ℕ
segment_byte file seg addr =
    if ltb (addr - seg.vaddr) seg.file_size
    then file.bytes (seg.file_offset + (addr - seg.vaddr)) % 2 ^ 8
    else 0

-- A page that starts in the segment, of which the file has all that it says.
pub record IsInside (file : HostFile) (seg : Segment) (vpn : ℕ) : Type 0 where
  pub start : seg.vaddr ≤ vpn * 4096
  pub word : vpn < 2 ^ 20
  pub on_file : seg.file_offset + seg.file_size ≤ file.size

segment_page_lem :
    (file : HostFile) (seg : Segment) (vpn i : ℕ)
    → IsInside file seg vpn
    → i < 4096
    → segment_page file seg vpn i ≡ segment_byte file seg (vpn * 4096 + i)
unfolding segment_page
segment_page_lem file seg vpn i h lt = ground (arith, h.start, h.word, h.on_file)

-- In a consistent virtual memory, a fault on a page that is not mapped, at an address in a segment,
-- is served, where the page starts in the first such segment and the program's file has all of the
-- segment that it says: the page has a frame, each byte of it is the file's byte for its address, or
-- 0 behind what the file has of the segment, and its permissions are the segment's; no other page
-- loses what it holds but by being dropped while read-only or unwritten, and the virtual memory is
-- consistent. The handler panics only if every slot is taken.
pub handle_lazy_loading-segment_byte :
    (host : Host) (os : Os) (pid fault_addr vpn : ℕ) (seg : Segment)
    → IsVirtual os 16
    → pid < max_process
    → (entry os pid vpn).valid ≡ false
    → find_segment (os.process_list pid).segments fault_addr ≡ some seg
    → IsInside (host.file (os.process_list pid).name) seg vpn
    → PanicsOnly
        (AllTaken os.swap)
        (λ z.
          IsLoaded os pid vpn
            (λ i. segment_byte (host.file (os.process_list pid).name) seg (vpn * 4096 + i))
            (not (bit_and seg.flags pf_r == 0))
            (not (bit_and seg.flags pf_w == 0))
            (not (bit_and seg.flags pf_x == 0))
            z.0
          × (z.1 ≡ true))
        (handle_lazy_loading host os pid fault_addr vpn)
handle_lazy_loading-segment_byte host os pid fault_addr vpn seg h hp invalid found inside =
    PanicsOnly-map (AllTaken os.swap) _ _ _
      (handle_lazy_loading_lem os h pid vpn hp invalid host fault_addr seg found)
      (λ z l. (
        record {
          served = l.0.served;
          bytes = λ i lt.
              l.0.bytes i lt
              ∙ ap (λ (b : ℕ). b % 2 ^ 8)
                  (segment_page_lem (host.file (os.process_list pid).name) seg vpn i inside lt);
          can_read = l.0.can_read;
          can_write = l.0.can_write;
          can_execute = l.0.can_execute;
          swapped = l.0.swapped;
        },
        l.1,
      ))
