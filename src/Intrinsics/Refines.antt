-- ===== src/Intrinsics/Refines.antt =====
-- The intrinsics as sequences of the operations of the guest memory.
use remill_tester.Base.{
  ℕ, ◌%◌, ◌^◌, ◌≡◌, inl, inr, refl, Bool, true, false, List, [], ◌∷◌, Option, none, some, ◌==◌,
  if◌then◌else◌, Bool-cases,
}
use remill_tester.Base.Text.{Text, codes}
use remill_tester.Base.LittleEndian.{split_bytes}
use remill_tester.GuestMemory.{GuestMemory, MemoryFault}
use remill_tester.GuestMemory.Transfer.{read, read_little_endian, write_little_endian}
use remill_tester.GuestMemory.Fault.{Step, Reach, Reach-Keeps}
use remill_tester.StateBridge.{State}
use remill_tester.Intrinsics.{
  Operation, operate, read_memory, write_memory, compare_exchange, fetch_and_op, mark_unsupported,
  remill_error, missing_block, async_hyper_call,
}
use remill_tester.Intrinsics.Calls.{
  bytes_of, PortWidth, read_io_port, write_io_port, barrier, sync_hyper_call, Call, perform,
  perform_all,
}

-- A pointer that is not null still points to a memory, which steps of the guest memory lead to.
abbrev pub Leads : GuestMemory → Option GuestMemory → Type 0
Leads m none = ⊥
Leads m (some m') = Reach m m'

Leads-if :
    (m : GuestMemory) (b : Bool) (left right : Option GuestMemory)
    → Leads m left
    → Leads m right
    → Leads m (if b then left else right)
Leads-if m true left right l r = l
Leads-if m false left right l r = r

one : {m m' : GuestMemory} → Step m m' → Reach m m'
one s = Reach.next Reach.here s

read_little_endian-Reach :
    (m : GuestMemory) (address width : ℕ) → Reach m (read_little_endian m address width).2
unfolding read_little_endian
read_little_endian-Reach m address width = elim (Bool-cases (read m address width).0) [
  | inl found ↦ rw (found, read_little_endian) (one (Step.reading address width refl))
  | inr refused ↦ rw (refused, read_little_endian) (one (Step.reading address width refl))
]

write_little_endian-Step :
    (m : GuestMemory) (address width value : ℕ)
    → Step m (write_little_endian m address width value).1
unfolding write_little_endian
write_little_endian-Step m address width value =
    Step.writing address (some (split_bytes 0 width value)) width refl

read_memory-Leads :
    (m : GuestMemory) (width address : ℕ) → Leads m (read_memory width (some m) address).1
unfolding read_memory
read_memory-Leads m width address = read_little_endian-Reach m address width

write_memory-Leads :
    (m : GuestMemory) (width address value : ℕ)
    → Leads m (write_memory width (some m) address value)
unfolding write_memory
write_memory-Leads m width address value = one (write_little_endian-Step m address width value)

fetch_and_op-Leads :
    (m : GuestMemory) (op : Operation) (width address value : ℕ)
    → Leads m (fetch_and_op op width (some m) address value).1
unfolding fetch_and_op
fetch_and_op-Leads m op width address value =
    let (found, current, m') = read_little_endian m address width in
    let reads = read_little_endian-Reach m address width in
    elim (Bool-cases found) [
      | inr refused ↦ rw (refused, fetch_and_op) reads
      | inl holds ↦
          rw (holds, fetch_and_op)
            (Reach.next reads
              (write_little_endian-Step m' address width (operate op width current value)))
    ]

compare_exchange-Leads :
    (m : GuestMemory) (width address expected desired : ℕ)
    → Leads m (compare_exchange width (some m) address expected desired).1
unfolding compare_exchange
compare_exchange-Leads m width address expected desired =
    let (found, current, m') = read_little_endian m address width in
    let reads = read_little_endian-Reach m address width in
    elim (Bool-cases found) [
      | inr refused ↦ rw (refused, compare_exchange) reads
      | inl holds ↦ elim (Bool-cases (current == expected)) [
        | inr differs ↦ rw (holds, differs, compare_exchange) reads
        | inl equal ↦
            rw (holds, equal, compare_exchange)
              (Reach.next reads (write_little_endian-Step m' address width desired))
      ]
    ]

mark_unsupported-Leads :
    (m : GuestMemory) (address : ℕ) (detail : Text)
    → Leads m (mark_unsupported (some m) address detail)
unfolding mark_unsupported
mark_unsupported-Leads m address detail = one (Step.marking address detail refl)

Reach-trans : {m m' m'' : GuestMemory} → Reach m m' → Reach m' m'' → Reach m m''
Reach-trans first Reach.here = first
Reach-trans first (Reach.next second step) = Reach.next (Reach-trans first second) step

module _ (verify_readable verify_writable : ℕ) where
  sync_hyper_call-Leads :
      (s : Option State) (m : GuestMemory) (call : ℕ)
      → Leads m (sync_hyper_call verify_readable verify_writable s (some m) call).1
  unfolding sync_hyper_call
  sync_hyper_call-Leads none m call = mark_unsupported-Leads m 0 (codes "__remill_sync_hyper_call")
  sync_hyper_call-Leads (some s) m call = elim (Bool-cases (call == verify_readable)) [
    | inl readable ↦ rw (readable, sync_hyper_call) Reach.here
    | inr other ↦ elim (Bool-cases (call == verify_writable)) [
      | inl writable ↦ rw (other, writable, sync_hyper_call) Reach.here
      | inr unknown ↦
          rw (other, unknown, sync_hyper_call)
            (mark_unsupported-Leads m (s.addr_to_load % 2 ^ 16) (codes "__remill_sync_hyper_call"))
    ]
  ]

  perform-Leads :
      (call : Call verify_readable verify_writable) (s : Option State) (m : GuestMemory)
      → Leads m (perform verify_readable verify_writable call (s, some m)).1
  unfolding perform read_io_port write_io_port barrier remill_error missing_block async_hyper_call
  perform-Leads (Call.reading width address) s m = read_memory-Leads m (bytes_of width) address
  perform-Leads (Call.writing width address value) s m =
      write_memory-Leads m (bytes_of width) address value
  perform-Leads (Call.exchanging width address expected desired) s m =
      compare_exchange-Leads m (bytes_of width) address expected desired
  perform-Leads (Call.fetching op width address value) s m =
      fetch_and_op-Leads m op (bytes_of width) address value
  perform-Leads (Call.failing address) s m = mark_unsupported-Leads m address _
  perform-Leads (Call.missing address) s m = mark_unsupported-Leads m address _
  perform-Leads (Call.hyper_async address) s m = mark_unsupported-Leads m address _
  perform-Leads (Call.port_reading PortWidth.port_8 address) s m =
      mark_unsupported-Leads m address _
  perform-Leads (Call.port_reading PortWidth.port_16 address) s m =
      mark_unsupported-Leads m address _
  perform-Leads (Call.port_reading PortWidth.port_32 address) s m =
      mark_unsupported-Leads m address _
  perform-Leads (Call.port_writing PortWidth.port_8 address value) s m =
      mark_unsupported-Leads m address _
  perform-Leads (Call.port_writing PortWidth.port_16 address value) s m =
      mark_unsupported-Leads m address _
  perform-Leads (Call.port_writing PortWidth.port_32 address value) s m =
      mark_unsupported-Leads m address _
  perform-Leads (Call.hyper_sync call) s m = sync_hyper_call-Leads s m call
  perform-Leads Call.fencing s m = Reach.here

  -- Whatever intrinsics lifted code calls in whatever order, on a memory pointer that is not null the
  -- pointer stays so, what they do to the memory is a sequence of operations of the guest memory, and
  -- a fault that is recorded stays the one that is shown.
  pub perform_all-Reach :
      (calls : List (Call verify_readable verify_writable)) (s : Option State) (m : GuestMemory)
      → (m' : GuestMemory) × ((perform_all verify_readable verify_writable calls (s, some m)).1
          ≡ some m')
        × Reach m m'
        × ((f : MemoryFault) → m.last_fault ≡ some f → m'.last_fault ≡ some f)
  unfolding perform_all
  perform_all-Reach [] s m = (m, refl, Reach.here, λ f h. h)
  perform_all-Reach (call ∷ calls) s m =
      go (perform verify_readable verify_writable call (s, some m)) (perform-Leads call s m)
        (perform_all-Reach calls)
    where
      go :
          (machine : Option State × Option GuestMemory)
          → Leads m machine.1
          → ((s' : Option State) (m1 : GuestMemory)
              → (m2 : GuestMemory) × ((perform_all verify_readable verify_writable calls
                    (s', some m1)).1
                  ≡ some m2)
                × Reach m1 m2
                × ((f : MemoryFault) → m1.last_fault ≡ some f → m2.last_fault ≡ some f))
          → (m' : GuestMemory) × ((perform_all verify_readable verify_writable calls machine).1
              ≡ some m')
            × Reach m m'
            × ((f : MemoryFault) → m.last_fault ≡ some f → m'.last_fault ≡ some f)
      go (s', none) first rest = elim first [ ]
      go (s', some m1) first rest =
          let (m2, ends, reach, keeps) = rest s' m1 in
          let whole = Reach-trans first reach in (m2, ends, whole, λ f h. Reach-Keeps f h whole)
