-- ===== src/Intrinsics/Calls.antt =====
-- src/remill_intrinsics.cpp: the functions that lifted code finds under the names of the intrinsics,
-- each with its width, and what a call does to the state and the memory that it is given.
-- The codes of the two hypercalls are Remill's; pointers may be null.
use remill_tester.Base.{ℕ, ◌%◌, ◌^◌, Bool, List, [], ◌∷◌, Option, none, some, ◌==◌, if◌then◌else◌}
use remill_tester.Base.Text.{codes}
use remill_tester.GuestMemory.{GuestMemory}
use remill_tester.StateBridge.{State, set_or_clear}
use remill_tester.FlagMasks.{flag_zf}
use remill_tester.Intrinsics.{
  Operation, read_memory, write_memory, compare_exchange, fetch_and_op, mark_unsupported,
  remill_error, missing_block, async_hyper_call,
}

pub data Width : Type 0 where
  word_8 word_16 word_32 word_64 : Width

abbrev pub bytes_of : Width → ℕ
bytes_of Width.word_8 = 1
bytes_of Width.word_16 = 2
bytes_of Width.word_32 = 4
bytes_of Width.word_64 = 8

-- The functions that answer their argument: the computations of flags and the comparisons.
unfoldable pub flag_computation : Bool → Bool
flag_computation result = result

unfoldable pub compare_result : Bool → Bool
compare_result result = result

-- `__remill_fpu_exception_test` and `__remill_fpu_get_rounding`.
unfoldable pub fpu_answer : ℕ
fpu_answer = 0

-- The barriers, the atomic and delay-slot marks, the calls, returns and jumps.
unfoldable pub barrier : Option GuestMemory → Option GuestMemory
barrier memory = memory

unfoldable pub transfer_control : State → ℕ → Option GuestMemory → Option GuestMemory
transfer_control state address memory = memory

-- The widths that the ports have.
pub data PortWidth : Type 0 where
  port_8 port_16 port_32 : PortWidth

unfoldable pub read_io_port : PortWidth → Option GuestMemory → ℕ → ℕ × Option GuestMemory
read_io_port PortWidth.port_8 memory address =
    (0, mark_unsupported memory address (codes "__remill_read_io_port_8"))
read_io_port PortWidth.port_16 memory address =
    (0, mark_unsupported memory address (codes "__remill_read_io_port_16"))
read_io_port PortWidth.port_32 memory address =
    (0, mark_unsupported memory address (codes "__remill_read_io_port_32"))

unfoldable pub write_io_port : PortWidth → Option GuestMemory → ℕ → ℕ → Option GuestMemory
write_io_port PortWidth.port_8 memory address value =
    mark_unsupported memory address (codes "__remill_write_io_port_8")
write_io_port PortWidth.port_16 memory address value =
    mark_unsupported memory address (codes "__remill_write_io_port_16")
write_io_port PortWidth.port_32 memory address value =
    mark_unsupported memory address (codes "__remill_write_io_port_32")

-- The verdict on a segment selector goes to both copies of the zero flag.
unfoldable pub set_zero_flags : State → Bool → State
set_zero_flags s zf = record s {
  rflag = set_or_clear s.rflag flag_zf zf;
  aflag = record s.aflag { zf = zf };
}

module _ (verify_readable verify_writable : ℕ) where
  unfoldable pub sync_hyper_call :
      Option State → Option GuestMemory → ℕ → Option State × Option GuestMemory
  sync_hyper_call none memory call =
      (none, mark_unsupported memory 0 (codes "__remill_sync_hyper_call"))
  sync_hyper_call (some s) memory call =
      let selector = s.addr_to_load % 2 ^ 16 in
      if call == verify_readable
      then (some (set_zero_flags s (selector == 0x20)), memory)
      else if call == verify_writable
      then (some (set_zero_flags s (selector == 0x28)), memory)
      else (some s, mark_unsupported memory selector (codes "__remill_sync_hyper_call"))

  -- A call that may touch the memory or the state, with its arguments.
  pub data Call : Type 0 where
    reading : Width → ℕ → Call
    writing : Width → ℕ → ℕ → Call
    exchanging : Width → ℕ → ℕ → ℕ → Call
    fetching : Operation → Width → ℕ → ℕ → Call
    failing missing hyper_async : ℕ → Call
    port_reading : PortWidth → ℕ → Call
    port_writing : PortWidth → ℕ → ℕ → Call
    hyper_sync : ℕ → Call
    fencing : Call

  unfoldable pub perform :
      Call → Option State × Option GuestMemory → Option State × Option GuestMemory
  perform (Call.reading width address) (s, m) = (s, (read_memory (bytes_of width) m address).1)
  perform (Call.writing width address value) (s, m) =
      (s, write_memory (bytes_of width) m address value)
  perform (Call.exchanging width address expected desired) (s, m) =
      (s, (compare_exchange (bytes_of width) m address expected desired).1)
  perform (Call.fetching op width address value) (s, m) =
      (s, (fetch_and_op op (bytes_of width) m address value).1)
  perform (Call.failing address) (s, m) = (s, remill_error address m)
  perform (Call.missing address) (s, m) = (s, missing_block address m)
  perform (Call.hyper_async address) (s, m) = (s, async_hyper_call address m)
  perform (Call.port_reading width address) (s, m) = (s, (read_io_port width m address).1)
  perform (Call.port_writing width address value) (s, m) = (s, write_io_port width m address value)
  perform (Call.hyper_sync call) (s, m) = sync_hyper_call s m call
  perform Call.fencing (s, m) = (s, barrier m)

  -- What lifted code does to both, through its calls.
  unfoldable pub perform_all :
      List Call → Option State × Option GuestMemory → Option State × Option GuestMemory
  perform_all [] machine = machine
  perform_all (call ∷ calls) machine = perform_all calls (perform call machine)
