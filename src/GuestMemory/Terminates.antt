-- ===== src/GuestMemory/Terminates.antt =====
-- The `while (remaining != 0)` loops of CheckAccess, Write and Read as finite sequences of rounds,
-- each of which goes on behind its chunk: an execution that ends is a derivation.
use remill_tester.Base.{
  ℕ, zero, suc, ◌-◌, ◌≤◌, ◌<◌, ◌≡◌, arith, add64, List, [], ◌++◌, drop, inl, inr, Option-cases,
  Bool, true, false, none, some, suc-ne-zero,
}
use remill_tester.Base.Text.{Text}
use remill_tester.GuestMemory.{
  GuestMemory, MemoryFaultKind, set_fault, chunk_at, check_loop, denial,
}
use remill_tester.GuestMemory.Transfer.{write_loop, read_loop, store_chunk, load_chunk}
use remill_tester.GuestMemory.Check.{fault_of}
use remill_tester.GuestMemory.Contents.{Pages}
use remill_tester.GuestMemory.Chunk.{chunk_at_pos}

-- The loop of CheckAccess at `remaining` bytes from `a` on ends with an answer.
pub data Checks (m : GuestMemory) (required : ℕ) (operation : Text)
    : ℕ → ℕ → Bool × GuestMemory → Type 0 where
  ended : {a : ℕ} → Checks m required operation 0 a (true, m)
  left :
      {remaining a : ℕ} {kind : MemoryFaultKind} {detail : Text}
      → 0 < remaining
      → denial m a required ≡ some (kind, detail)
      → Checks m required operation remaining a
          (false, set_fault m (fault_of kind a (chunk_at remaining a) operation detail))
  round :
      {remaining a : ℕ} {answer : Bool × GuestMemory}
      → 0 < remaining
      → denial m a required ≡ none
      → Checks m required operation
          (remaining - chunk_at remaining a)
          (add64 a (chunk_at remaining a))
          answer
      → Checks m required operation remaining a answer

-- The copying loop of Write ends with these pages.
pub data Writes : Pages → List ℕ → ℕ → ℕ → Pages → Type 0 where
  ended : {pages : Pages} {source : List ℕ} {a : ℕ} → Writes pages source 0 a pages
  round :
      {pages result : Pages} {source : List ℕ} {remaining a : ℕ}
      → 0 < remaining
      → Writes
          (store_chunk pages source (chunk_at remaining a) a)
          (drop (chunk_at remaining a) source)
          (remaining - chunk_at remaining a)
          (add64 a (chunk_at remaining a))
          result
      → Writes pages source remaining a result

-- The copying loop of Read ends with these bytes.
pub data Reads (pages : Pages) : ℕ → ℕ → List ℕ → Type 0 where
  ended : {a : ℕ} → Reads pages 0 a []
  round :
      {remaining a : ℕ} {rest : List ℕ}
      → 0 < remaining
      → Reads pages (remaining - chunk_at remaining a) (add64 a (chunk_at remaining a)) rest
      → Reads pages remaining a (load_chunk pages (chunk_at remaining a) a ++ rest)

-- What is left behind a round is within the fuel that is left.
round_fuel :
    (fuel remaining a : ℕ)
    → suc remaining ≤ suc fuel
    → suc remaining - chunk_at (suc remaining) a ≤ fuel
round_fuel fuel remaining a h = omega (arith, chunk_at_pos (suc remaining) a)

check_loop-Checks :
    (fuel : ℕ) (m : GuestMemory) (required : ℕ) (operation : Text) (remaining a : ℕ)
    → remaining ≤ fuel
    → Checks m required operation remaining a (check_loop fuel m required operation remaining a)
unfolding check_loop
check_loop-Checks zero m required operation zero a h = Checks.ended
check_loop-Checks zero m required operation (suc more) a h = elim h [ ]
check_loop-Checks (suc fuel) m required operation zero a h = Checks.ended
check_loop-Checks (suc fuel) m required operation (suc more) a h =
    let k = chunk_at (suc more) a in
    elim (Option-cases (denial m a required)) [
      | inl allowed ↦
          rw (suc-ne-zero more, allowed)
            (Checks.round (omega arith) allowed (
              check_loop-Checks fuel m required operation (suc more - k) (add64 a k)
                (round_fuel fuel more a h)))
      | inr (reason, denied) ↦ rw (suc-ne-zero more, denied) (Checks.left (omega arith) denied)
    ]

write_loop-Writes :
    (fuel : ℕ) (pages : Pages) (source : List ℕ) (remaining a : ℕ)
    → remaining ≤ fuel
    → Writes pages source remaining a (write_loop fuel pages source remaining a)
unfolding write_loop
write_loop-Writes zero pages source zero a h = Writes.ended
write_loop-Writes zero pages source (suc more) a h = elim h [ ]
write_loop-Writes (suc fuel) pages source zero a h = Writes.ended
write_loop-Writes (suc fuel) pages source (suc more) a h =
    let k = chunk_at (suc more) a in
    rw (suc-ne-zero more) (
      Writes.round (omega arith) (
        write_loop-Writes fuel (store_chunk pages source k a) (drop k source) (suc more - k)
          (add64 a k) (round_fuel fuel more a h)))

read_loop-Reads :
    (fuel : ℕ) (pages : Pages) (remaining a : ℕ)
    → remaining ≤ fuel
    → Reads pages remaining a (read_loop fuel pages remaining a)
unfolding read_loop
read_loop-Reads zero pages zero a h = Reads.ended
read_loop-Reads zero pages (suc more) a h = elim h [ ]
read_loop-Reads (suc fuel) pages zero a h = Reads.ended
read_loop-Reads (suc fuel) pages (suc more) a h =
    let k = chunk_at (suc more) a in
    rw (suc-ne-zero more) (
      Reads.round (omega arith)
        (read_loop-Reads fuel pages (suc more - k) (add64 a k) (round_fuel fuel more a h)))

-- For any number of bytes and any address, the loops of CheckAccess, Write and Read, with as much
-- fuel as bytes, run through finitely many rounds to the state in which nothing remains or, for
-- CheckAccess, the page is denied, each round a chunk further; their results are those of these
-- executions.
pub loops_end :
    (m : GuestMemory) (required : ℕ) (operation : Text) (pages : Pages) (source : List ℕ)
    (size a : ℕ)
    → Checks m required operation size a (check_loop size m required operation size a)
      × Writes pages source size a (write_loop size pages source size a)
      × Reads pages size a (read_loop size pages size a)
loops_end m required operation pages source size a = (
  check_loop-Checks size m required operation size a (omega arith),
  write_loop-Writes size pages source size a (omega arith),
  read_loop-Reads size pages size a (omega arith),
)
