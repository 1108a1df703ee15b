-- ===== src/StateBridge/Sparse.antt =====
-- src/remill_state_bridge.cpp: the sparse state of a row, put into `State` and taken out of it.
use remill_tester.Base.{ℕ, ◌||◌, List, [], ◌∷◌, ◌++◌, Option, none, some, if◌then◌else◌}
use remill_tester.Base.Text.{Text, codes, same}
use remill_tester.Base.Map.{assign, text_key}
use remill_tester.Expectation.{Scalars, ByteValues}
use remill_tester.Parser.Strings.{canonical_state_key}
use remill_tester.StateBridge.{
  State, is_scalar_register, set_scalar_register, get_scalar_register, is_byte_register,
  set_byte_register, get_byte_register, set_x87_status, get_x87_status, set_flags, get_flags,
}

-- What ApplyInitialState leaves: the state, and behind a `false` the text that `*error` gets. (With
-- a null `error` the answer is the same and no text is kept.)
abbrev pub Applied : Type 0
Applied = Option Text × State

module _ (num_vec_registers : ℕ) where
  -- One scalar entry: what the ladder of the first loop does with it.
  unfoldable pub apply_scalar : State → Text → ℕ → Applied
  apply_scalar s key value =
      if same key (codes "flag")
      then (none, set_flags s value)
      else if same key (codes "cr0")
      then (none, s)
      else if same key (codes "x87status")
      then (none, set_x87_status s value)
      else if is_scalar_register key
      then (none, (set_scalar_register s key value).1)
      else if is_byte_register num_vec_registers key
      then (none, s)
      else (some (codes "unsupported scalar state key: " ++ key), s)

  unfoldable pub apply_scalars : State → Scalars → Applied
  apply_scalars s [] = (none, s)
  apply_scalars s ((raw_key, value) ∷ entries) =
      let (error, s') = apply_scalar s (canonical_state_key raw_key) value in
      elim error [ none ↦ apply_scalars s' entries | some message ↦ (some message, s') ]

  -- One byte entry: the ladder of the second loop.
  unfoldable pub apply_bytes_of : State → Text → List ℕ → Applied
  apply_bytes_of s key bytes =
      let (stored, s') = set_byte_register num_vec_registers s key bytes in
      if same key (codes "flag")
        || same key (codes "cr0")
        || same key (codes "x87status")
        || is_scalar_register key
      then (none, s)
      else if is_byte_register num_vec_registers key
      then (if stored
          then (none, s')
          else (some (codes "invalid byte state for register: " ++ key), s))
      else (some (codes "unsupported byte state key: " ++ key), s)

  unfoldable pub apply_bytes : State → ByteValues → Applied
  apply_bytes s [] = (none, s)
  apply_bytes s ((raw_key, bytes) ∷ entries) =
      let (error, s') = apply_bytes_of s (canonical_state_key raw_key) bytes in
      elim error [ none ↦ apply_bytes s' entries | some message ↦ (some message, s') ]

  unfoldable pub apply_initial_state : State → Scalars → ByteValues → Applied
  unfolding apply_scalars apply_bytes apply_scalar apply_bytes_of
  apply_initial_state s initial_state initial_bytes =
      let (error, s') = apply_scalars s initial_state in
      elim error [ none ↦ apply_bytes s' initial_bytes | some message ↦ (some message, s') ]

-- The value that SnapshotState stores for a canonical key, if it stores one.
unfoldable pub snapshot_value : State → Text → Option ℕ
snapshot_value s key =
    if same key (codes "flag")
    then some (get_flags s)
    else if same key (codes "x87status")
    then some (get_x87_status s)
    else get_scalar_register s key

abbrev pub assign_some {ℓ} : {V : Type ℓ} → Text → Option V → List (Text × V) → List (Text × V)
assign_some key none snapshot = snapshot
assign_some key (some value) snapshot = assign key value snapshot

-- The loop of SnapshotState, with the map that it has filled so far.
unfoldable pub snapshot_loop : State → List Text → Scalars → Scalars
snapshot_loop s [] snapshot = snapshot
snapshot_loop s (raw_key ∷ keys) snapshot =
    let key = canonical_state_key raw_key in
    snapshot_loop s keys (assign_some key (snapshot_value s key) snapshot)

unfoldable pub snapshot_state : State → List Text → Scalars
unfolding snapshot_loop snapshot_value
snapshot_state s keys = snapshot_loop s keys []

module _ (num_vec_registers : ℕ) where
  unfoldable pub snapshot_bytes_loop : State → List Text → ByteValues → ByteValues
  snapshot_bytes_loop s [] snapshot = snapshot
  snapshot_bytes_loop s (raw_key ∷ keys) snapshot =
      let key = canonical_state_key raw_key in
      snapshot_bytes_loop s keys
        (assign_some key (get_byte_register num_vec_registers s key) snapshot)

  unfoldable pub snapshot_bytes : State → List Text → ByteValues
  unfolding snapshot_bytes_loop
  snapshot_bytes s keys = snapshot_bytes_loop s keys []
