-- ===== src/Power/Frames.antt =====
-- The frames in which Docker multiplexes the output of a Power: `_read_exact` and `read_rpc_frames`
-- of team/power_execution.py. A byte is a number below 256. The socket and the clock are parameters.
use shimpz_drivers.Prelude.{
  ℕ, suc, zero, ◌+◌, ◌-◌, ◌*◌, Bool, true, false, not, ◌||◌, List, [], ◌∷◌, ◌++◌, Result, ok, err,
  if◌then◌else◌, ltb, leb, ◌==◌, eq_nat, length,
}
use shimpz_drivers.Prelude.Actions.{Action, pure, raise, refuse, lift, reraise, ◌>>=◌, ◌>>◌}

-- TimeoutError, EOFError, ValueError, OSError and struct.error; `spent` is the end of the fuel.
pub data ReadError : Type 0 where
  timed_out ended invalid os_failed malformed spent : ReadError

pub data OsError : Type 0 where
  os_error : OsError

abbrev pub of_os : OsError → ReadError
of_os os_error = os_failed

-- `time.monotonic`, `select.select` on the socket with a timeout, and `recv`.
pub record Socket (S : Type 0) : Type 0 where
  pub monotonic : S → ℕ × S
  pub readable : ℕ → Action S OsError Bool
  pub recv : ℕ → Action S OsError (List ℕ)

-- The fields of a header by `struct.unpack(">BxxxL", header)`.
unfoldable pub unpack : List ℕ → Result ReadError (ℕ × ℕ)
unpack (stream_id ∷ _ ∷ _ ∷ _ ∷ a ∷ b ∷ c ∷ d ∷ []) =
    ok (stream_id, ((a * 256 + b) * 256 + c) * 256 + d)
unpack _ = err malformed

-- `except EOFError: raise ValueError`
abbrev pub truncated : ReadError → ReadError
truncated ended = invalid
truncated e = e

-- `target.extend(chunk)`
unfoldable pub extend : ℕ → List ℕ → List ℕ → List ℕ → List ℕ × List ℕ
extend stream_id chunk stdout stderr =
    if stream_id == 1 then (stdout ++ chunk, stderr) else (stdout, stderr ++ chunk)

abbrev pub is_oversized : ℕ → List ℕ × List ℕ → Bool
is_oversized maximum (stdout, stderr) = ltb maximum (length stdout + length stderr)

abbrev pub is_empty : List ℕ → Bool
is_empty [] = true
is_empty (_ ∷ _) = false

module _ {S : Type 0} (raw_socket : Socket S) (deadline : ℕ) where
  -- The wait for a byte: `remaining` is positive and the socket is readable in time.
  unfoldable pub wait : Action S ReadError (Unit {0})
  wait = do
    now ← λ s. (ok (raw_socket.monotonic s).0, (raw_socket.monotonic s).1)
    refuse (leb deadline now) timed_out
    ready ← reraise of_os (raw_socket.readable (deadline - now))
    refuse (not ready) timed_out

  -- The loop of _read_exact, on fuel.
  unfoldable pub read_more : ℕ → ℕ → List ℕ → Action S ReadError (List ℕ)
  read_more zero amount output = if leb amount (length output) then pure output else raise spent
  read_more (suc fuel) amount output =
      let more = do
        wait
        chunk ← reraise of_os (raw_socket.recv (amount - length output))
        refuse (is_empty chunk) ended
        read_more fuel amount (output ++ chunk)
      in if leb amount (length output) then pure output else more

  -- _read_exact: every turn of its loop reads a byte at least.
  unfoldable pub read_exact : ℕ → Action S ReadError (List ℕ)
  read_exact amount = read_more amount amount []

  -- A frame after its header: the two outputs with its payload.
  unfoldable pub read_payload : ℕ → List ℕ × List ℕ → ℕ × ℕ → Action S ReadError (List ℕ × List ℕ)
  read_payload maximum (stdout, stderr) (stream_id, size) = do
    refuse (not (stream_id == 1 || stream_id == 2)) invalid
    refuse (ltb (maximum + 1) size) invalid
    chunk ← reraise truncated (read_exact size)
    refuse (is_oversized maximum (extend stream_id chunk stdout stderr)) invalid
    pure (extend stream_id chunk stdout stderr)

  -- A frame after its first byte.
  unfoldable pub read_frame : ℕ → List ℕ × List ℕ → List ℕ → Action S ReadError (List ℕ × List ℕ)
  read_frame maximum outputs first = do
    rest ← reraise truncated (read_exact 7)
    fields ← lift (unpack (first ++ rest))
    read_payload maximum outputs fields

  -- What the loop of read_rpc_frames does with the first byte of a frame, or with the end.
  abbrev pub on_first :
      (List ℕ → Action S ReadError (List ℕ × List ℕ))
      → List ℕ × List ℕ
      → Result ReadError (List ℕ) × S
      → Result ReadError (List ℕ × List ℕ) × S
  on_first rest outputs (err ended, s) = (ok outputs, s)
  on_first rest outputs (err e, s) = (err e, s)
  on_first rest outputs (ok first, s) = rest first s

  -- The loop of read_rpc_frames, on fuel: one frame a turn.
  unfoldable pub read_frames : ℕ → ℕ → List ℕ × List ℕ → Action S ReadError (List ℕ × List ℕ)
  read_frames zero maximum outputs s = (err spent, s)
  read_frames (suc fuel) maximum outputs s =
      on_first (λ first. read_frame maximum outputs first >>= read_frames fuel maximum) outputs
        (read_exact 1 s)

  unfoldable pub read_rpc_frames : ℕ → ℕ → Action S ReadError (List ℕ × List ℕ)
  read_rpc_frames fuel maximum = read_frames fuel maximum ([], [])
