-- ===== src/Power/Examples.antt =====
-- The theorems on Powers at concrete inputs, and tests.
use shimpz_drivers.Prelude.{ℕ, ◌≤◌, ◌<◌, List, [], ◌∷◌, ◌++◌, ◌≡◌, refl, arith, ok, true, length}
use shimpz_drivers.Prelude.Actions.{Action}
use shimpz_drivers.Power.Frames.{OsError, Socket, read_rpc_frames, read_exact}
use shimpz_drivers.Power.Stream.{Delivers}
use shimpz_drivers.Power.RoundTrip.{to_stdout, to_stderr, Frame, encode, read_rpc_frames-encode}
use shimpz_drivers.Power.ReadBounds.{ReadEnds, read_exact-ReadEnds, read_rpc_frames-le-maximum}

-- A socket that gives one byte at a time, at time 0.
one_byte : ℕ → Action (List ℕ) OsError (List ℕ)
one_byte amount [] = (ok [], [])
one_byte amount (x ∷ xs) = (ok (x ∷ []), xs)

abbrev slow_socket : Socket (List ℕ)
slow_socket = record {
  monotonic = λ s. (0, s);
  readable = λ remaining s. (ok true, s);
  recv = one_byte;
}

slow_socket-Delivers : Delivers slow_socket 5 (λ s. s)
unfolding one_byte
slow_socket-Delivers = record {
  clock = λ s. (0, s, refl, omega arith, refl);
  ready = λ remaining s. (s, refl, refl);
  takes = λ amount s h. takes_one amount s h;
}
  where
    takes_one :
        (amount : ℕ) (s : List ℕ)
        → 0 < amount
        → (chunk : List ℕ) × (t : List ℕ) × (one_byte amount s ≡ (ok chunk, t))
          × (length chunk ≤ amount)
          × (s ≡ chunk ++ t)
          × (0 < length s → 0 < length chunk)
    takes_one amount [] h = ([], [], refl, omega arith, refl, λ k. k)
    takes_one amount (x ∷ xs) h = (x ∷ [], xs, refl, omega (arith, h), refl, λ k. omega arith)

abbrev three_frames : List Frame
three_frames = to_stdout (b'h' ∷ b'i' ∷ []) ∷ to_stderr (b'!' ∷ []) ∷ to_stdout (b'.' ∷ []) ∷ []

read_rpc_frames-encode_example :
    (read_rpc_frames slow_socket 5 4 10 (encode three_frames)).0
    ≡ ok (b'h' ∷ b'i' ∷ b'.' ∷ [], b'!' ∷ [])
read_rpc_frames-encode_example =
    read_rpc_frames-encode slow_socket 5 (λ s. s) slow_socket-Delivers 4 10 three_frames
      (encode three_frames) refl (omega arith) (omega arith) (omega arith)

read_rpc_frames-le-maximum_example : 4 ≤ 10
read_rpc_frames-le-maximum_example =
    read_rpc_frames-le-maximum slow_socket 5 4 10 (encode three_frames)
      read_rpc_frames-encode_example

read_exact-ReadEnds_example : ReadEnds 3 (read_exact slow_socket 5 3 (1 ∷ 2 ∷ 3 ∷ 4 ∷ [])).0
read_exact-ReadEnds_example = read_exact-ReadEnds slow_socket 5 3 (1 ∷ 2 ∷ 3 ∷ 4 ∷ [])
