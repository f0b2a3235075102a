-- ===== src/Power/RoundTrip.antt =====
-- What `read_rpc_frames` of team/power_execution.py reads of frames that were sent.
use shimpz_drivers.Prelude.{
  ℕ, suc, zero, ◌+◌, ◌/◌, ◌%◌, ◌≤◌, ◌<◌, true, false, not, ◌||◌, List, [], ◌∷◌, ◌++◌, ok, err, ◌≡◌,
  refl, sym, ap, ◌∙◌, arith, ltb, ◌==◌, eq_nat, length, length-append,
}
use mathlib.Core.List.{append_assoc, append-nil}
use shimpz_drivers.Prelude.Actions.{◌>>=◌, after}
use shimpz_drivers.Power.Frames.{
  ended, Socket, is_empty, unpack, extend, is_oversized, read_more, read_exact, read_payload,
  read_frame, read_frames, read_rpc_frames,
}
use shimpz_drivers.Power.Stream.{Delivers, wait_lem, read_more_lem, emptied}

-- A frame of Docker's stream: the number of the output, three zeros, the size of the payload in
-- four bytes, the payload.
pub data Frame : Type 0 where
  to_stdout to_stderr : List ℕ → Frame

abbrev pub payload : Frame → List ℕ
payload (to_stdout bytes) = bytes
payload (to_stderr bytes) = bytes

abbrev pub number : Frame → ℕ
number (to_stdout bytes) = 1
number (to_stderr bytes) = 2

abbrev pub size_bytes : ℕ → List ℕ
size_bytes n = n / 16_777_216 ∷ (n / 65_536) % 256 ∷ (n / 256) % 256 ∷ n % 256 ∷ []

abbrev pub encode : List Frame → List ℕ
encode [] = []
encode (f ∷ fs) =
    number f ∷ (0 ∷ 0 ∷ 0 ∷ size_bytes (length (payload f))) ++ (payload f ++ encode fs)

abbrev pub stdout_of : List Frame → List ℕ
stdout_of [] = []
stdout_of (to_stdout bytes ∷ fs) = bytes ++ stdout_of fs
stdout_of (to_stderr bytes ∷ fs) = stdout_of fs

abbrev pub stderr_of : List Frame → List ℕ
stderr_of [] = []
stderr_of (to_stdout bytes ∷ fs) = stderr_of fs
stderr_of (to_stderr bytes ∷ fs) = bytes ++ stderr_of fs

abbrev pub total : List Frame → ℕ
total [] = 0
total (f ∷ fs) = length (payload f) + total fs

unpack-size_bytes :
    (k n : ℕ) → n < 4_294_967_296 → unpack (k ∷ 0 ∷ 0 ∷ 0 ∷ size_bytes n) ≡ ok (k, n)
unfolding unpack
unpack-size_bytes k n h = ap (λ m. ok (k, m)) (omega (arith, h))

number_known : (f : Frame) → not (number f == 1 || number f == 2) ≡ false
number_known (to_stdout bytes) = refl
number_known (to_stderr bytes) = refl

header_fits : (maximum a n : ℕ) → a + n ≤ maximum → ltb (maximum + 1) n ≡ false
header_fits maximum a n h = ground arith

fits_extended :
    (maximum : ℕ) (f : Frame) (out errors : List ℕ)
    → length out + length errors + length (payload f) ≤ maximum
    → is_oversized maximum (extend (number f) (payload f) out errors) ≡ false
unfolding extend
fits_extended maximum (to_stdout bytes) out errors h = ground (arith, length-append out bytes)
fits_extended maximum (to_stderr bytes) out errors h = ground (arith, length-append errors bytes)

extended_total :
    (maximum : ℕ) (f : Frame) (fs : List Frame) (out errors : List ℕ)
    → length out + length errors + total (f ∷ fs) ≤ maximum
    → length (extend (number f) (payload f) out errors).0
        + length (extend (number f) (payload f) out errors).1
        + total fs
      ≤ maximum
unfolding extend
extended_total maximum (to_stdout bytes) fs out errors h = omega (arith, h, length-append out bytes)
extended_total maximum (to_stderr bytes) fs out errors h =
    omega (arith, h, length-append errors bytes)

extend_stdout :
    (f : Frame) (fs : List Frame) (out errors : List ℕ)
    → (extend (number f) (payload f) out errors).0 ++ stdout_of fs ≡ out ++ stdout_of (f ∷ fs)
unfolding extend
extend_stdout (to_stdout bytes) fs out errors = append_assoc out bytes (stdout_of fs)
extend_stdout (to_stderr bytes) fs out errors = refl

extend_stderr :
    (f : Frame) (fs : List Frame) (out errors : List ℕ)
    → (extend (number f) (payload f) out errors).1 ++ stderr_of fs ≡ errors ++ stderr_of (f ∷ fs)
unfolding extend
extend_stderr (to_stdout bytes) fs out errors = refl
extend_stderr (to_stderr bytes) fs out errors = append_assoc errors bytes (stderr_of fs)

module _ {S : Type 0} (raw_socket : Socket S) (deadline : ℕ) (pending : S → List ℕ)
    (v : Delivers raw_socket deadline pending) where
  read_exact_lem :
      (xs rest : List ℕ) (s : S)
      → pending s ≡ xs ++ rest
      → (t : S) × (read_exact raw_socket deadline (length xs) s ≡ (ok xs, t)) × (pending t ≡ rest)
  unfolding read_exact
  read_exact_lem xs rest s h =
      read_more_lem raw_socket deadline pending v (length xs) (length xs) [] xs rest s (omega arith)
        (omega arith) h

  -- At the end of the stream there is no first byte.
  read_exact_end :
      (s : S) → pending s ≡ [] → (t : S) × (read_exact raw_socket deadline 1 s ≡ (err ended, t))
  unfolding read_exact read_more ◌>>=◌ after
  read_exact_end s h =
      let (t, p, q) = wait_lem raw_socket deadline pending v s in
      let (chunk, u, r, short, split, some_read) = v.takes 1 t (omega arith) in
      let none_left : is_empty chunk ≡ true = emptied chunk (pending u) (sym split ∙ q ∙ h) in
      (u, ground (arith, p, r, none_left))

  read_payload_lem :
      (maximum : ℕ) (f : Frame) (rest out errors : List ℕ) (s : S)
      → pending s ≡ payload f ++ rest
      → length out + length errors + length (payload f) ≤ maximum
      → (t : S) × (read_payload raw_socket deadline maximum
            (out, errors)
            (number f, length (payload f))
            s
          ≡ (ok (extend (number f) (payload f) out errors), t))
        × (pending t ≡ rest)
  unfolding read_payload ◌>>=◌ after
  read_payload_lem maximum f rest out errors s h k =
      let (t, p, q) = read_exact_lem (payload f) rest s h in
      let known = number_known f in
      let fits = header_fits maximum (length out + length errors) (length (payload f)) k in
      let small = fits_extended maximum f out errors k in
      (t, rw known (rw fits (rw p (rw small refl))), q)

  frame_steps :
      (maximum : ℕ) (f : Frame) (out errors : List ℕ) (s t : S)
      → read_exact raw_socket deadline 7 s ≡ (ok (0 ∷ 0 ∷ 0 ∷ size_bytes (length (payload f))), t)
      → unpack (number f ∷ 0 ∷ 0 ∷ 0 ∷ size_bytes (length (payload f)))
        ≡ ok (number f, length (payload f))
      → read_frame raw_socket deadline maximum (out, errors) (number f ∷ []) s
        ≡ read_payload raw_socket deadline maximum (out, errors) (number f, length (payload f)) t
  unfolding read_frame ◌>>=◌ after
  frame_steps maximum f out errors s t p c = rw p (rw c refl)

  read_frame_lem :
      (maximum : ℕ) (f : Frame) (rest out errors : List ℕ) (s : S)
      → pending s ≡ (0 ∷ 0 ∷ 0 ∷ size_bytes (length (payload f))) ++ (payload f ++ rest)
      → length out + length errors + length (payload f) ≤ maximum
      → maximum < 4_294_967_295
      → (t : S) × (read_frame raw_socket deadline maximum (out, errors) (number f ∷ []) s
          ≡ (ok (extend (number f) (payload f) out errors), t))
        × (pending t ≡ rest)
  unfolding read_frame ◌>>=◌ after
  read_frame_lem maximum f rest out errors s h k m =
      let (t, p, q) =
        read_exact_lem (0 ∷ 0 ∷ 0 ∷ size_bytes (length (payload f))) (payload f ++ rest) s h in
      let (u, i, j) = read_payload_lem maximum f rest out errors t q k in
      let c = unpack-size_bytes (number f) (length (payload f)) (omega (arith, k, m)) in
      (u, frame_steps maximum f out errors s t p c ∙ i, j)

  -- Once the frames that are left are counted in the two outputs, the loop returns.
  read_frames_lem :
      (fuel maximum : ℕ) (fs : List Frame) (out errors : List ℕ) (s : S)
      → pending s ≡ encode fs
      → length out + length errors + total fs ≤ maximum
      → maximum < 4_294_967_295
      → length fs < fuel
      → (read_frames raw_socket deadline fuel maximum (out, errors) s).0
        ≡ ok (out ++ stdout_of fs, errors ++ stderr_of fs)
  unfolding read_frames ◌>>=◌ after
  read_frames_lem zero maximum fs out errors s h k m l = absurd (omega (arith, l))
  read_frames_lem (suc n) maximum [] out errors s h k m l =
      let (t, p) = read_exact_end s h in ground (arith, p, append-nil out, append-nil errors)
  read_frames_lem (suc n) maximum (f ∷ fs) out errors s h k m l =
      let (t, p, q) =
        read_exact_lem (number f ∷ [])
          ((0 ∷ 0 ∷ 0 ∷ size_bytes (length (payload f))) ++ (payload f ++ encode fs)) s h in
      let (u, i, j) = read_frame_lem maximum f (encode fs) out errors t q (omega (arith, k)) m in
      let rest =
        read_frames_lem n maximum fs (extend (number f) (payload f) out errors).0
          (extend (number f) (payload f) out errors).1 u j
          (extended_total maximum f fs out errors k) m (omega (arith, l)) in
      ground (arith, p, i, rest, extend_stdout f fs out errors, extend_stderr f fs out errors)

  -- Over a socket that delivers its bytes in time, in chunks of any size: if the bytes to come are
  -- the encoding of frames whose payloads have at most `maximum` bytes together, where `maximum`
  -- plus one fits in 32 bits, and the fuel is more than the number of frames, then read_rpc_frames
  -- returns the payloads of the standard output in their order, and those of the standard error.
  pub read_rpc_frames-encode :
      (fuel maximum : ℕ) (fs : List Frame) (s : S)
      → pending s ≡ encode fs
      → total fs ≤ maximum
      → maximum < 4_294_967_295
      → length fs < fuel
      → (read_rpc_frames raw_socket deadline fuel maximum s).0 ≡ ok (stdout_of fs, stderr_of fs)
  unfolding read_rpc_frames
  read_rpc_frames-encode fuel maximum fs s h k m l =
      read_frames_lem fuel maximum fs [] [] s h (omega (arith, k)) m l
